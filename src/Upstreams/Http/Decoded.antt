-- ===== src/Upstreams/Http/Decoded.antt =====
-- What a server reads back from an encoded value of a path.
use Prim.Native.Char.{Char, char, code}
use Prim.Native.String as Str
use text.Mathlib.TextLemmas.{nil-append, cons-append, append_assoc as text_append_assoc}
use mcp_gatehound.Base.{
  ℕ, zero, suc, ◌+◌, ◌*◌, ◌-◌, ◌/◌, ◌%◌, ◌<◌, String, true, false, List, [], ◌∷◌, ◌++◌, ◌+++◌, ◌≡◌,
  refl, ap, eqb, leb, ltb, arith, bytes, if◌then◌else◌, All, Bool-cases, inl, inr, append_nil,
}
use mcp_gatehound.Base.Bytes.{encode}
use mcp_gatehound.Upstreams.Http.{
  hex_digits, digit_at, escape_byte, escape_bytes, encode_segment, is_escaped,
}

-- The value of a hexadecimal digit, in either case.
abbrev hex_value : ℕ → ℕ
hex_value n = if leb n b'9' then n - b'0' else if leb n b'F' then n - 55 else n - 87

-- Where a reader stands: outside of an escape, behind its sign, or behind its first digit.
pub data Reading : Type 0 where
  outside sign : Reading
  digit : ℕ → Reading

-- The bytes that a text with percent escapes stands for.
unfoldable pub percent_decode : Reading → String → List ℕ
percent_decode at' Str.[] = []
percent_decode outside (Str.◌∷◌ c s) =
    let escape = percent_decode sign s in
    let rest = percent_decode outside s in if eqb (code c) b'%' then escape else code c ∷ rest
percent_decode sign (Str.◌∷◌ c s) = percent_decode (digit (hex_value (code c))) s
percent_decode (digit h) (Str.◌∷◌ c s) = (16 * h + hex_value (code c)) ∷ percent_decode outside s

digit_char :
    (n : ℕ)
    → n < 16
    → (c : Char) × (digit_at n hex_digits ≡ Str.◌∷◌ c "") × (hex_value (code c) ≡ n)
digit_char zero h = (Str.char_at "0" 0, refl, refl)
digit_char (suc zero) h = (Str.char_at "1" 0, refl, refl)
digit_char (suc (suc zero)) h = (Str.char_at "2" 0, refl, refl)
digit_char (suc (suc (suc zero))) h = (Str.char_at "3" 0, refl, refl)
digit_char (suc (suc (suc (suc zero)))) h = (Str.char_at "4" 0, refl, refl)
digit_char (suc (suc (suc (suc (suc zero))))) h = (Str.char_at "5" 0, refl, refl)
digit_char (suc (suc (suc (suc (suc (suc zero)))))) h = (Str.char_at "6" 0, refl, refl)
digit_char (suc (suc (suc (suc (suc (suc (suc zero))))))) h = (Str.char_at "7" 0, refl, refl)
digit_char (suc (suc (suc (suc (suc (suc (suc (suc zero)))))))) h = (Str.char_at "8" 0, refl, refl)
digit_char (suc (suc (suc (suc (suc (suc (suc (suc (suc zero))))))))) h =
    (Str.char_at "9" 0, refl, refl)
digit_char (suc (suc (suc (suc (suc (suc (suc (suc (suc (suc zero)))))))))) h =
    (Str.char_at "A" 0, refl, refl)
digit_char (suc (suc (suc (suc (suc (suc (suc (suc (suc (suc (suc zero))))))))))) h =
    (Str.char_at "B" 0, refl, refl)
digit_char (suc (suc (suc (suc (suc (suc (suc (suc (suc (suc (suc (suc zero)))))))))))) h =
    (Str.char_at "C" 0, refl, refl)
digit_char (suc (suc (suc (suc (suc (suc (suc (suc (suc (suc (suc (suc (suc zero))))))))))))) h =
    (Str.char_at "D" 0, refl, refl)
digit_char (suc (suc (suc (suc (suc (suc (suc (suc (suc (suc (suc (suc (suc (suc zero))))))))))))))
      h =
    (Str.char_at "E" 0, refl, refl)
digit_char
      (suc (suc (suc (suc (suc (suc (suc (suc (suc (suc (suc (suc (suc (suc (suc zero)))))))))))))))
      h =
    (Str.char_at "F" 0, refl, refl)
digit_char
      (suc
        (suc (suc (suc (suc (suc (suc (suc (suc (suc (suc (suc (suc (suc (suc (suc n))))))))))))))))
      h =
    absurd (ground arith)

bound : (c : Char) → code c < 0x110000
bound (char n p) = ground arith

three :
    (p c d : Char) (t : String)
    → (Str.◌∷◌ p "" +++ (Str.◌∷◌ c "" +++ Str.◌∷◌ d "")) +++ t ≡ Str.◌∷◌ p (Str.◌∷◌ c (Str.◌∷◌ d t))
three p c d t = simp (cons-append, nil-append)

digits_sum : (b x y : ℕ) → x ≡ b / 16 → y ≡ b % 16 → 16 * x + y ≡ b
digits_sum b x y high low = omega arith

-- An escaped byte is read back.
decode-escape_byte :
    (b : ℕ) (t : String)
    → b < 256
    → percent_decode outside (escape_byte b +++ t) ≡ b ∷ percent_decode outside t
unfolding percent_decode
decode-escape_byte b t small =
    let (c, high, value) = digit_char (b / 16) (omega arith) in
    let (d, low, value') = digit_char (b % 16) (omega arith) in
    let whole : 16 * hex_value (code c) + hex_value (code d) ≡ b = digits_sum b _ _ value value' in
    rw (high, low, three (Str.char_at "%" 0) c d t) (ap (λ n. n ∷ percent_decode outside t) whole)

decode-escape_bytes :
    (bs : List ℕ) (t : String)
    → All (λ b. b < 256) bs
    → percent_decode outside (escape_bytes bs +++ t) ≡ bs ++ percent_decode outside t
decode-escape_bytes [] t small = rw nil-append refl
decode-escape_bytes (b ∷ bs) t (here, small) =
    rw
      (
        text_append_assoc (escape_byte b) (escape_bytes bs) t,
        decode-escape_byte b (escape_bytes bs +++ t) here,
        decode-escape_bytes bs t small,
      )
      refl

encode-small : (n : ℕ) → n < 0x110000 → All (λ b. b < 256) (encode n)
encode-small n h = elim (Bool-cases (ltb n 128)) [
  | inl a ↦ rw a (ground arith, tt)
  | inr a' ↦ elim (Bool-cases (ltb n 2048)) [
    | inl b ↦ rw (a', b) (ground arith, (ground arith, tt))
    | inr b' ↦ elim (Bool-cases (ltb n 65536)) [
      | inl c ↦ rw (a', b', c) (ground arith, (ground arith, (ground arith, tt)))
      | inr c' ↦ rw (a', b', c') (ground arith, (ground arith, (ground arith, (ground arith, tt))))
    ]
  ]
]

-- An encoded text is read back as the text's own bytes.
pub decode-encode_segment : (s : String) → percent_decode outside (encode_segment s) ≡ bytes s
unfolding percent_decode bytes
decode-encode_segment Str.[] = refl
decode-encode_segment (Str.◌∷◌ c s) = elim (Bool-cases (is_escaped (code c))) [
  | inl yes' ↦
      rw
        (
          yes',
          decode-escape_bytes (encode (code c) ++ []) (encode_segment s)
              (rw (append_nil (encode (code c))) (encode-small (code c) (bound c))),
          append_nil (encode (code c)),
          decode-encode_segment s,
        )
        refl
  | inr no' ↦
      let plain : eqb (code c) b'%' ≡ false = ground arith in
      let ascii : ltb (code c) 128 ≡ true = ground arith in
      rw
        (
          no',
          cons-append c "" (encode_segment s),
          nil-append (encode_segment s),
          plain,
          ascii,
          decode-encode_segment s,
        )
        refl
]
