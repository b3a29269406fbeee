-- ===== src/Upstreams/Http/Segments.antt =====
-- What a caller's value becomes in a path.
use Prim.Native.Char.{Char, code}
use Prim.Native.String as Str
use mathlib.Core.Path.{ap₂, subst}
use text.Mathlib.TextLemmas.{
  nil-append, cons-append, nil≢cons, head-eq_of_cons-eq, tail-eq_of_cons-eq,
}
use mcp_gatehound.Base.{
  ℕ, zero, suc, ◌/◌, ◌%◌, String, true, false, ◌&&◌, ◌||◌, List, [], ◌∷◌, ◌+++◌, ◌==◌, ◌≡◌, ◌≢◌,
  refl, sym, ap, ◌∙◌, ok, eqb, lacks, bytes, bytes_inj, all, Bool-cases, inl, inr, arith, eq_iff,
  if◌then◌else◌,
}
use mcp_gatehound.Upstreams.Http.Decoded.{outside, percent_decode, decode-encode_segment}
use mcp_gatehound.Upstreams.Http.{
  is_escaped, hex_digits, digit_at, escape_byte, escape_bytes, encode_char, encode_segment,
  path_value,
}

lacks-append : (d : ℕ) (s t : String) → lacks d (s +++ t) ≡ (lacks d s && lacks d t)
lacks-append d Str.[] t = rw nil-append refl
lacks-append d (Str.◌∷◌ c s) t = rw cons-append (ground (arith, lacks-append d s t))

lacks-digit :
    (d n : ℕ) (ds : List String) → all (λ s. lacks d s) ds ≡ true → lacks d (digit_at n ds) ≡ true
lacks-digit d n [] h = refl
lacks-digit d zero (s ∷ ds) h = ground arith
lacks-digit d (suc n) (s ∷ ds) h = lacks-digit d n ds (ground arith)

-- A character that the escapes do not use themselves.
abbrev IsForeign : ℕ → Type 0
IsForeign d = (lacks d "%" ≡ true) × (all (λ s. lacks d s) hex_digits ≡ true)

lacks-escape : (d : ℕ) (bs : List ℕ) → IsForeign d → lacks d (escape_bytes bs) ≡ true
lacks-escape d [] h = refl
lacks-escape d (b ∷ bs) (percent, digits) =
    rw
      (
        lacks-append d (escape_byte b) (escape_bytes bs),
        lacks-append d "%" (digit_at (b / 16) hex_digits +++ digit_at (b % 16) hex_digits),
        lacks-append d (digit_at (b / 16) hex_digits) (digit_at (b % 16) hex_digits),
        percent,
        lacks-digit d (b / 16) hex_digits digits,
        lacks-digit d (b % 16) hex_digits digits,
        lacks-escape d bs (percent, digits),
      )
      refl

lacks-encode_char :
    (d : ℕ) (c : Char) → IsForeign d → is_escaped d ≡ true → lacks d (encode_char c) ≡ true
lacks-encode_char d c foreign escaped = elim (Bool-cases (is_escaped (code c))) [
  | inl yes' ↦ rw yes' (lacks-escape d (bytes (Str.◌∷◌ c "")) foreign)
  | inr no' ↦ elim (Bool-cases (eqb (code c) d)) [
    | inl same ↦
        let e : code c ≡ d = ground arith in
        let clash : true ≡ false = sym escaped ∙ (ap is_escaped (sym e) ∙ no') in cc
    | inr other ↦ rw no' (ground arith)
  ]
]

lacks-encode :
    (d : ℕ) (s : String) → IsForeign d → is_escaped d ≡ true → lacks d (encode_segment s) ≡ true
lacks-encode d Str.[] foreign escaped = refl
lacks-encode d (Str.◌∷◌ c s) foreign escaped =
    rw
      (
        lacks-append d (encode_char c) (encode_segment s),
        lacks-encode_char d c foreign escaped,
        lacks-encode d s foreign escaped,
      )
      refl

abbrev percent : Char
percent = Str.char_at "%" 0

escape-cons :
    (b : ℕ) (bs : List ℕ) (rest : String)
    → (t : String) × (escape_bytes (b ∷ bs) +++ rest ≡ Str.◌∷◌ percent t)
escape-cons b bs rest =
    let digits = digit_at (b / 16) hex_digits +++ digit_at (b % 16) hex_digits in
    (
      (((Str.[] +++ digits) +++ escape_bytes bs) +++ rest),
      rw
          (
            cons-append percent Str.[] digits,
            cons-append percent (Str.[] +++ digits) (escape_bytes bs),
            cons-append percent ((Str.[] +++ digits) +++ escape_bytes bs) rest,
          )
          refl,
    )

bytes-cons : (c : Char) → (b : ℕ) × (bs : List ℕ) × (bytes (Str.◌∷◌ c "") ≡ b ∷ bs)
unfolding bytes
bytes-cons c = by_list (bytes (Str.◌∷◌ c "")) refl
  where
    by_list :
        (l : List ℕ)
        → bytes (Str.◌∷◌ c "") ≡ l
        → (b : ℕ) × (bs : List ℕ) × (bytes (Str.◌∷◌ c "") ≡ b ∷ bs)
    by_list [] e = absurd (nil≢cons (sym (bytes_inj (Str.◌∷◌ c "") "" e)))
    by_list (b ∷ bs) e = (b, bs, e)

-- A text that begins with another character than the escapes begins with it unencoded.
encode-head :
    (c d : Char) (rest t : String)
    → encode_char c +++ rest ≡ Str.◌∷◌ d t
    → eqb (code percent) (code d) ≡ false
    → (c ≡ d) × (rest ≡ t)
encode-head c d rest t e other = elim (Bool-cases (is_escaped (code c))) [
  | inl yes' ↦
      let (b, bs, shape) = bytes-cons c in
      let (u, starts) = escape-cons b bs rest in
      let e' : escape_bytes (bytes (Str.◌∷◌ c "")) +++ rest ≡ Str.◌∷◌ d t =
        subst
          (λ x.
            (if x then escape_bytes (bytes (Str.◌∷◌ c "")) else Str.◌∷◌ c "") +++ rest
            ≡ Str.◌∷◌ d t)
          yes' e in
      let e'' : escape_bytes (b ∷ bs) +++ rest ≡ Str.◌∷◌ d t =
        subst (λ l. escape_bytes l +++ rest ≡ Str.◌∷◌ d t) shape e' in
      let same : code percent ≡ code d = ap code (head-eq_of_cons-eq (sym starts ∙ e'')) in
      absurd (ground arith)
  | inr no' ↦
      let e' : Str.◌∷◌ c "" +++ rest ≡ Str.◌∷◌ d t =
        subst
          (λ x.
            (if x then escape_bytes (bytes (Str.◌∷◌ c "")) else Str.◌∷◌ c "") +++ rest
            ≡ Str.◌∷◌ d t)
          no' e in
      let e'' : Str.◌∷◌ c ("" +++ rest) ≡ Str.◌∷◌ d t = sym (cons-append c "" rest) ∙ e' in
      (head-eq_of_cons-eq e'', sym (nil-append rest) ∙ tail-eq_of_cons-eq e'')
]

encode-cons-ne : (c : Char) (rest : String) → encode_char c +++ rest ≢ ""
encode-cons-ne c rest e = elim (Bool-cases (is_escaped (code c))) [
  | inl yes' ↦
      let (b, bs, shape) = bytes-cons c in
      let (u, starts) = escape-cons b bs rest in
      let whole : escape_bytes (b ∷ bs) +++ rest ≡ "" =
        subst (λ l. escape_bytes l +++ rest ≡ "") shape
          (subst
            (λ x. (if x then escape_bytes (bytes (Str.◌∷◌ c "")) else Str.◌∷◌ c "") +++ rest ≡ "")
            yes' e) in
      absurd (nil≢cons (sym whole ∙ starts))
  | inr no' ↦
      let whole : Str.◌∷◌ c "" +++ rest ≡ "" =
        subst (λ x. (if x then escape_bytes (bytes (Str.◌∷◌ c "")) else Str.◌∷◌ c "") +++ rest ≡ "")
          no' e in
      absurd (nil≢cons (sym whole ∙ cons-append c "" rest))
]

encode-nil : (s : String) → encode_segment s ≡ "" → s ≡ ""
encode-nil Str.[] e = refl
encode-nil (Str.◌∷◌ c s) e = absurd (encode-cons-ne c (encode_segment s) e)

abbrev dot : Char
dot = Str.char_at "." 0

encode-dots :
    (d : Char) (t s : String)
    → eqb (code percent) (code d) ≡ false
    → ((u : String) → encode_segment u ≡ t → u ≡ t)
    → encode_segment s ≡ Str.◌∷◌ d t
    → s ≡ Str.◌∷◌ d t
encode-dots d t Str.[] other rest e = absurd (nil≢cons e)
encode-dots d t (Str.◌∷◌ c s) other rest e =
    let (same, more) = encode-head c d (encode_segment s) t e other in
    ap₂ {A = Char} {B = String} Str.◌∷◌ same (rest s more)

one_dot : (s : String) → encode_segment s ≡ "." → s ≡ "."
one_dot s e = encode-dots dot "" s refl encode-nil e

two_dots : (s : String) → encode_segment s ≡ ".." → s ≡ ".."
two_dots s e = encode-dots dot "." s refl one_dot e

-- What is put into a path for an accepted value of a placeholder holds no slash, no question mark, no number
-- sign and no backslash; a server that resolves its percent escapes reads back the bytes of the value,
-- neither more nor less; and it is no dot segment, be it as it stands or with its escapes resolved.
pub path_value-safe :
    (name value text : String)
    → path_value name value ≡ ok text
    → ((lacks b'/' text ≡ true)
        × (lacks b'?' text ≡ true)
        × (lacks b'#' text ≡ true)
        × (lacks 0x5c text ≡ true))
      × ((text ≢ ".") × (text ≢ ".."))
      × ((percent_decode outside text ≡ bytes value)
          × (percent_decode outside text ≢ bytes ".")
          × (percent_decode outside text ≢ bytes ".."))
unfolding path_value
path_value-safe name value text accepted = elim (Bool-cases (value == "." || (value == ".."))) [
  | inl dots ↦ absurd (ground arith)
  | inr plain ↦
      let made : encode_segment value ≡ text = ground arith in
      rw (← made) (
        (
          lacks-encode b'/' value (refl, refl) refl,
          lacks-encode b'?' value (refl, refl) refl,
          lacks-encode b'#' value (refl, refl) refl,
          lacks-encode 0x5c value (refl, refl) refl,
        ),
        (
          (λ e. clash (one_dot value e) (ground arith)),
          λ e. clash (two_dots value e) (ground arith),
        ),
        (
          decode-encode_segment value,
          (λ e. clash (bytes_inj value "." (sym (decode-encode_segment value) ∙ e)) (ground arith)),
          λ e. clash (bytes_inj value ".." (sym (decode-encode_segment value) ∙ e)) (ground arith),
        ),
      )
]
  where
    clash : {t : String} → value ≡ t → (value == t) ≡ false → ⊥
    clash {t} e ne = let same : (value == t) ≡ true = (eq_iff value t).1 e in ground arith
