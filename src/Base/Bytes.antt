-- ===== src/Base/Bytes.antt =====
-- The UTF-8 of a text: Rust's `s.as_bytes()`.
use Prim.Native.Nat.{ℕ, ◌+◌, ◌/◌, ◌%◌}
use Prim.Native.Char.{code}
use Prim.Native.String.{String, [], ◌∷◌}
use mathlib.Core.Path.{◌≡◌, refl, sym, ap₂}
use mathlib.Core.List.{List, ◌++◌}
use native.Mathlib.Omega.{arith}
use text.Mathlib.TextEquality.{Char-path}
use mcp_gatehound.Base.Tests.{ltb, if◌then◌else◌}

abbrev single : ℕ → List ℕ
single n = List.◌∷◌ n List.[]

abbrev pub encode : ℕ → List ℕ
encode c =
    if ltb c 128
    then single c
    else if ltb c 2048
    then List.◌∷◌ (192 + c / 64) (single (128 + c % 64))
    else if ltb c 65536
    then List.◌∷◌ (224 + c / 4096) (List.◌∷◌ (128 + c / 64 % 64) (single (128 + c % 64)))
    else List.◌∷◌ (240 + c / 262144)
        (List.◌∷◌ (128 + c / 4096 % 64) (List.◌∷◌ (128 + c / 64 % 64) (single (128 + c % 64))))

unfoldable pub bytes : String → List ℕ
bytes [] = List.[]
bytes (c ∷ s) = encode (code c) ++ bytes s

-- Its first byte tells how many bytes a character takes.
encode_inj : (c d : ℕ) (xs ys : List ℕ) → encode c ++ xs ≡ encode d ++ ys → (c ≡ d) × (xs ≡ ys)
encode_inj c d xs ys e = ground arith

-- No character's bytes are none.
bytes-cons-ne : (c : ℕ) (xs : List ℕ) → encode c ++ xs ≡ List.[] → ⊥
bytes-cons-ne c xs e = ground arith

-- Two texts with the same bytes are the same.
pub bytes_inj : (s t : String) → bytes s ≡ bytes t → s ≡ t
unfolding bytes
bytes_inj [] [] e = refl
bytes_inj [] (d ∷ t) e = absurd (bytes-cons-ne (code d) (bytes t) (sym e))
bytes_inj (c ∷ s) [] e = absurd (bytes-cons-ne (code c) (bytes s) e)
bytes_inj (c ∷ s) (d ∷ t) e =
    let same = encode_inj (code c) (code d) (bytes s) (bytes t) e in
    ap₂ ◌∷◌ (Char-path c d same.0) (bytes_inj s t same.1)
