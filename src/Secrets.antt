-- ===== src/Secrets.antt =====
-- Comparisons in constant time: `eq_ct` of crates/gatehound-core/src/tokens.rs and `eq_secret` of
-- crates/gatehound-core/src/auth.rs. The accumulator is a byte: or and exclusive or of bytes are bytes.
use mcp_gatehound.Base.{
  ℕ, String, Bool, true, false, List, [], ◌∷◌, ◌≡◌, ◌↔◌, refl, ap, arith, length, eqb, not, bytes,
  bytes_inj, bit_or, bit_xor, bit_or-eq-zero_iff, bit_xor-eq-zero_iff, if◌then◌else◌,
}

-- `a.iter().zip(b).fold(acc, |acc, (x, y)| acc | (x ^ y))`
differences : ℕ → List ℕ → List ℕ → ℕ
differences acc [] bs = acc
differences acc (a ∷ as') [] = acc
differences acc (a ∷ as') (b ∷ bs) = differences (bit_or acc (bit_xor a b)) as' bs

unfoldable pub eq_ct : List ℕ → List ℕ → Bool
unfolding differences
eq_ct a b = if not (eqb (length a) (length b)) then false else eqb (differences 0 a b) 0

unfoldable pub eq_secret : String → String → Bool
unfolding differences
eq_secret a b =
    if not (eqb (length (bytes a)) (length (bytes b)))
    then false
    else eqb (differences 0 (bytes a) (bytes b)) 0

differences_sound :
    (acc : ℕ) (as' bs : List ℕ)
    → length as' ≡ length bs
    → differences acc as' bs ≡ 0
    → (acc ≡ 0) × (as' ≡ bs)
unfolding differences
differences_sound acc [] [] n e = (e, refl)
differences_sound acc [] (b ∷ bs) n e = absurd (omega arith)
differences_sound acc (a ∷ as') [] n e = absurd (omega arith)
differences_sound acc (a ∷ as') (b ∷ bs) n e =
    let ih = differences_sound (bit_or acc (bit_xor a b)) as' bs (omega arith) e in
    let both = (bit_or-eq-zero_iff acc (bit_xor a b)).0 ih.0 in
    let head = (bit_xor-eq-zero_iff a b).0 both.1 in (both.0, ground (arith, head, ih.1))

differences_same : (as' : List ℕ) → differences 0 as' as' ≡ 0
unfolding differences
differences_same [] = refl
differences_same (a ∷ as') =
    let none' = (bit_or-eq-zero_iff 0 (bit_xor a a)).1 (refl, (bit_xor-eq-zero_iff a a).1 refl) in
    rw none' (differences_same as')

eq_ct_iff : (a b : List ℕ) → (eq_ct a b ≡ true) ↔ (a ≡ b)
unfolding eq_ct
eq_ct_iff a b = (
  (λ e. (differences_sound 0 a b (ground arith) (ground arith)).1),
  λ e. rw e (ground (arith, differences_same b)),
)

-- The comparison decides whether two secrets are the same text.
pub eq_secret_iff : (a b : String) → (eq_secret a b ≡ true) ↔ (a ≡ b)
unfolding eq_secret
eq_secret_iff a b = (
  (λ e. bytes_inj a b ((differences_sound 0 (bytes a) (bytes b) (ground arith) (ground arith)).1)),
  λ e. rw e (ground (arith, differences_same (bytes b))),
)

pub eq_ct-bytes_iff : (s t : String) → (eq_ct (bytes s) (bytes t) ≡ true) ↔ (s ≡ t)
eq_ct-bytes_iff s t = (
  (λ e. bytes_inj s t ((eq_ct_iff (bytes s) (bytes t)).0 e)),
  λ e. (eq_ct_iff (bytes s) (bytes t)).1 (ap bytes e),
)
