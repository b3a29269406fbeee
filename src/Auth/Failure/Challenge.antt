-- ===== src/Auth/Failure/Challenge.antt =====
-- What reaches a `WWW-Authenticate` header.
use Prim.Native.String as Str
use Prim.Native.String.{count}
use text.Mathlib.TextLemmas.{length-cons, length-nil}
use mcp_gatehound.Base.{
  ℕ, zero, suc, ◌≤◌, String, true, ◌≡◌, refl, arith, all_chars, Bool-cases, inl, inr,
}
use mcp_gatehound.Auth.Failure.{is_quotable, keep_quotable, quoted}

keep_quotable-quotable : (n : ℕ) (s : String) → all_chars is_quotable (keep_quotable n s) ≡ true
unfolding keep_quotable
keep_quotable-quotable zero s = refl
keep_quotable-quotable (suc n) Str.[] = refl
keep_quotable-quotable (suc n) (Str.◌∷◌ c s) = elim (Bool-cases (is_quotable c)) [
  | inl fine ↦ rw fine (ground (arith, keep_quotable-quotable n s))
  | inr bad ↦ rw bad (keep_quotable-quotable (suc n) s)
]

keep_quotable-count : (n : ℕ) (s : String) → count (keep_quotable n s) ≤ n
unfolding keep_quotable
keep_quotable-count zero s = rw length-nil (omega arith)
keep_quotable-count (suc n) Str.[] = rw length-nil (omega arith)
keep_quotable-count (suc n) (Str.◌∷◌ c s) = elim (Bool-cases (is_quotable c)) [
  | inl fine ↦ rw (fine, length-cons) (omega (arith, keep_quotable-count n s))
  | inr bad ↦ rw bad (keep_quotable-count (suc n) s)
]

-- Whatever text goes into a challenge, what comes out is at most 180 characters, each printable ASCII
-- and neither a quote nor a backslash, so it cannot end its quoted string or the header.
pub quoted_safe :
    (value : String) → (all_chars is_quotable (quoted value) ≡ true) × (count (quoted value) ≤ 180)
unfolding quoted
quoted_safe value = (keep_quotable-quotable 180 value, keep_quotable-count 180 value)
