-- ===== src/Base/Texts.antt =====
-- Texts are native strings. `s.trim()`, `to_ascii_lowercase` and the like, over characters.
use Prim.Native.Nat.{ℕ, zero, suc, ◌-◌, ◌/◌, ◌%◌}
use Prim.Native.Char.{Char, code}
use Prim.Native.String.{String, [], ◌∷◌, ◌++◌, char_at}
use mathlib.Core.Bool.{Bool, true, false, not, ◌&&◌, ◌||◌}
use mathlib.Core.List.{List}
use mathlib.Core.Option.{Option, none, some}
use mathlib.Core.Path.{◌≡◌, refl, sym, ap, ap₂, ◌∙◌}
use mathlib.Core.Logic.{◌↔◌, inl, inr}
use text.Mathlib.Text.{◌==◌}
use native.Mathlib.Omega.{arith}
use text.Mathlib.TextEquality.{Char-path}
use text.Mathlib.TextLemmas.{
  nil-append, cons-append, nil≢cons, head-eq_of_cons-eq, tail-eq_of_cons-eq,
}
use mcp_gatehound.Base.Tests.{ltb, leb, eqb, if◌then◌else◌, Bool-cases, Option-cases, is_some}

abbrev pub is_empty : String → Bool
is_empty [] = true
is_empty (c ∷ s) = false

-- `c.is_ascii_digit()`, `is_ascii_alphanumeric()`
abbrev pub is_digit : Char → Bool
is_digit c = leb b'0' (code c) && leb (code c) b'9'

-- `s.bytes().all(..)`, where the test holds of ASCII characters only
abbrev pub all_chars : (Char → Bool) → String → Bool
all_chars p [] = true
all_chars p (c ∷ s) = p c && all_chars p s

abbrev pub any_char : (Char → Bool) → String → Bool
any_char p [] = false
any_char p (c ∷ s) = p c || any_char p s

-- `s.strip_prefix(p)`
abbrev pub strip_prefix : String → String → Option String
strip_prefix [] s = some s
strip_prefix (d ∷ p) [] = none
strip_prefix (d ∷ p) (c ∷ s) = if eqb (code d) (code c) then strip_prefix p s else none

-- `s.strip_suffix(t)`
abbrev pub strip_suffix : String → String → Option String
strip_suffix t [] = if is_empty t then some [] else none
strip_suffix t (c ∷ s) =
    let rest = strip_suffix t s in
    if t == c ∷ s then some [] else elim rest [ none ↦ none | some r ↦ some (c ∷ r) ]

abbrev pub cons_left : Char → Option (String × String) → Option (String × String)
cons_left c none = none
cons_left c (some (a, b)) = some (c ∷ a, b)

-- `s.split_once(d)`: what stands before and behind the first `d`
abbrev pub split_once : ℕ → String → Option (String × String)
split_once d [] = none
split_once d (c ∷ s) =
    let rest = cons_left c (split_once d s) in if eqb (code c) d then some ([], s) else rest

-- A text without a character.
abbrev pub lacks : ℕ → String → Bool
lacks d [] = true
lacks d (c ∷ s) = not (eqb (code c) d) && lacks d s

-- `c.is_whitespace()`: Unicode's White_Space
abbrev pub is_space : Char → Bool
is_space c =
    let n = code c in
    eqb n 0x20
    || (leb 0x9 n && leb n 0xd)
    || eqb n 0x85
    || eqb n 0xa0
    || eqb n 0x1680
    || (leb 0x2000 n && leb n 0x200a)
    || eqb n 0x2028
    || eqb n 0x2029
    || eqb n 0x202f
    || eqb n 0x205f
    || eqb n 0x3000

-- The two halves of `s.trim()`.
abbrev pub trim_start : String → String
trim_start [] = []
trim_start (c ∷ s) = let rest = trim_start s in if is_space c then rest else c ∷ s

-- What stands before the trailing whitespace.
abbrev pub trim_end : String → String
trim_end [] = []
trim_end (c ∷ s) =
    let rest = trim_end s in
    elim rest [ [] ↦ (if is_space c then [] else c ∷ []) | d ∷ r ↦ c ∷ d ∷ r ]

abbrev pub trim : String → String
trim s = trim_end (trim_start s)

pub strip_prefix_iff : (p s r : String) → (strip_prefix p s ≡ some r) ↔ (s ≡ p ++ r)
strip_prefix_iff [] s r = ((λ e. rw nil-append (ground arith)), λ e. rw e (rw nil-append refl))
strip_prefix_iff (d ∷ p) [] r = ((λ e. cc), λ e. absurd (nil≢cons (e ∙ cons-append d p r)))
strip_prefix_iff (d ∷ p) (c ∷ s) r = elim (Bool-cases (eqb (code d) (code c))) [
  | inl same ↦
      let ih = strip_prefix_iff p s r in
      rw same (
        (λ e. ap₂ ◌∷◌ (sym (Char-path d c (ground arith))) (ih.0 e) ∙ sym (cons-append d p r)),
        λ e. ih.1 (tail-eq_of_cons-eq (e ∙ cons-append d p r)),
      )
  | inr other ↦ rw other (
    (λ e. cc),
    λ e. let h = ap code (head-eq_of_cons-eq (e ∙ cons-append d p r)) in absurd (ground arith),
  )
]

split_once_sound :
    (d : Char) (s a b : String)
    → split_once (code d) s ≡ some (a, b)
    → (s ≡ a ++ (d ∷ b)) × (lacks (code d) a ≡ true)
split_once_sound d [] a b e = cc
split_once_sound d (c ∷ s) a b e = elim (Bool-cases (eqb (code c) (code d))) [
  | inl same ↦
      let parts : (◌≡◌ {A = String} [] a) × (s ≡ b) = (ground arith, ground arith) in
      rw (← parts.0, ← parts.1, nil-append)
        (ap₂ {A = Char} {B = String} ◌∷◌ (Char-path c d (ground arith)) refl, refl)
  | inr other ↦ elim (Option-cases (split_once (code d) s)) [
    | inl stuck ↦ absurd (ground arith)
    | inr ((a', b'), found) ↦
        let ih = split_once_sound d s a' b' found in
        let parts : (c ∷ a' ≡ a) × (b' ≡ b) = (ground arith, ground arith) in
        rw (← parts.0, ← parts.1, cons-append) (ap (λ t. c ∷ t) ih.0, ground (arith, ih.1))
  ]
]

split_once_complete :
    (d : Char) (a b : String)
    → lacks (code d) a ≡ true
    → split_once (code d) (a ++ (d ∷ b)) ≡ some (a, b)
split_once_complete d [] b h = rw nil-append (ground arith)
split_once_complete d (c ∷ a) b h = rw cons-append (ground (arith, split_once_complete d a b))

-- A text splits at its first `d`.
pub split_once_iff :
    (d : Char) (s a b : String)
    → (split_once (code d) s ≡ some (a, b)) ↔ ((s ≡ a ++ (d ∷ b)) × (lacks (code d) a ≡ true))
split_once_iff d s a b = (split_once_sound d s a b, λ h. rw h.0 (split_once_complete d a b h.1))

-- `s.to_ascii_lowercase()`
abbrev pub lower_char : Char → Char
lower_char c =
    if leb b'A' (code c) && leb (code c) b'Z'
    then char_at "abcdefghijklmnopqrstuvwxyz" (code c - b'A')
    else c

abbrev pub to_ascii_lowercase : String → String
to_ascii_lowercase [] = []
to_ascii_lowercase (c ∷ s) = lower_char c ∷ to_ascii_lowercase s

-- `n.to_string()` of a number below 2 ^ 64, which has 20 digits at most.
abbrev digit : ℕ → Char
digit d = char_at "0123456789" d

abbrev digits : ℕ → ℕ → String → String
digits zero n tail = tail
digits (suc fuel) n tail =
    let shown = digit (n % 10) ∷ tail in
    let rest = digits fuel (n / 10) shown in if ltb n 10 then shown else rest

abbrev pub decimal : ℕ → String
decimal n = digits 20 n []

-- `s.chars().take(n).collect()`, `s.chars().count()`
abbrev pub take_chars : ℕ → String → String
take_chars zero s = []
take_chars (suc n) [] = []
take_chars (suc n) (c ∷ s) = c ∷ take_chars n s

abbrev pub count_chars : String → ℕ
count_chars [] = 0
count_chars (c ∷ s) = suc (count_chars s)

-- `s.contains(needle)`
abbrev pub contains_text : String → String → Bool
contains_text needle [] = is_some (strip_prefix needle [])
contains_text needle (c ∷ s) =
    let here = is_some (strip_prefix needle (c ∷ s)) in here || contains_text needle s

-- `s.split(d)`, with the part read so far
abbrev pub split_from : ℕ → String → String → List String
split_from d part [] = List.◌∷◌ part List.[]
split_from d part (c ∷ s) =
    let closed = List.◌∷◌ part (split_from d [] s) in
    let longer = split_from d (part ++ (c ∷ [])) s in if eqb (code c) d then closed else longer

-- `s.lines()`: the parts between line feeds, each without a carriage return at its end; nothing stands
-- behind the last line feed.
abbrev without_cr : String → String
without_cr s = elim (strip_suffix (char_at "\r" 0 ∷ []) s) [ none ↦ s | some r ↦ r ]

abbrev lines_among : List String → List String
lines_among List.[] = List.[]
lines_among (List.◌∷◌ part List.[]) = if is_empty part then List.[] else List.◌∷◌ part List.[]
lines_among (List.◌∷◌ part (List.◌∷◌ next rest)) =
    List.◌∷◌ (without_cr part) (lines_among (List.◌∷◌ next rest))

abbrev pub lines : String → List String
lines s = lines_among (split_from b'\n' [] s)

-- `s.rsplit(d).next()`: what stands behind the last `d`
abbrev last_of : String → List String → String
last_of s List.[] = s
last_of s (List.◌∷◌ p ps) = last_of p ps

abbrev pub behind_last : ℕ → String → String
behind_last d s = last_of s (split_from d [] s)

-- `s.trim_end_matches(d)`, `s.trim_start_matches(p)` for a text that is not empty
abbrev pub trim_end_matches : ℕ → String → String
trim_end_matches d [] = []
trim_end_matches d (c ∷ s) =
    let rest = trim_end_matches d s in
    elim rest [ [] ↦ (if eqb (code c) d then [] else c ∷ []) | e ∷ r ↦ c ∷ e ∷ r ]
