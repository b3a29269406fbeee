-- ===== src/Scripts/Files/Contained.antt =====
-- Where a script's file can be.
use mathlib.Core.Path.{ap₂}
use mcp_gatehound.Base.{
  String, Bool, true, false, not, Option, some, none, List, [], ◌∷◌, ◌++◌, ◌==◌, ◌≡◌, refl, sym, ap,
  ◌∙◌, ok, append_assoc, >>=-eq-ok, guard-eq-ok, or_fail, or_fail-eq-ok, guard, any, Bool-cases,
  inl, inr, arith, eq_iff,
}
use mcp_gatehound.Scripts.{climbs, unresolved, outside}
use mcp_gatehound.Scripts.Files.{
  FilePath, join, starts_with, split_last, named_in, placed, contained,
}

starts_with_sound :
    (ps qs : List String) → starts_with ps qs ≡ true → (rest : List String) × (ps ≡ qs ++ rest)
starts_with_sound ps [] h = (ps, refl)
starts_with_sound [] (q ∷ qs) h = cc
starts_with_sound (p ∷ ps) (q ∷ qs) h = elim (Bool-cases (q == p)) [
  | inr other ↦ absurd (ground arith)
  | inl same ↦
      let (rest, e) = starts_with_sound ps qs (ground arith) in
      (rest, ap₂ (λ x xs. x ∷ xs) (sym ((eq_iff q p).0 same)) e)
]

-- What stands below the real path of a directory, and is named in it.
abbrev pub Below : (FilePath → Option (List String)) → FilePath → List String → Type 0
Below canonical base path =
    (real : List String) × (inner : List String) × (name : String) × (canonical base ≡ some real)
    × (path ≡ real ++ (inner ++ name ∷ []))
    × ((name == "..") ≡ false)

named_in_sound :
    (parent : List String) (name : String) (path : List String)
    → named_in parent name ≡ ok path
    → (path ≡ parent ++ name ∷ []) × ((name == "..") ≡ false)
named_in_sound parent name path h = elim (Bool-cases (name == "..")) [
  | inl up ↦ absurd (ground arith)
  | inr fine ↦ (sym (ground arith), fine)
]

placed_sound :
    (canonical : FilePath → Option (List String)) (base : FilePath) (absolute : Bool)
    (o : Option (List String × String)) (path : List String)
    → placed canonical base absolute o ≡ ok path
    → Below canonical base path
placed_sound canonical base absolute none path h = cc
placed_sound canonical base absolute (some (front, name)) path h =
    let parent = or_fail (canonical (record { absolute = absolute; parts = front })) unresolved in
    let (real_parent, found, h1) = >>=-eq-ok parent _ h in
    let (real, there, h2) = >>=-eq-ok (or_fail (canonical base) unresolved) _ h1 in
    let (u, inside, h3) = >>=-eq-ok (guard (starts_with real_parent real) outside) _ h2 in
    let (inner, below) = starts_with_sound real_parent real (guard-eq-ok _ _ inside) in
    let (named, fine) = named_in_sound real_parent name path h3 in
    (
      real,
      inner,
      name,
      or_fail-eq-ok (canonical base) unresolved there,
      joined real_parent real inner named below,
      fine,
    )
  where
    joined :
        (real_parent real inner : List String)
        → path ≡ real_parent ++ name ∷ []
        → real_parent ≡ real ++ inner
        → path ≡ real ++ (inner ++ name ∷ [])
    joined real_parent real inner named below =
        named ∙ (ap (λ ps. ps ++ name ∷ []) below ∙ append_assoc real inner (name ∷ []))

-- A path that is accepted against a directory lies below the real path of that directory, whatever links stand
-- on the way to its parent, and its last part is no step up. Whether that last part is a link itself is not
-- looked at.
pub contained-Below :
    (canonical : FilePath → Option (List String)) (base candidate : FilePath) (path : List String)
    → contained canonical base candidate ≡ ok path
    → Below canonical base path
unfolding contained
contained-Below canonical base candidate path h =
    let (u, flat, h1) = >>=-eq-ok (guard (not (any (λ p. p == "..") candidate.parts)) climbs) _ h in
    placed_sound canonical base (join base candidate).absolute
      (split_last (join base candidate).parts) path h1
