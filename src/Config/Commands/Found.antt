-- ===== src/Config/Commands/Found.antt =====
-- Where a command is found.
use mcp_gatehound.Base.{
  same_texts, String, Bool, true, false, not, ◌&&◌, ◌||◌, Option, some, none, List, [], ◌∷◌, ◌++◌,
  ◌≡◌, refl, ◌∙◌, any, All-map, find, map, All, All-append, Distinct, Distinct-append, or_fail,
  lacks, trim, arith, Bool-cases, inl, inr,
}
use mcp_gatehound.Scripts.Files.{FilePath, path_of, join, same_parts, split_last}
use mcp_gatehound.Config.Commands.{
  same_path, bin_dirs, fixed_dirs, or_no_dirs, of_home, spellings, found_more, found_in, base_of,
  find_command_in, not_on_path, on_path, resolve_command,
}

same_parts_refl : (ps : List String) → same_parts ps ps ≡ true
same_parts_refl [] = refl
same_parts_refl (p ∷ ps) = grind (same_texts, same_parts_refl ps)

pub same_path_refl : (p : FilePath) → same_path p p ≡ true
same_path_refl p = ground (arith, same_parts_refl p.parts)

any-more {ℓ} :
    {A : Type ℓ} (p : A → Bool) (xs : List A) (y : A)
    → any p xs ≡ true
    → any p (xs ++ y ∷ []) ≡ true
any-more p [] y h = cc
any-more p (x ∷ xs) y h = ground (arith, any-more p xs y)

any-last {ℓ} :
    {A : Type ℓ} (p : A → Bool) (xs : List A) (y : A) → p y ≡ true → any p (xs ++ y ∷ []) ≡ true
any-last p [] y h = ground arith
any-last p (x ∷ xs) y h = ground (arith, any-last p xs y)

same_parts_comm : (ps qs : List String) → same_parts ps qs ≡ same_parts qs ps
same_parts_comm [] [] = refl
same_parts_comm [] (q ∷ qs) = refl
same_parts_comm (p ∷ ps) [] = refl
same_parts_comm (p ∷ ps) (q ∷ qs) = grind (same_texts, same_parts_comm ps qs)

same_path_comm : (a b : FilePath) → same_path a b ≡ same_path b a
same_path_comm a b = ground (arith, same_parts_comm a.parts b.parts)

any-same_path :
    (y : FilePath) (xs : List FilePath) → any (λ x. same_path x y) xs ≡ any (same_path y) xs
any-same_path y [] = refl
any-same_path y (x ∷ xs) = ground (arith, same_path_comm x y, any-same_path y xs)

abbrev pub first_of_all {ℓ} : {A : Type ℓ} → List A → Option A
first_of_all [] = none
first_of_all (x ∷ xs) = some x

module _ (is_file : FilePath → Bool) (base : String) (all_dirs : List FilePath) where
  abbrev spot : FilePath → FilePath
  spot dir = join dir (path_of base)

  -- Each is a file of that name in one of the directories, and none stands twice.
  abbrev Sound : List FilePath → Type 0
  Sound out =
      All (λ p. (is_file p ≡ true) × (any (λ d. same_path (spot d) p) all_dirs ≡ true)) out
      × Distinct same_path out

  found_more-Sound :
      (dir : FilePath) (out : List FilePath)
      → any (λ d. same_path (spot d) (spot dir)) all_dirs ≡ true
      → Sound out
      → Sound (found_more is_file (spot dir) out)
  found_more-Sound dir out listed (each, apart) =
      elim (Bool-cases (is_file (spot dir) && not (any (same_path (spot dir)) out))) [
        | inr no' ↦ rw no' (each, apart)
        | inl yes' ↦ rw yes' (
          All-append _ out (spot dir ∷ []) each ((ground arith, listed), tt),
          Distinct-append same_path out (spot dir) apart
              (any-same_path (spot dir) out ∙ ground arith),
        )
      ]

  found_more-keeps :
      (q c : FilePath) (out : List FilePath)
      → any (same_path q) out ≡ true
      → any (same_path q) (found_more is_file c out) ≡ true
  found_more-keeps q c out h = elim (Bool-cases (is_file c && not (any (same_path c) out))) [
    | inr no' ↦ rw no' h
    | inl yes' ↦ rw yes' (any-more (same_path q) out c h)
  ]

  found_more-finds :
      (c : FilePath) (out : List FilePath)
      → (not (is_file c) || any (same_path c) (found_more is_file c out)) ≡ true
  found_more-finds c out = elim (Bool-cases (is_file c)) [
    | inr no' ↦ rw no' refl
    | inl yes' ↦ elim (Bool-cases (any (same_path c) out)) [
      | inl old ↦ ground (arith, found_more-keeps c c out old)
      | inr new' ↦ rw (yes', new') (any-last (same_path c) out c (same_path_refl c))
    ]
  ]

  found_in-keeps :
      (q : FilePath) (dirs out : List FilePath)
      → any (same_path q) out ≡ true
      → any (same_path q) (found_in is_file base dirs out) ≡ true
  unfolding spellings
  found_in-keeps q [] out h = h
  found_in-keeps q (d ∷ dirs) out h =
      found_in-keeps q dirs (found_more is_file (spot d) out) (found_more-keeps q (spot d) out h)

  found_in-Sound :
      (dirs out : List FilePath)
      → All (λ dir. any (λ d. same_path (spot d) (spot dir)) all_dirs ≡ true) dirs
      → Sound out
      → Sound (found_in is_file base dirs out)
  unfolding spellings
  found_in-Sound [] out listed h = h
  found_in-Sound (d ∷ dirs) out (here, listed) h =
      found_in-Sound dirs (found_more is_file (spot d) out) listed (found_more-Sound d out here h)

  -- Wherever there is such a file, it is in the list.
  found_in-finds :
      (dirs out : List FilePath)
      → All
          (λ d.
            (not (is_file (spot d)) || any (same_path (spot d)) (found_in is_file base dirs out))
            ≡ true)
          dirs
  unfolding spellings
  found_in-finds [] out = tt
  found_in-finds (d ∷ dirs) out = (
    ground (
      arith,
      found_more-finds (spot d) out,
      found_in-keeps (spot d) dirs (found_more is_file (spot d) out),
    ),
    found_in-finds dirs (found_more is_file (spot d) out),
  )

  found_in-head :
      (dirs : List FilePath) (p : FilePath) (out : List FilePath)
      → first_of_all (found_in is_file base dirs (p ∷ out)) ≡ some p
  unfolding spellings
  found_in-head [] p out = refl
  found_in-head (d ∷ dirs) p out =
      elim (Bool-cases (is_file (spot d) && not (any (same_path (spot d)) (p ∷ out)))) [
        | inl yes' ↦ rw yes' (found_in-head dirs p (out ++ spot d ∷ []))
        | inr no' ↦ rw no' (found_in-head dirs p out)
      ]

  found_in-first :
      (dirs : List FilePath)
      → first_of_all (found_in is_file base dirs []) ≡ find is_file (map spot dirs)
  unfolding spellings
  found_in-first [] = refl
  found_in-first (d ∷ dirs) = elim (Bool-cases (is_file (spot d))) [
    | inl yes' ↦ rw yes' (found_in-head dirs (spot d) [])
    | inr no' ↦ rw no' (found_in-first dirs)
  ]

  all_listed :
      (dirs : List FilePath)
      → All (λ dir. any (λ d. same_path (spot d) (spot dir)) dirs ≡ true) dirs
  all_listed [] = tt
  all_listed (d ∷ dirs) = (
    ground (arith, same_path_refl (spot d)),
    All-map _ _ dirs (λ x h. ground arith) (all_listed dirs),
  )

  -- A list of what was found in those directories.
  abbrev pub IsListing : List FilePath → Type 0
  IsListing out =
      Sound out
      × All (λ d. (not (is_file (spot d)) || any (same_path (spot d)) out) ≡ true) all_dirs

-- The search for a command of which a name is left goes through the directories of PATH, then the fixed
-- ones, then the home's with those of installed versions. It lists the file of that name in each of them in
-- which there is one; each such file stands in the list once, nothing else does, and the best guess stands
-- first: the file in the earliest of those directories.
pub find_command_in-IsListing :
    (is_file : FilePath → Bool) (entries : FilePath → List FilePath) (name base : String)
    (home : Option FilePath) (path : Option (List FilePath))
    → base_of is_file (split_last (path_of (trim name)).parts) ≡ some base
    → IsListing is_file base
        (or_no_dirs path ++ map path_of fixed_dirs ++ of_home entries home)
        (find_command_in is_file entries name home path)
      × (first_of_all (find_command_in is_file entries name home path)
          ≡ find is_file (
              map
                (λ d. join d (path_of base))
                (or_no_dirs path ++ map path_of fixed_dirs ++ of_home entries home)))
unfolding find_command_in bin_dirs
find_command_in-IsListing is_file entries name base home path named =
    rw (named, find_command_in)
      (
        (
          found_in-Sound is_file base dirs dirs [] (all_listed is_file base dirs dirs) (tt, tt),
          found_in-finds is_file base dirs dirs [],
        ),
        found_in-first is_file base dirs dirs,
      )
  where
    dirs : List FilePath
    dirs = bin_dirs entries home path

-- A file that stands there.
abbrev pub holds_file : Option Bool → Bool
holds_file (some true) = true
holds_file _ = false

on_path-find :
    (metadata : FilePath → Option Bool) (cmd : String) (dirs : List FilePath)
    → on_path metadata cmd dirs
      ≡ or_fail
          (find (λ p. holds_file (metadata p)) (map (λ d. join d (path_of cmd)) dirs))
          (not_on_path cmd)
unfolding spellings
on_path-find metadata cmd [] = refl
on_path-find metadata cmd (d ∷ dirs) =
    by_metadata (metadata (join d (path_of cmd))) refl (on_path-find metadata cmd dirs)
  where
    by_metadata :
        (o : Option Bool)
        → metadata (join d (path_of cmd)) ≡ o
        → on_path metadata cmd dirs
          ≡ or_fail
              (find (λ p. holds_file (metadata p)) (map (λ d. join d (path_of cmd)) dirs))
              (not_on_path cmd)
        → on_path metadata cmd (d ∷ dirs)
          ≡ or_fail
              (find (λ p. holds_file (metadata p)) (map (λ d. join d (path_of cmd)) (d ∷ dirs)))
              (not_on_path cmd)
    by_metadata none e rest = rw (e, on_path) rest
    by_metadata (some true) e rest = rw (e, on_path) refl
    by_metadata (some false) e rest = rw (e, on_path) rest

-- A bare command is the first file of that name on PATH, and is refused where there is none.
pub resolve_command_bare :
    (metadata : FilePath → Option Bool) (cmd : String) (path : List FilePath)
    → lacks b'/' (trim cmd) ≡ true
    → lacks 0x5c (trim cmd) ≡ true
    → resolve_command metadata cmd path
      ≡ or_fail
          (find (λ p. holds_file (metadata p)) (map (λ d. join d (path_of (trim cmd))) path))
          (not_on_path (trim cmd))
unfolding resolve_command
resolve_command_bare metadata cmd path slash back =
    rw (slash, back, resolve_command) (on_path-find metadata (trim cmd) path)
