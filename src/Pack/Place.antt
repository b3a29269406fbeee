-- ===== src/Pack/Place.antt =====
-- crates/gatehound-core/src/pack.rs: how `merge` puts the items of a pack into a list that is there.
use mcp_gatehound.Base.{
  String, Bool, ◌&&◌, Option, some, none, List, [], ◌∷◌, ◌++◌, ◌+++◌, ◌==◌, any, if◌then◌else◌,
}
use mcp_gatehound.Config.Settings.{IdentitySeed}
use mcp_gatehound.Pack.{PackError}

-- A list while the pack's items are put into it, with the names that were added and those replaced.
pub record Placed {ℓ} (A : Type ℓ) : Type ℓ where
  pub items : List A
  pub added : List String
  pub replaced : List String

module _ {ℓ} {A : Type ℓ} (name : A → String) (taken : String → PackError) (label : String)
    (replace : Bool) where
  abbrev replace_first : A → List A → List A
  replace_first x [] = []
  replace_first x (y ∷ ys) =
      let rest = replace_first x ys in if name y == name x then x ∷ ys else y ∷ rest

  abbrev pub place_one : A → Placed A → Option PackError × Placed A
  place_one x p =
      if any (λ y. name y == name x) p.items
      then if replace
        then (
          none,
          record p {
            items = replace_first x p.items;
            replaced = p.replaced ++ (label +++ name x) ∷ [];
          },
        )
        else (some (taken (name x)), p)
      else (none, record p { items = p.items ++ x ∷ []; added = p.added ++ name x ∷ [] })

  unfoldable pub place_all : List A → Placed A → Option PackError × Placed A
  place_all [] p = (none, p)
  place_all (x ∷ xs) p =
      let (failure, p') = place_one x p in
      elim failure [ none ↦ place_all xs p' | some e ↦ (some e, p') ]

abbrev pub same_seed : IdentitySeed → IdentitySeed → Bool
same_seed i x = (x.identity == i.identity) && (x.tool == i.tool)

abbrev pub seed_all : List IdentitySeed → Placed IdentitySeed → Placed IdentitySeed
seed_all [] p = p
seed_all (i ∷ more) p = seed_all more (
    if any (same_seed i) p.items then p else record p {
      items = p.items ++ i ∷ [];
      added = p.added ++ (i.identity +++ " · " +++ i.tool) ∷ [];
    })
