-- ===== src/Pack/Merge/Additive.antt =====
-- What an import that goes through leaves as it was.
use mathlib.Core.Path.{subst}
use mcp_gatehound.Base.{
  String, Bool, false, Option, some, none, List, [], ◌∷◌, ◌++◌, ◌==◌, ◌≡◌, refl, sym, ◌∙◌, inl, inr,
  any, All, All-map, append_assoc, append_nil, Bool-cases, arith,
}
use mcp_gatehound.Pack.{PackError}
use mcp_gatehound.Pack.Place.{Placed, place_one, place_all}

abbrev pub is_taken {ℓ} : {A : Type ℓ} → (A → String) → List A → A → Bool
is_taken name items x = any (λ y. name y == name x) items

module _ {ℓ} {A : Type ℓ} (name : A → String) (taken : String → PackError) (label : String) where
  any-front :
      (x : A) (front back : List A)
      → is_taken name (front ++ back) x ≡ false
      → is_taken name front x ≡ false
  any-front x [] back h = refl
  any-front x (y ∷ ys) back h = ground (arith, any-front x ys back)

  abbrev pub Adds : List A → List A → Option PackError × Placed A → Type ℓ
  Adds items xs (some e, q) = Unit
  Adds items xs (none, q) = (q.items ≡ items ++ xs) × All (λ x. is_taken name items x ≡ false) xs

  Adds-cons :
      (items : List A) (x : A) (xs : List A) (r : Option PackError × Placed A)
      → is_taken name items x ≡ false
      → Adds (items ++ x ∷ []) xs r
      → Adds items (x ∷ xs) r
  Adds-cons items x xs (some e, q) free h = tt
  Adds-cons items x xs (none, q) free (e, h) = (
    e ∙ append_assoc items (x ∷ []) xs,
    (
      free,
      All-map (λ y. is_taken name (items ++ x ∷ []) y ≡ false) (λ y. is_taken name items y ≡ false)
          xs (λ y f. any-front y items (x ∷ []) f) h,
    ),
  )

  pub place_all-Adds :
      (xs : List A) (p : Placed A) → Adds p.items xs (place_all name taken label false xs p)
  unfolding place_all
  place_all-Adds [] p = (sym (append_nil p.items), tt)
  place_all-Adds (x ∷ xs) p = elim (Bool-cases (is_taken name p.items x)) [
    | inl there ↦
        let stuck : place_one name taken label false x p ≡ (some (taken (name x)), p) =
          rw there refl in
        subst (go_on x xs p.items) (sym stuck) tt
    | inr free ↦
        let next : Placed A = record p {
          items = p.items ++ x ∷ [];
          added = p.added ++ name x ∷ [];
        } in
        let moved : place_one name taken label false x p ≡ (none, next) = rw free refl in
        subst (go_on x xs p.items) (sym moved) (
          Adds-cons p.items x xs (place_all name taken label false xs next) free
            (place_all-Adds xs next))
  ]
    where
      go_on : A → List A → List A → Option PackError × Placed A → Type ℓ
      go_on x xs items r =
          Adds items (x ∷ xs)
            (elim r.0 [ none ↦ place_all name taken label false xs r.1 | some e ↦ (some e, r.1) ])

  -- The same where replacement is not asked for.
  pub kept-Adds :
      (replace : Bool)
      → replace ≡ false
      → (xs : List A) (p : Placed A) → Adds p.items xs (place_all name taken label replace xs p)
  kept-Adds replace keep xs p = rw keep (place_all-Adds xs p)
