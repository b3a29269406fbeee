-- ===== src/Pack/Merge/Consent.antt =====
-- The consent that somebody else's code takes.
use mcp_gatehound.Base.{
  ℕ, String, Bool, true, false, none, List, ◌≡◌, refl, ◌⊎◌, inl, inr, is_some, Bool-cases,
  Option-cases, arith,
}
use mcp_gatehound.Config.Settings.{Config}
use mcp_gatehound.Scripts.Files.{Disk}
use mcp_gatehound.Pack.{Pack, carries_scripts, dangerous}
use mcp_gatehound.Pack.Merge.{ImportOptions, consent, merge, is_none}

module _ (digest : List ℕ → String) (resolves : String → Bool) (p : Pack) (o : ImportOptions) where
  -- No code comes with the pack; or its scripts were allowed, and those that the review calls dangerous
  -- were allowed a second time.
  abbrev pub IsConsented : Type 0
  IsConsented =
      (carries_scripts digest p ≡ false)
      ⊎ ((o.allow_scripts ≡ true)
          × ((is_none digest resolves (dangerous digest p) ≡ true)
              ⊎ (o.allow_dangerous_scripts ≡ true)))

  consent-IsConsented : consent digest resolves p o ≡ none → IsConsented
  unfolding consent
  consent-IsConsented e = elim (Bool-cases (carries_scripts digest p)) [
    | inr no_code ↦ inl no_code
    | inl code ↦ elim (Bool-cases o.allow_scripts) [
      | inr refused ↦ absurd (ground arith)
      | inl allowed ↦ elim (Bool-cases (is_none digest resolves (dangerous digest p))) [
        | inl mild ↦ inr (allowed, inl mild)
        | inr danger ↦ inr (allowed, inr (ground arith))
      ]
    ]
  ]

  -- An import that goes past the question of consent had it; one that does not is refused with nothing
  -- changed in the configuration or on the disk.
  pub merge-IsConsented :
      (cfg : Config) (d : Disk)
      → IsConsented
        ⊎ ((is_some (merge digest resolves cfg d p o).0 ≡ true)
            × (((merge digest resolves cfg d p o).1.config ≡ cfg)
                × ((merge digest resolves cfg d p o).1.disk ≡ d)))
  unfolding merge
  merge-IsConsented cfg d = elim (Option-cases (consent digest resolves p o)) [
    | inl given ↦ inl (consent-IsConsented given)
    | inr (e, refused) ↦ inr (rw (refused, merge) (refl, (refl, refl)))
  ]
