-- ===== src/Pack/Merge/Kept.antt =====
-- An import as a whole: what it adds, and what it needs.
use mathlib.Core.Path.{subst}
use mcp_gatehound.Base.{
  ℕ, String, Bool, false, Option, some, none, List, [], ◌∷◌, ◌++◌, ◌+++◌, ◌≡◌, refl, sym, ap, ◌∙◌,
  inl, inr, any, map, All, append_assoc, append_nil, Result, ok, err, Bool-cases,
}
use mcp_gatehound.Config.{ToolConfig}
use mcp_gatehound.Config.Settings.{Config, UpstreamConfig, IdentitySeed}
use mcp_gatehound.Config.Validate.{validate, Invalid}
use mcp_gatehound.Scripts.{ScriptDef}
use mcp_gatehound.Scripts.Files.{Disk}
use mcp_gatehound.Pack.{Pack, PackError, tool_exists, upstream_exists}
use mcp_gatehound.Pack.Merge.{
  ImportOptions, Merged, and_then, script_all, consent, merge, scripts_step, upstreams_step,
  tools_step, seeds_step, failure_of, validated, consented,
}
use mcp_gatehound.Pack.Place.{Placed, place_all, seed_all, same_seed}
use mcp_gatehound.Pack.Merge.Additive.{is_taken, Adds, kept-Adds}
use mcp_gatehound.Pack.Merge.Scripted.{def_of, AddsDefs, kept-AddsDefs}

module _ (digest : List ℕ → String) (resolves : String → Bool) (p : Pack) (o : ImportOptions) where
  -- The items of the pack stand behind those that were there, and none of them was there by name.
  abbrev pub Behind : {A : Type 0} → (A → String) → List A → List A → List A → Type 0
  Behind name old new now = (now ≡ old ++ new) × All (λ x. is_taken name old x ≡ false) new

  -- Each script of the pack is registered by its own name and the digest of its own text, behind those that
  -- were there.
  abbrev pub Registered : Config → Config → Type 0
  Registered before after =
      after.scripts ≡ before.scripts ++ map (def_of digest resolves p.meta.name) p.scripts

  abbrev pub Extended : Config → Config → Type 0
  Extended before after =
      Behind (λ (u : UpstreamConfig). u.name) before.upstreams p.upstreams after.upstreams
      × (Behind (λ (t : ToolConfig). t.name) before.tools p.tools after.tools
          × Registered before after)

  -- What is left alone by every step.
  abbrev pub Settled : Config → Config → Type 0
  Settled before after =
      (after.auth ≡ before.auth)
      × (after.publish ≡ before.publish)
      × (after.listen_addr ≡ before.listen_addr)
      × ((seeds : List IdentitySeed) × (after.identities ≡ before.identities ++ seeds))

  abbrev IfDone : (Merged → Type 0) → Option PackError × Merged → Type 0
  IfDone P (some e, s) = Unit
  IfDone P (none, s) = P s

  and_then-IfDone :
      (P Q : Merged → Type 0) (m : Option PackError × Merged)
      (k : Merged → Option PackError × Merged)
      → IfDone P m
      → ((s : Merged) → P s → IfDone Q (k s))
      → IfDone Q (and_then m k)
  and_then-IfDone P Q (some e, s) k h next = tt
  and_then-IfDone P Q (none, s) k h next = next s h

  abbrev Untouched : Config → Config → Type 0
  Untouched before after =
      (after.auth ≡ before.auth)
      × (after.publish ≡ before.publish)
      × (after.listen_addr ≡ before.listen_addr)
      × (after.identities ≡ before.identities)

  module _ (cfg : Config) (keep : o.replace ≡ false) where
    abbrev AfterScripts : Merged → Type 0
    AfterScripts s =
        Untouched cfg s.config
        × ((s.config.upstreams ≡ cfg.upstreams)
            × ((s.config.tools ≡ cfg.tools) × Registered cfg s.config))

    abbrev AfterUpstreams : Merged → Type 0
    AfterUpstreams s =
        Untouched cfg s.config
        × (Behind (λ (u : UpstreamConfig). u.name) cfg.upstreams p.upstreams s.config.upstreams
            × ((s.config.tools ≡ cfg.tools) × Registered cfg s.config))

    abbrev AfterTools : Merged → Type 0
    AfterTools s = Untouched cfg s.config × Extended cfg s.config

    scripts_step-Done :
        (s : Merged) → s.config ≡ cfg → IfDone AfterScripts (scripts_step digest resolves p o s)
    scripts_step-Done s same =
        by_result
          (script_all digest resolves o.replace p.meta.name o.base_dir p.scripts
            (record { items = s.config.scripts; added = []; replaced = s.applied.replaced }) s.disk)
          (kept-AddsDefs digest resolves p.meta.name o.replace keep o.base_dir p.scripts
            (record { items = s.config.scripts; added = []; replaced = s.applied.replaced }) s.disk)
      where
        by_result :
            (r : Option PackError × (Placed ScriptDef × Disk))
            → AddsDefs digest resolves p.meta.name p.scripts s.config.scripts r
            → IfDone AfterScripts (
              r.0,
              record {
                config = record s.config { scripts = r.1.0.items };
                disk = r.1.1;
                applied = record s.applied { scripts = r.1.0.added; replaced = r.1.0.replaced };
              },
            )
        by_result (some e, r) h = tt
        by_result (none, (q, d)) e = (
          (
            ap (λ (c : Config). c.auth) same,
            ap (λ (c : Config). c.publish) same,
            ap (λ (c : Config). c.listen_addr) same,
            ap (λ (c : Config). c.identities) same,
          ),
          (
            ap (λ (c : Config). c.upstreams) same,
            (
              ap (λ (c : Config). c.tools) same,
              e
                  ∙ ap
                      (λ (c : Config).
                        c.scripts ++ map (def_of digest resolves p.meta.name) p.scripts)
                      same,
            ),
          ),
        )

    upstreams_step-Done :
        (s : Merged) → AfterScripts s → IfDone AfterUpstreams (upstreams_step digest resolves p o s)
    upstreams_step-Done s (rest, (same, (tools, scripts))) =
        by_result
          (place_all (λ (u : UpstreamConfig). u.name) upstream_exists "upstream " o.replace
            p.upstreams placed)
          (kept-Adds (λ (u : UpstreamConfig). u.name) upstream_exists "upstream " o.replace keep
            p.upstreams placed)
      where
        placed : Placed UpstreamConfig
        placed = record { items = s.config.upstreams; added = []; replaced = s.applied.replaced }

        by_result :
            (r : Option PackError × Placed UpstreamConfig)
            → Adds
                (λ (u : UpstreamConfig). u.name)
                upstream_exists
                "upstream "
                s.config.upstreams
                p.upstreams
                r
            → IfDone AfterUpstreams (
              r.0,
              record s {
                config = record s.config { upstreams = r.1.items };
                applied = record s.applied { upstreams = r.1.added; replaced = r.1.replaced };
              },
            )
        by_result (some e, r) h = tt
        by_result (none, q) (e, free) = (
          rest,
          (
            (
              e ∙ ap (λ us. us ++ p.upstreams) same,
              subst
                  (λ us.
                    All (λ x. is_taken (λ (u : UpstreamConfig). u.name) us x ≡ false) p.upstreams)
                  same free,
            ),
            (tools, scripts),
          ),
        )

    tools_step-Done :
        (s : Merged) → AfterUpstreams s → IfDone AfterTools (tools_step digest resolves p o s)
    tools_step-Done s (rest, (upstreams, (same, scripts))) =
        by_result
          (place_all (λ (t : ToolConfig). t.name) tool_exists "tool " o.replace p.tools placed)
          (kept-Adds (λ (t : ToolConfig). t.name) tool_exists "tool " o.replace keep p.tools placed)
      where
        placed : Placed ToolConfig
        placed = record { items = s.config.tools; added = []; replaced = s.applied.replaced }

        by_result :
            (r : Option PackError × Placed ToolConfig)
            → Adds (λ (t : ToolConfig). t.name) tool_exists "tool " s.config.tools p.tools r
            → IfDone AfterTools (
              r.0,
              record s {
                config = record s.config { tools = r.1.items };
                applied = record s.applied { tools = r.1.added; replaced = r.1.replaced };
              },
            )
        by_result (some e, r) h = tt
        by_result (none, q) (e, free) = (
          rest,
          (
            upstreams,
            (
              (
                e ∙ ap (λ ts. ts ++ p.tools) same,
                subst (λ ts. All (λ x. is_taken (λ (t : ToolConfig). t.name) ts x ≡ false) p.tools)
                    same free,
              ),
              scripts,
            ),
          ),
        )

    seed_all-behind :
        (seeds : List IdentitySeed) (q : Placed IdentitySeed)
        → (more : List IdentitySeed) × ((seed_all seeds q).items ≡ q.items ++ more)
    seed_all-behind [] q = ([], sym (append_nil q.items))
    seed_all-behind (i ∷ seeds) q = elim (Bool-cases (any (same_seed i) q.items)) [
      | inl there ↦ rw (seed_all, there) (seed_all-behind seeds q)
      | inr new ↦
          let next : Placed IdentitySeed = record q {
            items = q.items ++ i ∷ [];
            added = q.added ++ (i.identity +++ " · " +++ i.tool) ∷ [];
          } in
          let (more, e) = seed_all-behind seeds next in
          rw (seed_all, new) (i ∷ more, e ∙ append_assoc q.items (i ∷ []) more)
    ]

    -- What came of an import that went through.
    abbrev pub Imported : Merged → Type 0
    Imported s =
        Settled cfg s.config
        × (Extended cfg s.config
            × ((warnings : List String) × (validate
                    (record { digest = digest; disk = s.disk; resolves = resolves }) s.config
                  ≡ ok warnings)))

    validated-Done :
        (s : Merged)
        → Settled cfg s.config
        → Extended cfg s.config
        → IfDone Imported (validated digest resolves s)
    validated-Done s settled extended =
        by_result
          (validate (record { digest = digest; disk = s.disk; resolves = resolves }) s.config) refl
      where
        by_result :
            (r : Result Invalid (List String))
            → validate (record { digest = digest; disk = s.disk; resolves = resolves }) s.config ≡ r
            → IfDone Imported (failure_of digest resolves r, s)
        by_result (ok warnings) e = (settled, (extended, (warnings, e)))
        by_result (err f) e = tt

    seeds_step-Done :
        (s : Merged)
        → AfterTools s
        → IfDone Imported (validated digest resolves (seeds_step digest resolves p s))
    seeds_step-Done s ((auth, publish, addr, seeds), extended) =
        let (more, e) =
          seed_all-behind p.identities
            (record { items = s.config.identities; added = []; replaced = [] }) in
        validated-Done (seeds_step digest resolves p s)
          (auth, publish, addr, (more, e ∙ ap (λ xs. xs ++ more) seeds)) extended

    merged :
        (failure : Option PackError) (s : Merged)
        → s.config ≡ cfg
        → IfDone Imported (consented digest resolves failure p o s)
    merged (some e) s same = tt
    merged none s same =
        and_then-IfDone AfterTools Imported _ _
          (and_then-IfDone AfterUpstreams AfterTools _ _
            (and_then-IfDone AfterScripts AfterUpstreams _ _ (scripts_step-Done s same)
              upstreams_step-Done)
            tools_step-Done)
          seeds_step-Done

    IfDone-sound :
        (P : Merged → Type 0) (r : Option PackError × Merged) → IfDone P r → r.0 ≡ none → P r.1
    IfDone-sound P (some f, s) h e = cc
    IfDone-sound P (none, s) h e = h

    -- An import without replacement that goes through leaves every upstream, tool and script as it was
    -- and puts the pack's behind them, each script by its own name and the digest of its own text, and none
    -- of whose upstreams and tools had a name that was taken; it
    -- leaves the seeds that were there, how requests are authenticated, how the listener is published and
    -- its address; and the configuration that comes of it passes validation.
    pub merge-Imported :
        (d : Disk)
        → (merge digest resolves cfg d p o).0 ≡ none
        → Imported (merge digest resolves cfg d p o).1
    unfolding merge
    merge-Imported d done =
        IfDone-sound Imported (merge digest resolves cfg d p o)
          (merged (consent digest resolves p o) _ refl) done
