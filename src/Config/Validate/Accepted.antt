-- ===== src/Config/Validate/Accepted.antt =====
-- What an accepted configuration guarantees to the gateway that runs it.
use mcp_gatehound.Base.{
  String, len, Bool, true, false, ◌||◌, Option, some, none, List, [], ◌∷◌, ◌==◌, ◌≡◌, refl, any,
  All, All-map, ok, guard-eq-ok, leb, eqb, is_some, arith, Distinct,
}
use mcp_gatehound.Config.{ToolConfig, Action, proxy, exec, script}
use mcp_gatehound.Config.Settings.{
  Config, UpstreamConfig, UpstreamKind, http, mcp, IdentitySeed, find_upstream, find_script,
}
use mcp_gatehound.Config.Validate.{
  Machine, declares, reached, registered, action_valid, tools_valid, seeds_valid, token_of,
  is_listed, validate,
}
use mcp_gatehound.Publish.{check}
use mcp_gatehound.Scripts.{ScriptDef}
use mcp_gatehound.Upstreams.Http.Calls.{find_op}

module _ (m : Machine) (cfg : Config) where
  abbrev pub Offers : String → UpstreamKind → Type 0
  Offers op (http h) = is_some (find_op op h.ops) ≡ true
  Offers op (mcp s) = Unit

  -- What a tool's action needs is there.
  abbrev pub CanRun : Action → Type 0
  CanRun (proxy upstream op) =
      (u : UpstreamConfig) × (find_upstream cfg.upstreams upstream ≡ some u) × Offers op u.kind
  CanRun (exec spec) = (m.resolves spec.cmd ≡ true) × (eqb spec.max_concurrency 0 ≡ false)
  CanRun (script spec) =
      (is_some (find_script cfg.scripts spec.script) ≡ true) × (eqb spec.max_concurrency 0 ≡ false)

  offers : (tool op : String) (k : UpstreamKind) → declares m cfg tool op k ≡ ok tt → Offers op k
  offers tool op (http h) e = guard-eq-ok _ _ e
  offers tool op (mcp s) e = tt

  offered :
      (tool upstream op : String) (o : Option UpstreamConfig)
      → reached m cfg tool upstream op o ≡ ok tt
      → (u : UpstreamConfig) × (o ≡ some u) × Offers op u.kind
  offered tool upstream op none e = cc
  offered tool upstream op (some u) e = (u, refl, offers tool op u.kind e)

  registered-there :
      (tool name : String) (o : Option ScriptDef)
      → registered m cfg tool name o ≡ ok tt
      → is_some o ≡ true
  registered-there tool name none e = cc
  registered-there tool name (some d) e = refl

  action-CanRun : (tool : String) (a : Action) → action_valid m cfg tool a ≡ ok tt → CanRun a
  action-CanRun tool (proxy upstream op) e =
      offered tool upstream op (find_upstream cfg.upstreams upstream) e
  action-CanRun tool (exec spec) e = (ground arith, ground arith)
  action-CanRun tool (script spec) e = (
    registered-there tool spec.script (find_script cfg.scripts spec.script) (ground arith),
    ground arith,
  )

  abbrev pub same_name : ToolConfig → ToolConfig → Bool
  same_name t u = t.name == u.name

  none_same :
      (seen : List String) (t : ToolConfig) (ts : List ToolConfig)
      → All (λ u. (is_listed (t.name ∷ seen) u.name ≡ false) × CanRun u.action) ts
      → any (same_name t) ts ≡ false
  none_same seen t [] h = refl
  none_same seen t (u ∷ us) ((fresh, can), h) = ground (arith, none_same seen t us h)

  tools_sound :
      (seen : List String) (ts : List ToolConfig)
      → tools_valid m cfg seen ts ≡ ok tt
      → All (λ t. (is_listed seen t.name ≡ false) × CanRun t.action) ts × Distinct same_name ts
  unfolding tools_valid
  tools_sound seen [] e = (tt, tt)
  tools_sound seen (t ∷ ts) e =
      let fresh : is_listed seen t.name ≡ false = ground arith in
      let acts : action_valid m cfg t.name t.action ≡ ok tt = ground arith in
      let rest : tools_valid m cfg (t.name ∷ seen) ts ≡ ok tt = ground arith in
      let (each, distinct) = tools_sound (t.name ∷ seen) ts rest in
      (
        (
          (fresh, action-CanRun t.name t.action acts),
          All-map (λ u. (is_listed (t.name ∷ seen) u.name ≡ false) × CanRun u.action)
              (λ u. (is_listed seen u.name ≡ false) × CanRun u.action) ts
              (λ u (f, c). (ground arith, c)) each,
        ),
        (none_same seen t ts each, distinct),
      )

  seeds_sound :
      (seeds : List IdentitySeed)
      → seeds_valid m cfg seeds ≡ ok tt
      → All (λ i. (i.tool == "*" || any (λ t. t.name == i.tool) cfg.tools) ≡ true) seeds
  unfolding seeds_valid
  seeds_sound [] e = tt
  seeds_sound (i ∷ more) e = (ground arith, seeds_sound more (ground arith))

  -- The token is long enough; tools have names of their own; each tool's action names what is there: an
  -- upstream that offers the operation, a registered script, or a command that resolves, with room to run
  -- one; every seed names a tool; and publishing passed its own check.
  pub record IsAccepted (warnings : List String) : Type 0 where
    pub long_token : leb 16 (len (token_of m cfg cfg.auth.bearer_token)) ≡ true
    pub distinct : Distinct same_name cfg.tools
    pub can_run : All (λ t. CanRun t.action) cfg.tools
    pub seeded :
        All (λ i. (i.tool == "*" || any (λ t. t.name == i.tool) cfg.tools) ≡ true) cfg.identities
    pub guarded : check cfg.publish cfg.auth ≡ ok warnings

  -- A configuration that validation lets through guarantees all of that.
  pub validate-IsAccepted :
      (warnings : List String) → validate m cfg ≡ ok warnings → IsAccepted warnings
  unfolding validate
  validate-IsAccepted warnings e =
      let tools : tools_valid m cfg [] cfg.tools ≡ ok tt = ground arith in
      let seeds : seeds_valid m cfg cfg.identities ≡ ok tt = ground arith in
      let (each, distinct) = tools_sound [] cfg.tools tools in
      record {
        long_token = ground arith;
        distinct = distinct;
        can_run =
            All-map (λ t. (is_listed [] t.name ≡ false) × CanRun t.action) (λ t. CanRun t.action)
              cfg.tools (λ t (f, c). c) each;
        seeded = seeds_sound cfg.identities seeds;
        guarded = ground arith;
      }
