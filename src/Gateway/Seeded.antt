-- ===== src/Gateway/Seeded.antt =====
-- What the start of the gateway does to its database.
use mcp_gatehound.Base.{
  ℕ, String, Bool, true, false, Option, some, none, List, [], ◌∷◌, ◌==◌, ◌&&◌, ◌≡◌, refl, ◌∙◌, ap,
  ok, or_else, Option-cases, inl, inr, if◌then◌else◌,
}
use mcp_gatehound.Decision.{Decision, as_str}
use mcp_gatehound.Config.Settings.{Config, IdentitySeed, UpstreamConfig}
use mcp_gatehound.Config.Validate.{Machine, validate}
use mcp_gatehound.Store.{Db}
use mcp_gatehound.Store.Pending.{clear_pending}
use mcp_gatehound.Store.Rules.{select_decision, set_decision, seed_decision}
use mcp_gatehound.Store.Rules.Lookup.{select-seed}
use mcp_gatehound.Auth.Access.{Jose}
use mcp_gatehound.Gateway.{seed_all, build}

-- The decision of the first seed for a pair.
abbrev pub first_seed : List IdentitySeed → String → String → Option String
first_seed [] i t = none
first_seed (s ∷ more) i t =
    if s.identity == i && s.tool == t then some (as_str s.decision) else first_seed more i t

or_else-or_else : (a b c : Option String) → or_else (or_else a b) c ≡ or_else a (or_else b c)
or_else-or_else none b c = refl
or_else-or_else (some a) b c = refl

first-of :
    (test : Bool) (a b : Option String) (d : String)
    → or_else (if test then some d else none) b ≡ (if test then some d else b)
first-of true a b d = refl
first-of false a b d = refl

select-seed_all :
    (now : ℕ) (seeds : List IdentitySeed) (db : Db) (j u : String)
    → select_decision (seed_all now seeds db).identities j u
      ≡ or_else (select_decision db.identities j u) (first_seed seeds j u)
select-seed_all now [] db j u = or_none (select_decision db.identities j u)
  where
    or_none : (a : Option String) → a ≡ or_else a none
    or_none none = refl
    or_none (some a) = refl
select-seed_all now (s ∷ more) db j u =
    select-seed_all now more (seed_decision now s.identity s.tool s.decision db) j u
    ∙ rw (select-seed now s.identity s.tool s.decision db j u) (
        or_else-or_else (select_decision db.identities j u) _ (first_seed more j u)
        ∙ ap (or_else (select_decision db.identities j u))
            (first-of (s.identity == j && s.tool == u) none _ _))

-- What else the database holds.
abbrev pub SameRest : Db → Db → Type 0
SameRest a b =
    (a.tokens ≡ b.tokens)
    × (a.requests ≡ b.requests)
    × (a.sends ≡ b.sends)
    × (a.metas ≡ b.metas)
    × (a.pending ≡ b.pending)

seed-SameRest :
    (now : ℕ) (i t : String) (d : Decision) (db : Db) → SameRest (seed_decision now i t d db) db
unfolding seed_decision set_decision
seed-SameRest now i t d db = elim (Option-cases (select_decision db.identities i t)) [
  | inl fresh ↦ rw (fresh, seed_decision) (refl, refl, refl, refl, refl)
  | inr (a, there) ↦ rw (there, seed_decision) (refl, refl, refl, refl, refl)
]

seed_all-SameRest :
    (now : ℕ) (seeds : List IdentitySeed) (db : Db) → SameRest (seed_all now seeds db) db
seed_all-SameRest now [] db = (refl, refl, refl, refl, refl)
seed_all-SameRest now (s ∷ more) db =
    let (t, r, c, m, p) =
      seed_all-SameRest now more (seed_decision now s.identity s.tool s.decision db) in
    let (t', r', c', m', p') = seed-SameRest now s.identity s.tool s.decision db in
    (t ∙ t', r ∙ r', c ∙ c', m ∙ m', p ∙ p')

module _ (j : Jose) (digest : String → String) (refusal : UpstreamConfig → Option String) where
  -- The start of a gateway whose configuration passes validation empties the table of held calls and keeps
  -- tokens, log, calls with a key and what else was noted. A rule that is there stays as it is, whatever the
  -- configuration's seeds say; a pair without a rule gets the first seed for it, or stays without.
  pub select-build :
      (m : Machine) (now : ℕ) (cfg : Config) (db : Db) (warnings : List String) (i t : String)
      → validate m cfg ≡ ok warnings
      → (select_decision (build j digest refusal m now cfg db).1.identities i t
          ≡ or_else (select_decision db.identities i t) (first_seed cfg.identities i t))
        × SameRest (build j digest refusal m now cfg db).1 (record db { pending = [] })
  unfolding build clear_pending
  select-build m now cfg db warnings i t valid =
      rw (valid, build)
        (
          select-seed_all now cfg.identities (record db { pending = [] }) i t,
          seed_all-SameRest now cfg.identities (record db { pending = [] }),
        )
