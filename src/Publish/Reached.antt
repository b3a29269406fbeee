-- ===== src/Publish/Reached.antt =====
-- How far a publisher reaches, in any order of what happens to it.
use mathlib.Core.Path.{subst}
use mcp_gatehound.Base.{
  ℕ, String, Bool, true, false, Option, some, none, List, [], ◌∷◌, ◌≡◌, refl, sym, ◌∙◌, ◌⊎◌, inl,
  inr, Result, ok, err, is_empty, trim, Bool-cases, Option-cases, if◌then◌else◌,
}
use mcp_gatehound.Base.Texts.{behind_last}
use mcp_gatehound.Config.Arguments.Numbers.{parse_unsigned}
use mcp_gatehound.Publish.{
  PublishVia, nowhere, auto, cloudflare, tailscale, Reach, tailnet, internet, PublishConfig,
  intended_reach, reach_by,
}
use mcp_gatehound.Publish.Launch.{
  Launch, Lifetime, daemon, configures, NoPort, no_port, launch, launch_via,
}
use mcp_gatehound.Publish.Publisher.{
  Publisher, PublishState, published, not_published, failed, new, Backend, runs, cannot_run, drain,
  drain_line, started, launched, watched, start, ask_state, stop, confirmed_now, gave_up, Step,
  starts, says, is_asked, stops, step, run,
}

-- What is claimed of a publisher's state: it reaches as far as the configuration says, and a daemon that
-- is said to publish is a process that is owned.
abbrev pub Sound : Reach → PublishState → Bool → Type 0
Sound reach (published q) child = (q.reach ≡ reach) × ((q.via ≡ "tailscale") ⊎ (child ≡ true))
Sound reach _ child = Unit

abbrev pub IsSound : PublishConfig → Publisher → Type 0
IsSound cfg p = (p.cfg ≡ cfg) × Sound (intended_reach cfg) p.state p.child

abbrev Goes : Reach → Lifetime → Launch → Type 0
Goes reach daemon l = l.reach ≡ reach
Goes reach configures l = (l.reach ≡ reach) × (l.via ≡ "tailscale")

abbrev GoesIfAny : Reach → Option Launch → Type 0
GoesIfAny reach none = Unit
GoesIfAny reach (some l) = Goes reach l.lifetime l

launch_via-Goes :
    (var : String → Option String) (cfg : PublishConfig) (via : PublishVia) (port : ℕ)
    → GoesIfAny (reach_by via cfg.tailscaled.funnel) (launch_via var cfg via port)
launch_via-Goes var cfg nowhere port = tt
launch_via-Goes var cfg cloudflare port = refl
launch_via-Goes var cfg auto port = refl
launch_via-Goes var cfg tailscale port = (served cfg.tailscaled.funnel, refl)
  where
    served : (funnel : Bool) → (if funnel then internet else tailnet) ≡ reach_by tailscale funnel
    served true = refl
    served false = refl

drain_line-same :
    (via line : String) (p : Publisher)
    → ((drain_line via line p).cfg ≡ p.cfg)
      × ((drain_line via line p).state ≡ p.state)
      × ((drain_line via line p).child ≡ p.child)
unfolding drain_line
drain_line-same via line p = elim (Bool-cases (is_empty (trim line))) [
  | inl blank ↦ rw (blank, drain_line) (refl, refl, refl)
  | inr filled ↦ rw (filled, drain_line) (refl, refl, refl)
]

drain-cfg : (via : String) (lines : List String) (p : Publisher) → (drain via lines p).cfg ≡ p.cfg
drain-cfg via [] p = refl
drain-cfg via (line ∷ more) p =
    drain-cfg via more (drain_line via line p) ∙ (drain_line-same via line p).0

watched-IsSound :
    (cfg : PublishConfig) (l : Launch) (ended : Option String) (p : Publisher)
    → l.reach ≡ intended_reach cfg
    → p.cfg ≡ cfg
    → IsSound cfg (watched l ended p)
watched-IsSound cfg l (some status) p goes same = (same, tt)
watched-IsSound cfg l none p goes same = (same, (goes, inr refl))

launched-IsSound :
    (cfg : PublishConfig) (lifetime : Lifetime) (l : Launch) (b : Backend) (p : Publisher)
    → Goes (intended_reach cfg) lifetime l
    → p.cfg ≡ cfg
    → IsSound cfg (launched lifetime l b p)
launched-IsSound cfg configures l (cannot_run e) p goes same = (same, tt)
launched-IsSound cfg configures l (runs r) p (goes, via) same = elim (Bool-cases r.success) [
  | inl fine ↦ rw fine (same, (goes, inl via))
  | inr bad ↦ rw bad (same, tt)
]
launched-IsSound cfg daemon l (cannot_run e) p goes same = (same, tt)
launched-IsSound cfg daemon l (runs r) p goes same =
    watched-IsSound cfg l r.in_window _ goes
      (drain-cfg l.via r.lines (record p { ready = false }) ∙ same)

abbrev GoesIfOk : Reach → Result NoPort (Option Launch) → Type 0
GoesIfOk reach (err e) = Unit
GoesIfOk reach (ok o) = GoesIfAny reach o

launch-Goes :
    (var : String → Option String) (cfg : PublishConfig) (addr : String)
    → GoesIfOk (intended_reach cfg) (launch var cfg addr)
unfolding launch intended_reach
launch-Goes var cfg addr = elim (Option-cases (parse_unsigned 65535 (behind_last b':' addr))) [
  | inl bad ↦ rw (bad, launch) tt
  | inr (port, there) ↦ rw (there, launch) (launch_via-Goes var cfg cfg.via port)
]

started-IsSound :
    (cfg : PublishConfig) (b : Backend) (p : Publisher) (o : Result NoPort (Option Launch))
    → GoesIfOk (intended_reach cfg) o
    → p.cfg ≡ cfg
    → IsSound cfg (started b p o)
started-IsSound cfg b p (err (no_port addr)) goes same = (same, tt)
started-IsSound cfg b p (ok none) goes same = (same, tt)
started-IsSound cfg b p (ok (some l)) goes same = launched-IsSound cfg l.lifetime l b p goes same

start-IsSound :
    (var : String → Option String) (cfg : PublishConfig) (b : Backend) (p : Publisher)
    → p.cfg ≡ cfg
    → IsSound cfg (start var b p)
unfolding start
start-IsSound var cfg b p same =
    started-IsSound cfg b p (launch var p.cfg p.listen_addr)
      (subst (λ c. GoesIfOk (intended_reach c) (launch var p.cfg p.listen_addr)) same
        (launch-Goes var p.cfg p.listen_addr))
      same

confirmed-Sound :
    (reach : Reach) (ready : Bool) (s : PublishState) (child : Bool)
    → Sound reach s child
    → Sound reach (confirmed_now ready s) child
confirmed-Sound reach ready (published q) child h = h
confirmed-Sound reach ready not_published child h = tt
confirmed-Sound reach ready (failed via e) child h = tt

gave_up-Sound :
    (reach : Reach) (ready : Bool) (status : String) (line : Option String) (s : PublishState)
    → Sound reach (gave_up status line (confirmed_now ready s)) false
gave_up-Sound reach ready status line (published q) = tt
gave_up-Sound reach ready status line not_published = tt
gave_up-Sound reach ready status line (failed via e) = tt

step-IsSound :
    (var : String → Option String) (cfg : PublishConfig) (s : Step) (p : Publisher)
    → IsSound cfg p
    → IsSound cfg (step var s p)
unfolding step stop ask_state
step-IsSound var cfg (starts b) p (same, sound) = start-IsSound var cfg b p same
step-IsSound var cfg (says via line) p (same, sound) =
    let (c, s, k) = drain_line-same via line p in
    (
      c ∙ same,
      subst (λ x. Sound (intended_reach cfg) x (drain_line via line p).child) (sym s)
          (subst (λ x. Sound (intended_reach cfg) p.state x) (sym k) sound),
    )
step-IsSound var cfg (is_asked none) p (same, sound) =
    (same, confirmed-Sound (intended_reach cfg) p.ready p.state p.child sound)
step-IsSound var cfg (is_asked (some status)) p (same, sound) = elim (Bool-cases p.child) [
  | inl owned ↦
      rw (owned, ask_state)
        (same, gave_up-Sound (intended_reach cfg) p.ready status p.last_line p.state)
  | inr free ↦
      rw (free, ask_state)
        (
          same,
          confirmed-Sound (intended_reach cfg) p.ready p.state false
              (subst (λ c. Sound (intended_reach cfg) p.state c) free sound),
        )
]
step-IsSound var cfg stops p (same, sound) = (same, tt)

run-IsSound :
    (var : String → Option String) (cfg : PublishConfig) (steps : List Step) (p : Publisher)
    → IsSound cfg p
    → IsSound cfg (run var steps p)
unfolding run
run-IsSound var cfg [] p sound = sound
run-IsSound var cfg (s ∷ ss) p sound =
    run-IsSound var cfg ss (step var s p) (step-IsSound var cfg s p sound)

-- Whatever has happened to a publisher, in whatever order, what it says is published reaches as far as
-- the configuration intends, and a tunnel that it says is published is a process that it owns.
pub run-new-Sound :
    (var : String → Option String) (cfg : PublishConfig) (addr : String) (steps : List Step)
    → Sound
        (intended_reach cfg)
        (run var steps (new cfg addr)).state
        (run var steps (new cfg addr)).child
unfolding new
run-new-Sound var cfg addr steps = (run-IsSound var cfg steps (new cfg addr) (refl, tt)).1
