-- ===== src/Actions/Limits/Window.antt =====
-- What a limiter lets through over a history of calls.
use mcp_gatehound.Base.{
  ℕ, ◌+◌, ◌*◌, ◌≤◌, String, Bool, Option, some, none, List, [], ◌∷◌, ◌++◌, Result, ok, err, ltb,
  leb, length, retain, count_where, if◌then◌else◌, is_ok, ◌≡◌, refl, arith, inl, inr, Bool-cases,
  ap, ◌∙◌, sym,
}
use mcp_gatehound.Config.{RateLimit}
use mcp_gatehound.Actions.Limits.{is_recent, RateLimiter, new, last, spacing_left, acquire, commit}

-- A call at a time, with how long it ran if it was answered.
pub record Attempt : Type 0 where
  pub at : ℕ
  pub ran : Option ℕ

-- The limiter, every call that it has ever counted, the oldest first, and the time.
pub record History : Type 0 where
  pub limiter : RateLimiter
  pub sent : List ℕ
  pub clock : ℕ

abbrev pub start : RateLimit → History
start limit = record { limiter = new limit; sent = []; clock = 0 }

-- What becomes of an attempt behind the limiter's answer.
abbrev settle : Attempt → History → Result String ℕ × RateLimiter → History
settle a h (err e, rl) = record h { limiter = rl; clock = a.at }
settle a h (ok wait, rl) = elim a.ran [
  | none ↦ record h { limiter = rl; clock = a.at + wait }
  | some ran ↦
      let done = a.at + wait + ran in
      record { limiter = commit done rl; sent = h.sent ++ done ∷ []; clock = done }
]

unfoldable pub attempt : Attempt → History → History
attempt a h = settle a h (acquire a.at h.limiter)

unfoldable pub attempts : List Attempt → History → History
attempts [] h = h
attempts (a ∷ as') h = attempts as' (attempt a h)

-- No attempt starts before the one in front of it has ended.
abbrev pub IsOrdered : List Attempt → History → Type 0
IsOrdered [] h = Unit
IsOrdered (a ∷ as') h = (h.clock ≤ a.at) × IsOrdered as' (attempt a h)

-- The window holds what was counted in the past hour, as far as any later time can tell.
record IsExact (limit : RateLimit) (h : History) : Type 0 where
  same_limit : h.limiter.limit ≡ limit
  window :
      (now : ℕ)
      → h.clock ≤ now
      → retain (is_recent now) h.limiter.recent ≡ retain (is_recent now) h.sent

retain-later :
    (now later : ℕ) (ts : List ℕ)
    → now ≤ later
    → retain (is_recent later) (retain (is_recent now) ts) ≡ retain (is_recent later) ts
retain-later now later [] le = refl
retain-later now later (t ∷ ts) le = ground (arith, retain-later now later ts le)

retain-append :
    (p : ℕ → Bool) (xs : List ℕ) (y : ℕ)
    → retain p (xs ++ y ∷ []) ≡ retain p xs ++ (if p y then y ∷ [] else [])
retain-append p [] y = ground arith
retain-append p (x ∷ xs) y = ground (arith, retain-append p xs y)

length-retain : (p : ℕ → Bool) (xs : List ℕ) → length (retain p xs) ≡ count_where p xs
length-retain p [] = refl
length-retain p (x ∷ xs) = ground (arith, length-retain p xs)

module _ (limit : RateLimit) where
  kept-window :
      (now : ℕ) (h : History) (later : ℕ)
      → IsExact limit h
      → h.clock ≤ now
      → now ≤ later
      → retain (is_recent later) (retain (is_recent now) h.limiter.recent)
        ≡ retain (is_recent later) h.sent
  kept-window now h later x le le' =
      retain-later now later h.limiter.recent le' ∙ x.window later (omega arith)

  attempt-IsExact :
      (a : Attempt) (h : History) → IsExact limit h → h.clock ≤ a.at → IsExact limit (attempt a h)
  unfolding attempt acquire commit
  attempt-IsExact a h x le =
      elim (Bool-cases
        (leb h.limiter.limit.per_hour (length (retain (is_recent a.at) h.limiter.recent)))) [
          | inl spent ↦ rw spent (record {
            same_limit = x.same_limit;
            window = λ now le'. kept-window a.at h now x le le';
          })
          | inr free ↦ rw free (settled a.ran)
        ]
    where
      wait : ℕ
      wait = spacing_left h.limiter.limit a.at (last (retain (is_recent a.at) h.limiter.recent))

      settled :
          (ran : Option ℕ)
          → IsExact limit (
              settle
                (record { at = a.at; ran = ran })
                h
                (ok wait, record h.limiter { recent = retain (is_recent a.at) h.limiter.recent }))
      settled none = record {
        same_limit = x.same_limit;
        window = λ now le'. kept-window a.at h now x le (omega arith);
      }
      settled (some ran) = record {
        same_limit = x.same_limit;
        window = λ now le'.
            let done = a.at + wait + ran in
            retain-append (is_recent now) (retain (is_recent a.at) h.limiter.recent) done
            ∙ (ap (λ ts. ts ++ (if is_recent now done then done ∷ [] else []))
                  (kept-window a.at h now x le (omega arith))
                ∙ sym (retain-append (is_recent now) h.sent done));
      }

  attempts-IsExact :
      (as' : List Attempt) (h : History)
      → IsExact limit h
      → IsOrdered as' h
      → IsExact limit (attempts as' h)
  unfolding attempts
  attempts-IsExact [] h x o = x
  attempts-IsExact (a ∷ as') h x (le, o) =
      attempts-IsExact as' (attempt a h) (attempt-IsExact a h x le) o

  -- After any history of calls through a limiter, one behind the other, a call is let through exactly
  -- when fewer than the hourly cap were answered in the hour before it. Calls that failed do not count.
  pub is_ok-acquire :
      (as' : List Attempt) (now : ℕ)
      → IsOrdered as' (start limit)
      → (attempts as' (start limit)).clock ≤ now
      → is_ok (acquire now (attempts as' (start limit)).limiter).0
        ≡ ltb (count_where (is_recent now) (attempts as' (start limit)).sent) limit.per_hour
  unfolding acquire new
  is_ok-acquire as' now o le =
      let x = attempts-IsExact as' (start limit) first o in
      ground (
        arith,
        x.same_limit,
        x.window now le,
        length-retain (is_recent now) (attempts as' (start limit)).sent,
      )
    where
      first : IsExact limit (start limit)
      first = record { same_limit = refl; window = λ now le'. refl }

  -- A call that is let through starts no sooner than the configured gap after the last one counted in
  -- the past hour.
  pub acquire_spaced :
      (now wait last_sent : ℕ) (rl : RateLimiter)
      → rl.limit ≡ limit
      → last (retain (is_recent now) rl.recent) ≡ some last_sent
      → last_sent ≤ now
      → (acquire now rl).0 ≡ ok wait
      → last_sent + limit.min_spacing_secs * 1000 ≤ now + wait
  unfolding acquire spacing_left
  acquire_spaced now wait last_sent rl e l before h = ground arith
