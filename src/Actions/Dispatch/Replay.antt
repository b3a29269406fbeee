-- ===== src/Actions/Dispatch/Replay.antt =====
-- A call that repeats a key, and one whose first try failed.
use mcp_gatehound.Base.{
  String, true, false, some, none, [], ◌≡◌, refl, ap, ◌∙◌, arith, Result, ok, err, find, inl, inr,
  Result-cases,
}
use mcp_gatehound.Json.{Value, get}
use mcp_gatehound.Config.{ToolConfig}
use mcp_gatehound.Config.Arguments.{check_arguments}
use mcp_gatehound.Store.{CallRecord, is_complete}
use mcp_gatehound.Store.Calls.{has_key, find_call}
use mcp_gatehound.Actions.Idempotency.{args_hash}
use mcp_gatehound.Actions.Idempotency.Claims.{begin_fresh, begin_done}
use mcp_gatehound.Actions.Dispatch.Acts.{perform_limited-After, perform_limited_result}
use mcp_gatehound.Actions.Dispatch.{
  CallError, bad_key, bad_arguments, Surroundings, World, perform, perform_limited,
  with_duplicate_flag, stored, key_of, act_claimed, dispatch_idempotent, dispatch, now_secs,
  text_of,
}
use mcp_gatehound.Actions.Dispatch.Rows.{
  rows_of, first, IsApart, find-rows, After-rows, claimed_rows, completed_rows, released_rows,
  complete-up, release-up, IsRow, Ends, done, freed,
}

module _ (s : Surroundings) (t : ToolConfig) (args : Value) (key hash : String)
    (apart : IsApart s key) where
  act_claimed-Ends :
      (w : World) (row : CallRecord)
      → IsRow key t.name hash w.conn row
      → row.completed_at ≡ none
      → Ends s t args key hash (act_claimed s t args key w)
  unfolding act_claimed
  act_claimed-Ends w row h n =
      let u = (perform_limited s t args w).1 in
      let kept = After-rows s key apart w u (perform_limited-After s t args w) in
      let alone = kept.0 ∙ h.alone in
      let up = kept.1 ∙ h.up in
      elim (Result-cases (perform_limited s t args w).0) [
        | inr (e, bad) ↦
            rw (act_claimed, bad, release-up key u.conn up)
              (freed e _ (released_rows key u.conn.db row alone n))
        | inl (v, good) ↦
            let recorded =
              complete-up (now_secs u) key (text_of (get "message_id" v)) (s.to_string v) u.conn
                up in
            rw (act_claimed, good, recorded, recorded)
              (done v _ _ (perform_limited_result s t args w v good).0
                (perform_limited_result s t args w v good).1
                (record {
                  alone =
                      completed_rows (now_secs u) key (text_of (get "message_id" v)) (s.to_string v)
                        u.conn.db row alone h.keyed;
                  up = up;
                  keyed = h.keyed;
                  same_tool = h.same_tool;
                  same_hash = h.same_hash;
                })
                refl refl)
      ]

  module _ (w : World) (keyed : key_of args ≡ some key)
      (digest : args_hash s.to_string args ≡ hash) where
    -- A key with a complete row is answered from it.
    replays :
        (r : Value) (row : CallRecord)
        → s.from_str (s.to_string r) ≡ some r
        → IsRow key t.name hash w.conn row
        → is_complete row ≡ true
        → row.response_json ≡ some (s.to_string r)
        → ((dispatch_idempotent s t args w).0 ≡ ok (with_duplicate_flag r true))
          × ((dispatch_idempotent s t args w).1.acts ≡ w.acts)
    unfolding dispatch_idempotent stored
    replays r row round h c e =
        let seen : find (has_key key) w.conn.db.sends ≡ some row =
          find-rows key w.conn.db.sends ∙ ap first h.alone in
        let begun =
          begin_done (now_secs w) key t.name hash w.conn (s.raced w.acts w.conn) row h.up seen
            h.same_tool h.same_hash c in
        rw (dispatch_idempotent, keyed, digest, begun, stored, e, round) (refl, refl)

    -- The first call with a key.
    fresh-Ends :
        rows_of key w.conn.db ≡ [] → Ends s t args key hash (dispatch_idempotent s t args w)
    unfolding dispatch_idempotent find_call
    fresh-Ends none' =
        let c = s.raced w.acts w.conn in
        let now = now_secs w in
        let free : find (has_key key) c.db.sends ≡ none =
          find-rows key c.db.sends ∙ ap first (apart.raced_rows w.acts w.conn ∙ none') in
        elim (begin_fresh now key t.name hash w.conn c
          (find-rows key w.conn.db.sends ∙ ap first none') free) [
            | inr (e, refused) ↦
                rw (dispatch_idempotent, keyed, digest, refused, digest, refused)
                  (freed (bad_key e) _ (apart.raced_rows w.acts w.conn ∙ none'))
            | inl (begun, up) ↦
                let (row, alone, k, tool, h, n) = claimed_rows now key t.name hash c.db free in
                rw (dispatch_idempotent, keyed, digest, begun, digest, begun)
                  (act_claimed-Ends _ row
                    (record { alone = alone; up = up; keyed = k; same_tool = tool; same_hash = h })
                    n)
          ]

module _ (s : Surroundings) (t : ToolConfig) (args : Value) where
  dispatch-idempotent :
      t.idempotent ≡ true
      → {u : Unit {0}} → check_arguments t args ≡ ok u
      → (w : World) → dispatch s t args w ≡ dispatch_idempotent s t args w
  unfolding dispatch
  dispatch-idempotent idem good w = rw (dispatch, good, idem) refl

  -- A checked call with a fresh key has one of the two ends.
  dispatch-Ends :
      (key : String) (w : World)
      → IsApart s key
      → t.idempotent ≡ true
      → key_of args ≡ some key
      → rows_of key w.conn.db ≡ []
      → Ends s t args key (args_hash s.to_string args) (dispatch s t args w)
  unfolding dispatch
  dispatch-Ends key w apart idem keyed none' = elim (Result-cases (check_arguments t args)) [
    | inr (m, bad) ↦ rw (dispatch, bad) (freed (bad_arguments m) w none')
    | inl (u, good) ↦
        rw (dispatch-idempotent idem good w) (fresh-Ends s t args key _ apart w keyed refl none')
  ]

  checked :
      (w : World) (v : Value)
      → (dispatch s t args w).0 ≡ ok v
      → (u : Unit {0}) × (check_arguments t args ≡ ok u)
  unfolding dispatch
  checked w v e = elim (Result-cases (check_arguments t args)) [
    | inr (m, bad) ↦ absurd (ground arith)
    | inl found ↦ found
  ]

-- Where a first call with a key gets a result, the same call again, for as long as other calls leave
-- the key alone, gets the same result marked as a duplicate and acts no second time. The results that
-- the tool's action gives are taken to survive being printed and parsed.
pub dispatch_replays :
    (s : Surroundings) (t : ToolConfig) (args v : Value) (key : String) (w : World)
    → ((u : World) (r : Value)
        → (perform s t args u).0 ≡ ok r
        → s.from_str (s.to_string r) ≡ some r)
    → IsApart s key
    → t.idempotent ≡ true
    → key_of args ≡ some key
    → rows_of key w.conn.db ≡ []
    → (dispatch s t args w).0 ≡ ok v
    → (r : Value) × (v ≡ with_duplicate_flag r false)
      × ((dispatch s t args (dispatch s t args w).1).0 ≡ ok (with_duplicate_flag r true))
      × ((dispatch s t args (dispatch s t args w).1).1.acts ≡ (dispatch s t args w).1.acts)
dispatch_replays s t args v key w round apart idem keyed none' e =
    let (u, good) = checked s t args w v e in
    again good (dispatch s t args w) (dispatch-Ends s t args key w apart idem keyed none') e
  where
    again :
        {u : Unit {0}}
        → check_arguments t args ≡ ok u
        → (p : Result CallError Value × World) → Ends s t args key (args_hash s.to_string args) p
        → p.0 ≡ ok v
        → (r : Value) × (v ≡ with_duplicate_flag r false)
          × ((dispatch s t args p.1).0 ≡ ok (with_duplicate_flag r true))
          × ((dispatch s t args p.1).1.acts ≡ p.1.acts)
    again good p (done r row x y acted' h c stored_r) e' =
        let second =
          replays s t args key _ apart x keyed refl r row (round y r acted') h c stored_r in
        (
          r,
          cc,
          rw (dispatch-idempotent s t args idem good x) second.0,
          rw (dispatch-idempotent s t args idem good x) second.1,
        )
    again good p (freed m x gone) e' = cc

-- A first call with a key that gets no result leaves no row of the key behind, so it can be tried
-- again with the same key, where other calls leave the key alone.
pub dispatch_frees :
    (s : Surroundings) (t : ToolConfig) (args : Value) (key : String) (w : World) (m : CallError)
    → IsApart s key
    → t.idempotent ≡ true
    → key_of args ≡ some key
    → rows_of key w.conn.db ≡ []
    → (dispatch s t args w).0 ≡ err m
    → rows_of key (dispatch s t args w).1.conn.db ≡ []
dispatch_frees s t args key w m apart idem keyed none' e =
    ended (dispatch s t args w) (dispatch-Ends s t args key w apart idem keyed none') e
  where
    ended :
        (p : Result CallError Value × World)
        → Ends s t args key (args_hash s.to_string args) p
        → p.0 ≡ err m
        → rows_of key p.1.conn.db ≡ []
    ended p (done r row x y acted' h c stored_r) e' = cc
    ended p (freed m' x gone) e' = gone
