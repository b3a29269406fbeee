-- ===== src/Actions/Idempotency/Claims.antt =====
-- The rows of keys over calls that race, succeed and fail.
use mcp_gatehound.Base.{
  same_texts, ℕ, String, true, false, some, none, List, [], ◌∷◌, ◌++◌, ◌==◌, ◌≡◌, ◌≢◌, ◌⊎◌, arith,
  ap, ◌∙◌, refl, ok, err, is_some, find, if◌then◌else◌, inl, inr, Bool-cases, Option-cases,
}
use mcp_gatehound.Store.{CallRecord, Conn, is_complete, is_legacy, unavailable}
use mcp_gatehound.Store.Calls.{has_key, find_call, claim_call}
use mcp_gatehound.Actions.Idempotency.{
  store_failed, proceed, already_done, KeyError, in_flight, other_tool, other_arguments,
  begin_idempotent,
}

find-append :
    (key k : String) (c : CallRecord) (cs : List CallRecord)
    → c.idempotency_key ≡ key
    → find (has_key key) cs ≡ none
    → find (has_key k) (cs ++ c ∷ []) ≡ (if key == k then some c else find (has_key k) cs)
find-append key k c [] e h = grind same_texts
find-append key k c (x ∷ cs) e h = grind (same_texts, find-append key k c cs)

-- Where a row of the key stands when the claim is made, the claim is refused, whatever was seen before.
pub one_claim :
    (now : ℕ) (key tool hash k : String) (seen c : Conn)
    → is_some (find_call c.db key) ≡ true
    → (begin_idempotent now key tool hash seen c).0 ≢ ok (proceed k)
unfolding begin_idempotent find_call claim_call
one_claim now key tool hash k seen c h e = elim (Bool-cases seen.up) [
  | inr down ↦ ground arith
  | inl up ↦ elim (Option-cases (find (has_key key) seen.db.sends)) [
    | inl unseen ↦ elim (Option-cases (find (has_key key) c.db.sends)) [
      | inl gone ↦ ground arith
      | inr (row, there) ↦ elim (Bool-cases c.up) [ inl on ↦ ground arith | inr off ↦ ground arith ]
    ]
    | inr (row, found) ↦ ground arith
  ]
]

-- A call that proceeds found no row of its key when it claimed it and leaves one.
proceed-row :
    (now : ℕ) (key tool hash k : String) (seen c c1 : Conn)
    → begin_idempotent now key tool hash seen c ≡ (ok (proceed k), c1)
    → is_some (find_call c1.db key) ≡ true
unfolding begin_idempotent find_call claim_call
proceed-row now key tool hash k seen c c1 e = elim (Bool-cases seen.up) [
  | inr down ↦ absurd (ground arith)
  | inl up ↦ elim (Option-cases (find (has_key key) seen.db.sends)) [
    | inr (row, found) ↦ absurd (ground arith)
    | inl unseen ↦ elim (Bool-cases c.up) [
      | inr off ↦ absurd (ground arith)
      | inl on ↦ elim (Option-cases (find (has_key key) c.db.sends)) [
        | inr (row, there) ↦ absurd (ground arith)
        | inl free ↦
            let row : CallRecord = record {
              idempotency_key = key;
              tool = tool;
              args_hash = hash;
              message_id = none;
              ts = now;
              completed_at = none;
              response_json = none;
            } in
            let after = find-append key key row c.db.sends refl free in grind same_texts
      ]
    ]
  ]
]

-- Of two calls that race for one key, whatever each of them saw before, not both proceed: where the first
-- proceeds it leaves a row of the key, and while that row stands no claim of the key, by whatever tool and
-- for whatever arguments, lets a second call proceed.
pub one_proceeds :
    (now : ℕ) (key tool hash k : String) (seen c c1 : Conn) (later : ℕ) (tool2 hash2 k2 : String)
    (seen2 c2 : Conn)
    → begin_idempotent now key tool hash seen c ≡ (ok (proceed k), c1)
    → find_call c2.db key ≡ find_call c1.db key
    → (is_some (find_call c1.db key) ≡ true)
      × ((begin_idempotent later key tool2 hash2 seen2 c2).0 ≢ ok (proceed k2))
one_proceeds now key tool hash k seen c c1 later tool2 hash2 k2 seen2 c2 first kept =
    let row = proceed-row now key tool hash k seen c c1 first in
    (row, one_claim later key tool2 hash2 k2 seen2 c2 (ap is_some kept ∙ row))

-- A key without a row is claimed, unless the database does not answer.
pub begin_fresh :
    (now : ℕ) (key tool hash : String) (seen c : Conn)
    → find_call seen.db key ≡ none
    → find_call c.db key ≡ none
    → ((begin_idempotent now key tool hash seen c
          ≡ (ok (proceed key), record c { db = (claim_call now key tool hash c.db).1 }))
        × (c.up ≡ true))
      ⊎ ((e : KeyError) × (begin_idempotent now key tool hash seen c ≡ (err e, c)))
unfolding begin_idempotent find_call claim_call
begin_fresh now key tool hash seen c none' free = elim (Bool-cases seen.up) [
  | inr down ↦ inr (store_failed unavailable, ground arith)
  | inl up ↦ elim (Bool-cases c.up) [
    | inr off ↦ inr (store_failed unavailable, ground arith)
    | inl on ↦ inl (ground arith, on)
  ]
]

pub begin_done :
    (now : ℕ) (key tool hash : String) (seen c : Conn) (row : CallRecord)
    → seen.up ≡ true
    → find (has_key key) seen.db.sends ≡ some row
    → row.tool ≡ tool
    → row.args_hash ≡ hash
    → is_complete row ≡ true
    → begin_idempotent now key tool hash seen c ≡ (ok (already_done row), c)
unfolding begin_idempotent find_call
begin_done now key tool hash seen c row up there t h done = grind same_texts

-- A key whose call is still running is refused, and so is a key of another tool's call or of other
-- arguments; the database is left as it was.
pub begin_refused :
    (now : ℕ) (key tool hash : String) (seen c : Conn) (row : CallRecord)
    → seen.up ≡ true
    → find_call seen.db key ≡ some row
    → is_legacy row ≡ false
    → (begin_idempotent now key tool hash seen c ≡ (
      if row.tool == tool
          then if row.args_hash == hash
            then if is_complete row then ok (already_done row) else err in_flight
            else err other_arguments
          else err other_tool,
      c,
    ))
unfolding begin_idempotent find_call
begin_refused now key tool hash seen c row up there new = ground arith
