-- ===== src/Actions/Idempotency.antt =====
-- crates/gatehound-core/src/actions/proxy.rs: a key names one call, and is claimed before the call acts.
-- `serde_json::to_string` stands as an argument.
pub mod Claims
use mcp_gatehound.Base.{
  ℕ, zero, suc, ◌*◌, ◌%◌, ◌/◌, ◌^◌, String, Bool, true, false, not, Option, some, none, List, [],
  ◌∷◌, ◌+++◌, ◌==◌, Result, ok, err, ◌&&◌, bytes, bit_xor, if◌then◌else◌,
}
use Prim.Native.String.{char_at}
use Prim.Native.String as Str
use mcp_gatehound.Json.{Value, Fields, obj, end, field, null, bool, num, str, arr}
use mcp_gatehound.Config.{idempotency_key}
use mcp_gatehound.Store.{
  CallRecord, Db, Conn, StoreError, unavailable, query, is_legacy, is_complete,
}
use mcp_gatehound.Store.Calls.{find_call, claim_call, complete_call, release_call}

abbrev pub w64 : ℕ
w64 = 2 ^ 64

-- FNV-1a.
unfoldable pub fnv : ℕ → List ℕ → ℕ
fnv hash [] = hash
fnv hash (b ∷ bs) = fnv ((bit_xor hash b * 0x100000001b3) % w64) bs

-- `{hash:0nx}`: n digits of base 16
unfoldable pub hex : ℕ → ℕ → String
hex zero n = ""
hex (suc digits) n = hex digits (n / 16) +++ Str.◌∷◌ (char_at "0123456789abcdef" (n % 16)) ""

unfoldable pub text_hash : String → String
text_hash text = hex 16 (fnv 0xcbf29ce484222325 (bytes text))

-- `filter(|(k, _)| k != "idempotency_key")`
unfoldable pub without_key : Fields → Fields
without_key end = end
without_key (field k v fs) =
    let rest = without_key fs in if k == idempotency_key then rest else field k v rest

unfoldable pub args_hash : (Value → String) → Value → String
args_hash to_string (obj map) = text_hash (to_string (obj (without_key map)))
args_hash to_string other = text_hash (to_string other)

-- A claim is its key: `complete` or `release` ends it.
pub data IdempotencyCheck : Type 0 where
  proceed : (key : String) → IdempotencyCheck
  already_done : CallRecord → IdempotencyCheck

pub data KeyError : Type 0 where
  other_tool other_arguments in_flight : KeyError
  store_failed : StoreError → KeyError

abbrev reuse : String → String → CallRecord → Result KeyError IdempotencyCheck
reuse tool hash existing =
    if not (is_legacy existing) && not (existing.tool == tool)
    then err other_tool
    else if not (is_legacy existing) && not (existing.args_hash == hash)
    then err other_arguments
    else if is_complete existing
    then ok (already_done existing)
    else err in_flight

abbrev answered_claim : String → Conn → Bool × Db → Result KeyError IdempotencyCheck × Conn
answered_claim key c (true, db) = (ok (proceed key), record c { db = db })
answered_claim key c (false, db) = (err in_flight, record c { db = db })

-- The database as the look-up saw it, and as the claim found it: other calls run in between.
unfoldable pub begin_idempotent :
    ℕ → String → String → String → Conn → Conn → Result KeyError IdempotencyCheck × Conn
begin_idempotent now key tool hash seen c = elim (query seen (λ db. find_call db key)) [
  | err e ↦ (err (store_failed e), c)
  | ok (some existing) ↦ (reuse tool hash existing, c)
  | ok none ↦
      if c.up
      then answered_claim key c (claim_call now key tool hash c.db)
      else (err (store_failed unavailable), c)
]

-- `IdempotencyClaim::complete`; where it fails the claim is dropped.
unfoldable pub complete :
    ℕ → String → Option String → String → Conn → Result StoreError (Unit {0}) × Conn
complete now key message_id response c =
    if c.up
    then (ok tt, record c { db = complete_call now key message_id response c.db })
    else (err unavailable, c)

-- `Drop for IdempotencyClaim`
unfoldable pub release : String → Conn → Conn
release key c = if c.up then record c { db = release_call key c.db } else c
