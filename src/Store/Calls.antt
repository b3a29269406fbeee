-- ===== src/Store/Calls.antt =====
-- crates/gatehound-core/src/store.rs: the `sends` table, one row for each idempotency key.
use mcp_gatehound.Base.{
  ℕ, ◌-◌, ◌*◌, String, Bool, true, false, not, Option, some, none, [], ◌∷◌, ◌++◌, ◌==◌, ◌&&◌, find,
  retain, update_where, count_where, leb, is_some,
}
use mcp_gatehound.Store.{CallRecord, Db}

abbrev pub has_key : String → CallRecord → Bool
has_key key c = c.idempotency_key == key

unfoldable pub find_call : Db → String → Option CallRecord
find_call db key = find (has_key key) db.sends

-- `INSERT OR IGNORE`: whether the key was free.
unfoldable pub claim_call : ℕ → String → String → String → Db → Bool × Db
claim_call now key tool args_hash db =
    let row : CallRecord = record {
      idempotency_key = key;
      tool = tool;
      args_hash = args_hash;
      message_id = none;
      ts = now;
      completed_at = none;
      response_json = none;
    } in
    elim (find (has_key key) db.sends) [
      | some _ ↦ (false, db)
      | none ↦ (true, record db { sends = db.sends ++ row ∷ [] })
    ]

unfoldable pub complete_call : ℕ → String → Option String → String → Db → Db
complete_call now key message_id response db = record db {
  sends =
      update_where (has_key key)
        (λ c. record c {
          message_id = message_id;
          response_json = some response;
          ts = now;
          completed_at = some now;
        })
        db.sends;
}

-- `DELETE … WHERE idempotency_key = ?1 AND completed_at IS NULL`
unfoldable pub release_call : String → Db → Db
release_call key db = record db {
  sends = retain (λ c. not (has_key key c && not (is_some c.completed_at))) db.sends;
}

unfoldable pub calls_since : ℕ → ℕ → Db → ℕ
calls_since now minutes db =
    count_where (λ c. leb (now - minutes * 60) c.ts && is_some c.completed_at) db.sends
