-- ===== src/Store/Pending.antt =====
-- crates/gatehound-core/src/store.rs: the `pending` table, one row for each held call.
use mcp_gatehound.Base.{
  ℕ, String, Bool, not, Option, some, List, [], ◌∷◌, ◌++◌, ◌==◌, any, retain, leb, length,
  if◌then◌else◌, Result, ok, err, sort_by,
}
use mcp_gatehound.Store.{PendingRow, Db, StoreError, constraint}

abbrev pub has_id : String → PendingRow → Bool
has_id id p = p.id == id

unfoldable pub add_pending :
    ℕ → String → String → String → String → Option String → Db → Result StoreError Db
add_pending now id identity tool preview origin db =
    let row : PendingRow = record {
      id = id;
      ts = now;
      identity = identity;
      tool = tool;
      args_preview = some preview;
      origin = origin;
    } in
    if any (has_id id) db.pending
    then err constraint
    else ok (record db { pending = db.pending ++ row ∷ [] })

unfoldable pub remove_pending : String → Db → Db
remove_pending id db = record db { pending = retain (λ p. not (has_id id p)) db.pending }

-- `ORDER BY ts`
unfoldable pub list_pending : Db → List PendingRow
list_pending db = sort_by (λ a b. leb a.ts b.ts) db.pending

unfoldable pub clear_pending : Db → ℕ × Db
clear_pending db = (length db.pending, record db { pending = [] })
