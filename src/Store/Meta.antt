-- ===== src/Store/Meta.antt =====
-- crates/gatehound-core/src/store.rs: the `meta` table.
use mcp_gatehound.Base.{
  same_texts, String, Option, some, none, List, [], ◌∷◌, ◌==◌, ◌≡◌, refl, if◌then◌else◌,
}
use mcp_gatehound.Store.{MetaRow, Db}

unfoldable pub upsert_meta : String → String → List MetaRow → List MetaRow
upsert_meta k v [] = record { k = k; v = v } ∷ []
upsert_meta k v (m ∷ ms) = if m.k == k then record m { v = v } ∷ ms else m ∷ upsert_meta k v ms

unfoldable pub set_meta : String → String → Db → Db
unfolding upsert_meta
set_meta k v db = record db { metas = upsert_meta k v db.metas }

select_meta : String → List MetaRow → Option String
select_meta k [] = none
select_meta k (m ∷ ms) = if m.k == k then some m.v else select_meta k ms

unfoldable pub get_meta : String → Db → Option String
unfolding select_meta
get_meta k db = select_meta k db.metas

pub get_meta-set_meta :
    (k j v : String) (db : Db)
    → get_meta j (set_meta k v db) ≡ (if k == j then some v else get_meta j db)
unfolding get_meta set_meta
get_meta-set_meta k j v db = select-upsert db.metas
  where
    select-upsert :
        (ms : List MetaRow)
        → select_meta j (upsert_meta k v ms) ≡ (if k == j then some v else select_meta j ms)
    select-upsert [] = refl
    select-upsert (m ∷ ms) = grind (same_texts, select-upsert ms)
