-- ===== src/Actions/Dispatch/Rows.antt =====
-- The rows of one key while its call runs, and what the call may leave.
use mcp_gatehound.Base.{
  same_texts, ℕ, ◌≤◌, suc, String, true, false, not, Option, some, none, List, [], ◌∷◌, ◌++◌, ◌&&◌,
  ◌≡◌, refl, ◌∙◌, arith, Result, ok, err, is_some, find, retain, update_where,
}
use mcp_gatehound.Json.{Value}
use mcp_gatehound.Config.{ToolConfig}
use mcp_gatehound.Store.{CallRecord, Db, Conn, is_complete}
use mcp_gatehound.Store.Calls.{has_key, find_call, claim_call, complete_call, release_call}
use mcp_gatehound.Actions.Idempotency.{complete, release}
use mcp_gatehound.Actions.Dispatch.Acts.{After, same, later}
use mcp_gatehound.Actions.Dispatch.{CallError, Surroundings, World, perform, with_duplicate_flag}

abbrev pub rows_of : String → Db → List CallRecord
rows_of key db = retain (has_key key) db.sends

abbrev pub first : List CallRecord → Option CallRecord
first [] = none
first (c ∷ cs) = some c

-- Other calls run on other keys: whatever they do in the meantime, the rows of this key stay as they
-- are, and a database that answers goes on answering.
pub record IsApart (s : Surroundings) (key : String) : Type 0 where
  pub meantime_rows : (n : ℕ) (c : Conn) → rows_of key (s.meantime n c).db ≡ rows_of key c.db
  pub meantime_up : (n : ℕ) (c : Conn) → (s.meantime n c).up ≡ c.up
  pub raced_rows : (n : ℕ) (c : Conn) → rows_of key (s.raced n c).db ≡ rows_of key c.db
  pub raced_up : (n : ℕ) (c : Conn) → (s.raced n c).up ≡ c.up

pub find-rows :
    (key : String) (cs : List CallRecord) → find (has_key key) cs ≡ first (retain (has_key key) cs)
find-rows key [] = refl
find-rows key (c ∷ cs) = ground (arith, find-rows key cs)

rows-append :
    (key : String) (c : CallRecord) (cs : List CallRecord)
    → c.idempotency_key ≡ key
    → find (has_key key) cs ≡ none
    → retain (has_key key) (cs ++ c ∷ []) ≡ c ∷ []
rows-append key c [] e h = grind same_texts
rows-append key c (x ∷ cs) e h = ground (arith, rows-append key c cs)

rows-update :
    (key : String) (f : CallRecord → CallRecord) (cs : List CallRecord)
    → ((c : CallRecord) → (f c).idempotency_key ≡ c.idempotency_key)
    → retain (has_key key) (update_where (has_key key) f cs)
      ≡ update_where (has_key key) f (retain (has_key key) cs)
rows-update key f [] e = refl
rows-update key f (c ∷ cs) e = ground (arith, e c, rows-update key f cs e)

rows-release :
    (key : String) (cs : List CallRecord)
    → retain (has_key key) (retain (λ c. not (has_key key c && not (is_some c.completed_at))) cs)
      ≡ retain (λ c. is_some c.completed_at) (retain (has_key key) cs)
rows-release key [] = refl
rows-release key (c ∷ cs) = ground (arith, rows-release key cs)

module _ (s : Surroundings) (key : String) (apart : IsApart s key) where
  pub After-rows :
      (w u : World)
      → After s w u
      → (rows_of key u.conn.db ≡ rows_of key w.conn.db) × (u.conn.up ≡ w.conn.up)
  After-rows w u (same _ c a) = rw c (refl, refl)
  After-rows w u (later _ n c a) = rw c (apart.meantime_rows n w.conn, apart.meantime_up n w.conn)

  After-acts : (w u : World) → After s w u → (w.acts ≤ u.acts) × (u.acts ≤ suc w.acts)
  After-acts w u (same _ c a) = (omega arith, omega arith)
  After-acts w u (later _ n c a) = (omega arith, omega arith)

pub claimed_rows :
    (now : ℕ) (key tool hash : String) (db : Db)
    → find_call db key ≡ none
    → (row : CallRecord) × (rows_of key (claim_call now key tool hash db).1 ≡ row ∷ [])
      × (row.idempotency_key ≡ key)
      × (row.tool ≡ tool)
      × (row.args_hash ≡ hash)
      × (row.completed_at ≡ none)
unfolding find_call claim_call
claimed_rows now key tool hash db free =
    let gone : find (has_key key) db.sends ≡ none = free in
    (row, rw (gone, claim_call) (rows-append key row db.sends refl free), refl, refl, refl, refl)
  where
    row : CallRecord
    row = record {
      idempotency_key = key;
      tool = tool;
      args_hash = hash;
      message_id = none;
      ts = now;
      completed_at = none;
      response_json = none;
    }

pub completed_rows :
    (now : ℕ) (key : String) (m : Option String) (response : String) (db : Db) (row : CallRecord)
    → rows_of key db ≡ row ∷ []
    → row.idempotency_key ≡ key
    → rows_of key (complete_call now key m response db)
      ≡ record row {
        message_id = m;
        response_json = some response;
        ts = now;
        completed_at = some now;
      }
        ∷ []
unfolding complete_call
completed_rows now key m response db row h k =
    rows-update key _ db.sends (λ c. refl) ∙ rw h (grind same_texts)

pub released_rows :
    (key : String) (db : Db) (row : CallRecord)
    → rows_of key db ≡ row ∷ []
    → row.completed_at ≡ none
    → rows_of key (release_call key db) ≡ []
unfolding release_call
released_rows key db row h n = rows-release key db.sends ∙ rw h (ground arith)

pub complete-up :
    (now : ℕ) (key : String) (m : Option String) (response : String) (c : Conn)
    → c.up ≡ true
    → complete now key m response c
      ≡ (ok tt, record c { db = complete_call now key m response c.db })
unfolding complete
complete-up now key m response c h = rw (complete, h) refl

pub release-up :
    (key : String) (c : Conn)
    → c.up ≡ true
    → release key c ≡ record c { db = release_call key c.db }
unfolding release
release-up key c h = rw (release, h) refl

-- A row that is there alone for its key, for one tool and one digest of arguments.
pub record IsRow (key tool hash : String) (c : Conn) (row : CallRecord) : Type 0 where
  pub alone : rows_of key c.db ≡ row ∷ []
  pub up : c.up ≡ true
  pub keyed : row.idempotency_key ≡ key
  pub same_tool : row.tool ≡ tool
  pub same_hash : row.args_hash ≡ hash

-- What a claimed call leaves: the first result on record, or no row of the key.
pub data Ends (s : Surroundings) (t : ToolConfig) (args : Value) (key hash : String)
    : Result CallError Value × World → Type 0 where
  done :
      (r : Value) (row : CallRecord) (u x : World)
      → (perform s t args x).0 ≡ ok r
      → IsRow key t.name hash u.conn row
      → is_complete row ≡ true
      → row.response_json ≡ some (s.to_string r)
      → Ends s t args key hash (ok (with_duplicate_flag r false), u)
  freed :
      (e : CallError) (u : World) → rows_of key u.conn.db ≡ [] → Ends s t args key hash (err e, u)
