-- ===== src/Store.antt =====
-- crates/gatehound-core/src/store.rs: the tables of the SQLite database and the connection.
-- A timestamp is its number of seconds: the RFC 3339 texts that `now()` writes order like these.
-- A statement either answers or, as on a full disk or a locked file, fails and changes nothing.
pub mod Rules
pub mod Tokens
pub mod Pending
pub mod Calls
pub mod Requests
pub mod Meta
pub mod Keys
pub mod Ops
pub mod Access
use mcp_gatehound.Base.{
  ℕ, String, Bool, Option, some, none, List, [], Result, ok, err, if◌then◌else◌, is_empty, is_some,
  ◌==◌, ◌&&◌,
}

-- The `identities` table.
pub record IdentityRule : Type 0 where
  pub identity : String
  pub tool : String
  pub decision : String
  pub created_at : ℕ
  pub updated_at : ℕ

-- The `tokens` table.
pub record TokenRow : Type 0 where
  pub id : String
  pub name : String
  pub identity : String
  pub digest : String
  pub created_at : ℕ
  pub last_used_at : Option ℕ
  pub revoked_at : Option ℕ

-- The `pending` table.
pub record PendingRow : Type 0 where
  pub id : String
  pub ts : ℕ
  pub identity : String
  pub tool : String
  pub args_preview : Option String
  pub origin : Option String

-- The `sends` table.
pub record CallRecord : Type 0 where
  pub idempotency_key : String
  pub tool : String
  pub args_hash : String
  pub message_id : Option String
  pub ts : ℕ
  pub completed_at : Option ℕ
  pub response_json : Option String

abbrev pub is_complete : CallRecord → Bool
is_complete c = is_some c.completed_at

abbrev pub is_legacy : CallRecord → Bool
is_legacy c = is_empty c.tool

-- What a caller of `log_request` supplies; SQLite assigns the rest.
pub record NewRequestLog : Type 0 where
  pub identity : Option String
  pub client_name : Option String
  pub method : Option String
  pub tool : Option String
  pub args_json : Option String
  pub decision : Option String
  pub action_type : Option String
  pub upstream : Option String
  pub status : Option String
  pub error : Option String
  pub duration_ms : Option ℕ
  pub response_json : Option String
  pub token_id : Option String
  pub replayed : Option Bool
  pub origin : Option String
  pub replay_of : Option ℕ

-- `..Default::default()`
abbrev pub no_log : NewRequestLog
no_log = record {
  identity = none;
  client_name = none;
  method = none;
  tool = none;
  args_json = none;
  decision = none;
  action_type = none;
  upstream = none;
  status = none;
  error = none;
  duration_ms = none;
  response_json = none;
  token_id = none;
  replayed = none;
  origin = none;
  replay_of = none;
}

-- The `requests` table.
pub record RequestLog : Type 0 where
  pub id : ℕ
  pub ts : ℕ
  pub entry : NewRequestLog
  pub open entry use *

pub record MetaRow : Type 0 where
  pub k : String
  pub v : String

-- `last_request` is the counter behind AUTOINCREMENT: no id is handed out twice.
pub record Db : Type 0 where
  pub requests : List RequestLog
  pub last_request : ℕ
  pub identities : List IdentityRule
  pub pending : List PendingRow
  pub sends : List CallRecord
  pub tokens : List TokenRow
  pub metas : List MetaRow

-- SCHEMA, run on a file with no tables.
abbrev pub empty_db : Db
empty_db = record {
  requests = [];
  last_request = 0;
  identities = [];
  pending = [];
  sends = [];
  tokens = [];
  metas = [];
}

pub data StoreError : Type 0 where
  -- the engine refused or could not run the statement
  unavailable : StoreError
  -- a primary key is taken
  constraint : StoreError

-- The connection, and whether SQLite answers reads on it at present.
pub record Conn : Type 0 where
  pub db : Db
  pub up : Bool

abbrev pub query {ℓ} : {A : Type ℓ} → Conn → (Db → A) → Result StoreError A
query c read = if c.up then ok (read c.db) else err unavailable
