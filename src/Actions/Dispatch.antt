-- ===== src/Actions/Dispatch.antt =====
-- crates/gatehound-core/src/actions/mod.rs: one tool call, from its checked arguments to its result.
-- Upstreams and runners are the engine's, by name; what one answers may depend on how many calls acted
-- before. `serde_json`'s printer and parser stand in the record of the surroundings.
pub mod Acts
pub mod Rows
pub mod Replay
use mcp_gatehound.Base.{
  ℕ, ◌+◌, ◌/◌, suc, String, Bool, true, false, not, Option, some, none, List, [], ◌∷◌, ◌++◌, ◌+++◌,
  ◌==◌, Result, ok, err, is_empty, trim, if◌then◌else◌, or_fail, ◌>>=◌,
}
use mcp_gatehound.Json.{
  Value, Fields, Num, null, bool, num, str, arr, obj, end, field, get, as_str, insert_field,
  is_obj_or_arr,
}
use mcp_gatehound.Config.{ToolConfig, Action, proxy, exec, script, idempotency_key}
use mcp_gatehound.Config.Arguments.{ArgError, check_arguments}
use mcp_gatehound.Store.{CallRecord, Conn, StoreError}
use mcp_gatehound.Actions.Exec.{Vars}
use mcp_gatehound.Actions.Limits.{RateLimiter, acquire, commit}
use mcp_gatehound.Actions.Idempotency.{
  IdempotencyCheck, proceed, already_done, KeyError, args_hash, begin_idempotent, complete, release,
}

pub data CallError : Type 0 where
  bad_arguments : ArgError → CallError
  key_required : CallError
  bad_key : KeyError → CallError
  rate_limited : String → CallError
  not_configured not_scalar failed : String → CallError
  not_recorded : StoreError → CallError

-- What a runner returns.
pub record ExecOutput : Type 0 where
  pub stdout : String
  pub stderr : String
  pub truncated : Bool
  pub fallback : Option String

-- What stands around the engine. `took` is how long the n-th act ran, `meantime` what other calls did
-- to the database while it ran, `raced` what they did between the look-up and the claim of a key.
pub record Surroundings : Type 0 where
  pub to_string : Value → String
  pub from_str : String → Option Value
  pub number_text : Num → String
  pub upstream : String → Option (String → Value → ℕ → Result String Value)
  pub runner : String → Option (Vars → ℕ → Result String ExecOutput)
  pub took : ℕ → ℕ
  pub meantime : ℕ → Conn → Conn
  pub raced : ℕ → Conn → Conn

-- `acts` counts the actions performed so far.
pub record World : Type 0 where
  pub conn : Conn
  pub limits : String → Option RateLimiter
  pub now_ms : ℕ
  pub acts : ℕ

abbrev pub now_secs : World → ℕ
now_secs w = w.now_ms / 1000

unfoldable pub answered : (String → Option Value) → String → Value
answered from_str stdout = elim (from_str (trim stdout)) [
  | none ↦ str stdout
  | some v ↦ if is_obj_or_arr v then v else str stdout
]

unfoldable pub with_duplicate_flag : Value → Bool → Value
with_duplicate_flag (obj map) duplicate = obj (insert_field "duplicate" (bool duplicate) map)
with_duplicate_flag value duplicate =
    obj (field "duplicate" (bool duplicate) (field "result" value end))

-- One argument as a variable: none where it is null.
abbrev scalar : (Num → String) → String → Value → Result CallError (Option String)
scalar number_text k (str s) = ok (some s)
scalar number_text k (num n) = ok (some (number_text n))
scalar number_text k (bool b) = ok (some (if b then "true" else "false"))
scalar number_text k null = ok none
scalar number_text k (arr _) = err (not_scalar k)
scalar number_text k (obj _) = err (not_scalar k)

abbrev with_var : String → Option String → Vars → Vars
with_var k none vars = vars
with_var k (some s) vars = (k, s) ∷ vars

pub field_vars : (Num → String) → Fields → Result CallError Vars
field_vars number_text end = ok []
field_vars number_text (field k v rest) =
    scalar number_text k v >>= λ s. field_vars number_text rest >>= λ vars. ok (with_var k s vars)

unfoldable pub scalar_vars : (Num → String) → Value → Result CallError Vars
unfolding field_vars
scalar_vars number_text (obj map) = field_vars number_text map
scalar_vars number_text _ = ok []

abbrev exec_result : (String → Option Value) → ExecOutput → Value
exec_result from_str out =
    let map =
      field "stdout" (answered from_str out.stdout) (field "truncated" (bool out.truncated) end) in
    elim out.fallback [
      | none ↦ obj map
      | some label ↦ obj (insert_field "fallback" (str label) map)
    ]

abbrev or_failed : Result String Value → Result CallError Value
or_failed (ok v) = ok v
or_failed (err e) = err (failed e)

abbrev run_output : (String → Option Value) → Result String ExecOutput → Result CallError Value
run_output from_str (ok out) = ok (exec_result from_str out)
run_output from_str (err e) = err (failed e)

-- The act itself has happened: its time has passed and other calls have run.
abbrev acted : Surroundings → World → World
acted s w = record w {
  conn = s.meantime w.acts w.conn;
  now_ms = w.now_ms + s.took w.acts;
  acts = suc w.acts;
}

abbrev pub perform_exec : Surroundings → String → Value → World → Result CallError Value × World
perform_exec s name args w = elim (s.runner name) [
  | none ↦ (err (not_configured name), w)
  | some run ↦ elim (scalar_vars s.number_text args) [
    | err e ↦ (err e, w)
    | ok vars ↦ (run_output s.from_str (run vars w.acts), acted s w)
  ]
]

unfoldable pub perform : Surroundings → ToolConfig → Value → World → Result CallError Value × World
perform s t args w = elim t.action [
  | proxy upstream op ↦ elim (s.upstream upstream) [
    | none ↦ (err (not_configured upstream), w)
    | some call ↦ (or_failed (call op args w.acts), acted s w)
  ]
  | exec spec ↦ perform_exec s t.name args w
  | script spec ↦ perform_exec s t.name args w
]

abbrev with_limiter : String → RateLimiter → World → World
with_limiter name rl w = record w { limits = λ n. if n == name then some rl else w.limits n }

-- The slot of a rate-limited tool, with its wait slept.
unfoldable pub acquire_slot : ToolConfig → World → Result CallError (Unit {0}) × World
acquire_slot t w = elim (w.limits t.name) [
  | none ↦ (ok tt, w)
  | some rl ↦
      let (answer, rl') = acquire w.now_ms rl in
      let w' = with_limiter t.name rl' w in
      elim answer [
        | err e ↦ (err (rate_limited e), w')
        | ok wait ↦ (ok tt, record w' { now_ms = w.now_ms + wait })
      ]
]

unfoldable pub commit_slot : ToolConfig → World → World
commit_slot t w = elim (w.limits t.name) [
  | none ↦ w
  | some rl ↦ with_limiter t.name (commit w.now_ms rl) w
]

-- Behind the limiter: act, and count it where it answered.
unfoldable pub perform_limited :
    Surroundings → ToolConfig → Value → World → Result CallError Value × World
perform_limited s t args w =
    let (slot, w1) = acquire_slot t w in
    elim slot [
      | err e ↦ (err e, w1)
      | ok _ ↦
          let (result, w2) = perform s t args w1 in
          elim result [ ok v ↦ (ok v, commit_slot t w2) | err e ↦ (err e, w2) ]
    ]

abbrev trimmed_key : Option String → Option String
trimmed_key none = none
trimmed_key (some s) = let k = trim s in if is_empty k then none else some k

abbrev text_of : Option Value → Option String
text_of none = none
text_of (some v) = as_str v

unfoldable pub key_of : Value → Option String
key_of args = trimmed_key (text_of (get idempotency_key args))

abbrev text_or_null : Option String → Value
text_or_null none = null
text_or_null (some s) = str s

abbrev parsed : (String → Option Value) → Option String → Option Value
parsed from_str none = none
parsed from_str (some s) = from_str s

-- The stored response of a completed call.
unfoldable pub stored : (String → Option Value) → CallRecord → Value
stored from_str rec = elim (parsed from_str rec.response_json) [
  | some v ↦ v
  | none ↦ obj (field "message_id" (text_or_null rec.message_id) (field "ok" (bool true) end))
]

-- The claimed call: its key is completed with the result, or released.
unfoldable pub act_claimed :
    Surroundings → ToolConfig → Value → String → World → Result CallError Value × World
act_claimed s t args key w =
    let (result, w') = perform_limited s t args w in
    elim result [
      | err e ↦ (err e, record w' { conn = release key w'.conn })
      | ok v ↦
          let (recorded, c) =
            complete (now_secs w') key (text_of (get "message_id" v)) (s.to_string v) w'.conn in
          elim recorded [
            | ok _ ↦ (ok (with_duplicate_flag v false), record w' { conn = c })
            | err e ↦ (err (not_recorded e), record w' { conn = release key c })
          ]
    ]

unfoldable pub dispatch_idempotent :
    Surroundings → ToolConfig → Value → World → Result CallError Value × World
dispatch_idempotent s t args w = elim (key_of args) [
  | none ↦ (err key_required, w)
  | some key ↦
      let (check, c) =
        begin_idempotent (now_secs w) key t.name (args_hash s.to_string args) w.conn
          (s.raced w.acts w.conn) in
      let w' = record w { conn = c } in
      elim check [
        | err e ↦ (err (bad_key e), w')
        | ok (already_done rec) ↦ (ok (with_duplicate_flag (stored s.from_str rec) true), w')
        | ok (proceed k) ↦ act_claimed s t args k w'
      ]
]

unfoldable pub dispatch : Surroundings → ToolConfig → Value → World → Result CallError Value × World
dispatch s t args w = elim (check_arguments t args) [
  | err e ↦ (err (bad_arguments e), w)
  | ok _ ↦ if t.idempotent then dispatch_idempotent s t args w else perform_limited s t args w
]
