-- ===== src/Tests/Actions.antt =====
-- Calls of a tool that is idempotent and rate-limited, and a command line.
use mcp_gatehound.Actions.Dispatch.{
  acquire_slot, act_claimed, commit_slot, dispatch_idempotent, key_of, perform_limited,
}
use mcp_gatehound.Json.{get, get_field}
use mcp_gatehound.Config.Arguments.{check_arguments}
use mcp_gatehound.Store.Calls.{claim_call}
use mcp_gatehound.Actions.Idempotency.{complete}
use mcp_gatehound.Actions.Limits.{spacing_left}
use mcp_gatehound.Store.Calls.{find_call}
use mcp_gatehound.Actions.Exec.{
  is_plain_number, placeholders, push_checked, push_pair, push_rendered, render, render_step,
}
use mathlib.Core.List.{flat_map}
use mcp_gatehound.Base.{
  String, true, false, some, none, List, [], ◌∷◌, ◌++◌, ◌≡◌, ◌≢◌, refl, arith, Result, ok, err,
  is_ok, is_some, ltb, count_where, ◌==◌, if◌then◌else◌,
}
use mcp_gatehound.Json.{Value, obj, str, field, end}
use mcp_gatehound.Config.{ToolConfig, ExecSpec, ArgumentDef, RateLimit, string, proxy}
use mcp_gatehound.Store.{CallRecord, empty_db, Conn}
use mcp_gatehound.Actions.Limits.{commit, spacing_left, acquire, is_recent, new}
use mcp_gatehound.Actions.Limits.Window.{Attempt, attempt, attempts, start, is_ok-acquire}
use mcp_gatehound.Actions.Idempotency.{proceed, begin_idempotent}
use mcp_gatehound.Actions.Idempotency.Claims.{one_proceeds}
use mcp_gatehound.Actions.Exec.{Vars, build_argv, appended, read_capped}
use mcp_gatehound.Actions.Exec.Argv.{Rendered, Pairs, build_argv_sound}
use mcp_gatehound.Actions.Exec.Capped.{read_capped_lem}
use mcp_gatehound.Actions.Dispatch.{
  failed, Surroundings, World, dispatch, perform, with_duplicate_flag,
}
use mcp_gatehound.Actions.Dispatch.Rows.{rows_of, IsApart}
use mcp_gatehound.Actions.Dispatch.Replay.{dispatch_replays, dispatch_frees}

abbrev limit : RateLimit
limit = record { per_hour = 2; min_spacing_secs = 5 }

abbrev two_calls : List Attempt
two_calls = record { at = 1000; ran = some 200 } ∷ record { at = 7000; ran = none } ∷ []

is_ok-acquire_example :
    is_ok (acquire 9000 (attempts two_calls (start limit)).limiter).0
    ≡ ltb (count_where (is_recent 9000) (attempts two_calls (start limit)).sent) 2
unfolding attempts attempt acquire new spacing_left commit
is_ok-acquire_example =
    is_ok-acquire limit two_calls 9000 (omega arith, (omega arith, tt)) (omega arith)

abbrev running : CallRecord
running = record {
  idempotency_key = "k1";
  tool = "send";
  args_hash = "h";
  message_id = none;
  ts = 3;
  completed_at = none;
  response_json = none;
}

abbrev busy : Conn
busy = record { db = record empty_db { sends = running ∷ [] }; up = true }

abbrev fresh : Conn
fresh = record { db = empty_db; up = true }

one_proceeds_example :
    (is_some (find_call busy.db "k1") ≡ true)
    × ((begin_idempotent 4 "k1" "send" "h" fresh busy).0 ≢ ok (proceed "k1"))
unfolding begin_idempotent find_call claim_call
one_proceeds_example =
    one_proceeds 3 "k1" "send" "h" "k1" fresh fresh busy 4 "send" "h" "k1" fresh busy refl refl

abbrev spec : ExecSpec
spec = record {
  cmd = "git";
  args = "log" ∷ "{ref}" ∷ [];
  stdin = none;
  timeout_secs = 10;
  max_output_bytes = 4096;
  max_concurrency = 1;
  env = [];
  cwd = none;
  fallback = none;
}

abbrev declared : List ArgumentDef
declared =
    record { name = "ref"; description = ""; required = true; kind = string }
    ∷ record { name = "author"; description = ""; required = false; kind = string }
    ∷ []

abbrev vars : Vars
vars = ("author", "-ann") ∷ ("ref", "-12") ∷ []

abbrev argv : List String
argv = "log" ∷ "-12" ∷ "--author" ∷ "-ann" ∷ []

build_argv_sound_example :
    (front : List String) × (back : List String) × (argv ≡ front ++ back)
    × Rendered vars spec.args front
    × Pairs vars (appended spec declared) back
unfolding build_argv push_rendered render render_step push_checked is_plain_number appended flat_map
    placeholders push_pair
build_argv_sound_example = build_argv_sound spec declared vars argv refl

read_capped_lem_example :
    read_capped 3 ((1 ∷ 2 ∷ []) ∷ (3 ∷ 4 ∷ []) ∷ [] ∷ []) [] false ≡ (1 ∷ 2 ∷ 3 ∷ [], true)
read_capped_lem_example = read_capped_lem 3 ((1 ∷ 2 ∷ []) ∷ (3 ∷ 4 ∷ []) ∷ [] ∷ [])

abbrev tool : ToolConfig
tool = record {
  name = "send";
  description = "";
  arguments = [];
  input_schema = none;
  action = proxy "chat" "post";
  rate_limit = some limit;
  idempotent = true;
  read_only = false;
}

abbrev args : Value
args = obj (field "idempotency_key" (str "k1") (field "text" (str "hello") end))

abbrev answer : Value
answer = obj (field "message_id" (str "m1") end)

abbrev around : Result String Value → Surroundings
around r = record {
  to_string = λ v. "{}";
  from_str = λ s. some answer;
  number_text = λ n. "0";
  upstream = λ name. some (λ op args n. r);
  runner = λ name. none;
  took = λ n. 300;
  meantime = λ n c. c;
  raced = λ n c. c;
}

abbrev apart : (r : Result String Value) → IsApart (around r) "k1"
apart r = record {
  meantime_rows = λ n c. refl;
  meantime_up = λ n c. refl;
  raced_rows = λ n c. refl;
  raced_up = λ n c. refl;
}

abbrev world : World
world = record {
  conn = fresh;
  limits = λ name. if name == "send" then some (new limit) else none;
  now_ms = 5000;
  acts = 0;
}

dispatch_replays_example :
    (r : Value) × (with_duplicate_flag answer false ≡ with_duplicate_flag r false)
    × ((dispatch (around (ok answer)) tool args (dispatch (around (ok answer)) tool args world).1).0
        ≡ ok (with_duplicate_flag r true))
    × ((dispatch
          (around (ok answer))
          tool
          args
          (dispatch (around (ok answer)) tool args world).1).1.acts
        ≡ (dispatch (around (ok answer)) tool args world).1.acts)
unfolding dispatch perform key_of get get_field check_arguments dispatch_idempotent begin_idempotent
    find_call claim_call act_claimed perform_limited acquire_slot acquire new complete commit_slot
dispatch_replays_example =
    dispatch_replays (around (ok answer)) tool args (with_duplicate_flag answer false) "k1" world
      (λ u r e. cc) (apart (ok answer)) refl refl refl refl

dispatch_frees_example :
    rows_of "k1" (dispatch (around (err "down")) tool args world).1.conn.db ≡ []
unfolding dispatch key_of get get_field check_arguments dispatch_idempotent begin_idempotent
    find_call claim_call act_claimed perform_limited acquire_slot acquire new perform
dispatch_frees_example =
    dispatch_frees (around (err "down")) tool args "k1" world (failed "down") (apart (err "down"))
      refl refl refl refl
