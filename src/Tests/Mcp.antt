-- ===== src/Tests/Mcp.antt =====
-- Calls through the gateway: a client's that the policy allows, and one fired by hand that a human allows.
use mcp_gatehound.Approval.{wait_for}
use mcp_gatehound.Mcp.Call.{within_of}
use mcp_gatehound.Config.{tool}
use mcp_gatehound.Mcp.{log}
use mcp_gatehound.Base.{is_some, ◌≤◌}
use mcp_gatehound.Mcp.Answered.{run_call-Comes}
use mcp_gatehound.Mcp.Call.{adjusted, let_through}
use mcp_gatehound.Policy.{resolve}
use mcp_gatehound.Store.Rules.{decision_for, select_decision}
use mcp_gatehound.Decision.{parse}
use mcp_gatehound.Actions.Dispatch.{acquire_slot, commit_slot, dispatch, perform, perform_limited}
use mcp_gatehound.Config.Arguments.{check_arguments}
use mcp_gatehound.Base.{ℕ, String, true, false, some, none, [], ◌∷◌, ◌≡◌, ◌≢◌, refl, ok, arith}
use mcp_gatehound.Json.{obj, str, field, end}
use mcp_gatehound.Decision.{ask}
use mcp_gatehound.Config.{ToolConfig, proxy}
use mcp_gatehound.Store.{empty_db, Conn}
use mcp_gatehound.Json.{Value}
use mcp_gatehound.Mcp.Call.{held}
use mcp_gatehound.Actions.Dispatch.{Surroundings}
use mcp_gatehound.Approval.{allow_once, new}
use mcp_gatehound.Approval.Steps.{answers}
use mcp_gatehound.Mcp.{Origin, client, debug, Gateway, Course, Request}
use mcp_gatehound.Mcp.Call.{run_call}
use mcp_gatehound.Mcp.Permitted.{at_policy, MayAct, run_call-MayAct}

abbrev write_tool : ToolConfig
write_tool = record {
  name = "write";
  description = "";
  arguments = [];
  input_schema = none;
  action = proxy "notes" "put";
  rate_limit = none;
  idempotent = false;
  read_only = false;
}

abbrev conn : Conn
conn = record {
  db = record empty_db {
    identities =
        record {
          identity = "bot";
          tool = "write";
          decision = "allow";
          created_at = 1;
          updated_at = 1;
        }
        ∷ [];
  };
  up = true;
}

abbrev pub gateway : Gateway
gateway = record {
  tools = write_tool ∷ [];
  call_deadline_secs = some 30;
  default = ask;
  queue = new conn 60;
  limits = λ name. none;
  now_ms = 5000;
  acts = 0;
}

abbrev around : Surroundings
around = record {
  to_string = λ v. "{}";
  from_str = λ s. none;
  number_text = λ n. "0";
  upstream = λ name. some (λ op args n. ok (str "done"));
  runner = λ name. none;
  took = λ n. 300;
  meantime = λ n c. c;
  raced = λ n c. c;
}

abbrev pub course : Course
course = record {
  id = "h1";
  asked_ms = 2;
  while_held = (6, answers "h1" allow_once) ∷ [];
  held_ms = 1500;
  around = around;
  text = λ m. "failed";
}

abbrev request : String → Origin → Request
request who origin = record {
  identity = who;
  token_id = none;
  name = "write";
  args = obj end;
  origin = origin;
}

acted : (run_call course (request "bot" client) gateway).1.acts ≡ 1
unfolding run_call tool adjusted resolve new decision_for select_decision parse let_through dispatch
    check_arguments perform_limited acquire_slot perform log commit_slot
acted = refl

pub no_longer_zero : (n : ℕ) → n ≡ 1 → n ≢ 0
no_longer_zero n one zero' = omega arith

run_call-MayAct_example : MayAct course (request "bot" client) gateway
run_call-MayAct_example =
    run_call-MayAct course (request "bot" client) gateway (no_longer_zero _ acted)

abbrev first_args : Value
first_args = obj (field "api_Key" (str "one") end)

abbrev second_args : Value
second_args = obj (field "api_Key" (str "two") end)

abbrev slow : Course
slow = record course { held_ms = 70000; while_held = [] }

run_call-Comes_example :
    (is_some (run_call slow (request "bot" (debug none)) gateway).0 ≡ true)
    × ((held slow (request "bot" (debug none)) (at_policy slow gateway)).1.now_ms ≤ 65002)
unfolding wait_for within_of new
run_call-Comes_example = run_call-Comes slow (request "bot" (debug none)) gateway refl refl
