-- ===== src/Tests/Config.antt =====
-- A tool with arguments, and calls of it.
use mcp_gatehound.Base.{true, false, none, [], ◌∷◌, ◌≡◌, ◌↔◌, refl, All, ok}
use mcp_gatehound.Json.{Fields, obj, str, field, end, get_field, AllFields}
use mcp_gatehound.Config.{ToolConfig, ExecSpec, string, integer, exec}
use mcp_gatehound.Config.Arguments.{check_arguments, check_object, accepts, check_required}
use mcp_gatehound.Config.Arguments.Numbers.{parses_i64}
use mcp_gatehound.Config.Arguments.Check.{IsTaken, IsGiven, IsKeyed, check_arguments_iff}

abbrev spec : ExecSpec
spec = record {
  cmd = "notes";
  args = [];
  stdin = none;
  timeout_secs = 10;
  max_output_bytes = 4096;
  max_concurrency = 1;
  env = [];
  cwd = none;
  fallback = none;
}

abbrev tool : ToolConfig
tool = record {
  name = "append";
  description = "";
  arguments =
      record { name = "path"; description = "a note"; required = true; kind = string }
      ∷ record { name = "line"; description = ""; required = false; kind = integer }
      ∷ [];
  input_schema = none;
  action = exec spec;
  rate_limit = none;
  idempotent = true;
  read_only = false;
}

abbrev map : Fields
map = field "idempotency_key" (str "k1") (field "line" (str "-4") (field "path" (str "a.md") end))

check_arguments_iff_example :
    (check_arguments tool (obj map) ≡ ok tt)
    ↔ (AllFields (IsTaken tool) map × All (IsGiven map) tool.arguments × IsKeyed tool map)
check_arguments_iff_example = check_arguments_iff tool map refl refl

accepted : check_arguments tool (obj map) ≡ ok tt
unfolding check_arguments check_object accepts parses_i64 check_required get_field
accepted = refl
