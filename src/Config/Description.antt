-- ===== src/Config/Description.antt =====
-- crates/gatehound-core/src/config.rs: what a client reads of a tool.
use mcp_gatehound.Base.{
  String, not, ◌&&◌, List, [], ◌∷◌, ◌+++◌, ◌==◌, any, is_empty, trim, trim_end, if◌then◌else◌,
}
use mcp_gatehound.Config.{ArgumentDef, ToolConfig, idempotency_key}
use mcp_gatehound.Config.Arguments.{json_name}

-- `.collect::<Vec<_>>().join(", ")`
abbrev pub joined : List String → String
joined [] = ""
joined (s ∷ []) = s
joined (s ∷ t ∷ ss) = s +++ ", " +++ joined (t ∷ ss)

abbrev names : List ArgumentDef → List String
names [] = []
names (a ∷ args) = a.name ∷ names args

unfoldable pub argument_names : ToolConfig → String
argument_names t = joined (names t.arguments)

abbrev line_of : ArgumentDef → String
line_of a =
    "\n  "
    +++ a.name
    +++ " ("
    +++ json_name a.kind
    +++ ", "
    +++ (if a.required then "required" else "optional")
    +++ ")"
    +++ (if is_empty a.description then "" else " — " +++ trim a.description)

abbrev lines_of : List ArgumentDef → String
lines_of [] = ""
lines_of (a ∷ args) = line_of a +++ lines_of args

abbrev pub key_line : String
key_line =
    "\n  idempotency_key (string, required) — A key of the caller's choosing. Repeating one returns the first result instead of acting again."

abbrev headed : String → String
headed out = if is_empty out then "" else out +++ "\n\n"

abbrev described : ToolConfig → List ArgumentDef → String
described t [] = t.description
described t args =
    headed (trim_end t.description)
    +++ "Arguments:"
    +++ lines_of args
    +++ (if t.idempotent && not (any (λ a. a.name == idempotency_key) args) then key_line else "")

unfoldable pub client_description : ToolConfig → String
client_description t = described t t.arguments
