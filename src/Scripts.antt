-- ===== src/Scripts.antt =====
-- crates/gatehound-core/src/scripts.rs: registered scripts, their interpreters and names; the children
-- hold the files under `scripts/` and the review of a script's text.
pub mod Rules
pub mod Review
pub mod Danger
pub mod Files
use Prim.Native.Char.{Char, code}
use mcp_gatehound.Base.{
  ℕ, ◌*◌, String, len, Bool, true, false, not, ◌&&◌, ◌||◌, Option, some, none, List, [], ◌∷◌, ◌+++◌,
  ◌==◌, find, any, Result, ok, err, ◌>>◌, guard, eqb, leb, is_empty, is_digit, all_chars, trim,
  to_ascii_lowercase, split_from, is_some, strip_prefix, if◌then◌else◌,
}

abbrev pub max_script_bytes : ℕ
max_script_bytes = 256 * 1024

pub data Interpreter : Type 0 where
  python3 node deno : Interpreter

abbrev pub interpreters : List Interpreter
interpreters = python3 ∷ node ∷ deno ∷ []

unfoldable pub as_str : Interpreter → String
as_str python3 = "python3"
as_str node = "node"
as_str deno = "deno"

unfoldable pub extension : Interpreter → String
extension python3 = "py"
extension node = "js"
extension deno = "ts"

unfoldable pub leading_args : Interpreter → List String
leading_args python3 = "-I" ∷ []
leading_args node = []
leading_args deno = "run" ∷ "--no-prompt" ∷ []

unfoldable pub sandboxed_by_default : Interpreter → Bool
sandboxed_by_default deno = true
sandboxed_by_default _ = false

unfoldable pub shells : List String
shells =
    "sh" ∷ "bash" ∷ "zsh" ∷ "dash" ∷ "ksh" ∷ "fish" ∷ "csh" ∷ "tcsh" ∷ "pwsh" ∷ "powershell" ∷ "cmd"
    ∷ "cmd.exe" ∷ "command.com" ∷ "busybox" ∷ "env" ∷ "eval" ∷ "exec" ∷ "xargs" ∷ "perl" ∷ "ruby"
    ∷ "php" ∷ []

-- Why an interpreter is refused.
pub data Refused : Type 0 where
  is_shell unknown_interpreter : (s : String) → Refused

-- `Path::new(s).file_name()` of a text that stands for a path: its last part, where that is a name
abbrev last_part : List String → Option String
last_part [] = none
last_part (p ∷ []) = if p == ".." then none else some p
last_part (p ∷ q ∷ ps) = last_part (q ∷ ps)

abbrev or_whole : String → Option String → String
or_whole s none = s
or_whole s (some t) = t

-- The parts of a path, without empty ones and `.`.
abbrev pub path_parts : List String → List String
path_parts [] = []
path_parts (p ∷ ps) =
    let rest = path_parts ps in if is_empty p || (p == ".") then rest else p ∷ rest

unfoldable pub stem_of : String → String
stem_of want = or_whole want (last_part (path_parts (split_from b'/' "" want)))

abbrev by_stem : String → String → Option Interpreter → Result Refused Interpreter
by_stem s stem (some found) = ok found
by_stem s stem none =
    if any (λ t. t == stem) shells then err (is_shell s) else err (unknown_interpreter s)

unfoldable pub parse : String → Result Refused Interpreter
parse s =
    let stem = stem_of (to_ascii_lowercase (trim s)) in
    by_stem s stem (find (λ i. as_str i == stem) interpreters)

-- Where a script came from.
pub data Origin : Type 0 where
  local : Origin
  pack : String → Origin

unfoldable pub label : Origin → String
label local = "written here"
label (pack p) = "from pack '" +++ p +++ "'"

unfoldable pub is_local : Origin → Bool
is_local local = true
is_local (pack p) = false

pub record ScriptDef : Type 0 where
  pub name : String
  pub interpreter : Interpreter
  pub sha256 : String
  pub description : String
  pub origin : Origin

pub data ScriptError : Type 0 where
  bad_length : ScriptError
  bad_characters leading_dash : (name : String) → ScriptError
  climbs no_parent unresolved outside no_file : ScriptError
  missing not_regular too_big unreadable edited : (name : String) → ScriptError

abbrev pub is_name_char : Char → Bool
is_name_char c =
    let n = code c in (leb b'a' n && leb n b'z') || (is_digit c || (eqb n b'-' || eqb n b'_'))

abbrev pub starts_with_dash : String → Bool
starts_with_dash s = is_some (strip_prefix "-" s)

unfoldable pub valid_name : String → Result ScriptError (Unit {0})
valid_name name =
    guard (not (is_empty name) && leb (len name) 64) bad_length
    >> guard (all_chars is_name_char name) (bad_characters name)
    >> guard (not (starts_with_dash name)) (leading_dash name)
