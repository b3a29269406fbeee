-- ===== src/Actions/Exec.antt =====
-- crates/gatehound-core/src/actions/exec.rs: a tool's command line, and what is kept of its output.
pub mod Argv
pub mod Capped
pub mod Run
pub mod Lookup
use Prim.Native.Char.{Char, code}
use Prim.Native.String as Str
use mcp_gatehound.Base.{
  ℕ, ◌+◌, ◌-◌, zero, suc, String, len, Bool, true, false, not, ◌&&◌, ◌||◌, Option, some, none, List,
  [], ◌∷◌, ◌++◌, ◌+++◌, ◌==◌, Result, ok, err, ◌>>=◌, ◌>>◌, or_fail, guard, is_empty, is_some,
  is_digit, all_chars, any_char, any, retain, strip_prefix, split_once, flat_map, length, take, ltb,
  eqb, if◌then◌else◌,
}
use mcp_gatehound.Config.{ExecSpec, ArgumentDef}

abbrev pub max_argv_value_bytes : ℕ
max_argv_value_bytes = 4096

pub data ExecError : Type 0 where
  unterminated : ExecError
  no_value required option_like : (name : String) → ExecError
  too_long : ℕ → ExecError
  nul_byte : ExecError

abbrev pub Vars : Type 0
Vars = List (String × String)

abbrev pub get_var : String → Vars → Option String
get_var name [] = none
get_var name ((k, v) ∷ vars) = if k == name then some v else get_var name vars

abbrev pub one : Char → String
one c = Str.◌∷◌ c ""

-- Where the reader of a template stands: in plain text, behind a brace that may be doubled, or in a
-- placeholder whose name was read so far.
pub data Mode : Type 0 where
  text opened closed : Mode
  named : String → Mode

abbrev plain_step : Char → String × Mode
plain_step c =
    if eqb (code c) b'{'
    then ("", opened)
    else if eqb (code c) b'}'
    then ("}", closed)
    else (one c, text)

abbrev fill : String → Vars → Result ExecError (String × Mode)
fill name vars = or_fail (get_var name vars) (no_value name) >>= λ v. ok (v, text)

-- One character of `render`: what goes out, and where the reader is behind it.
unfoldable pub render_step : Vars → Mode → Char → Result ExecError (String × Mode)
render_step vars text c = ok (plain_step c)
render_step vars closed c = if eqb (code c) b'}' then ok ("", text) else ok (plain_step c)
render_step vars opened c =
    if eqb (code c) b'{'
    then ok ("{", text)
    else if eqb (code c) b'}'
    then fill "" vars
    else ok ("", named (one c))
render_step vars (named n) c =
    if eqb (code c) b'}' then fill n vars else ok ("", named (n +++ one c))

abbrev render_end : Mode → Result ExecError String
render_end text = ok ""
render_end closed = ok ""
render_end opened = err unterminated
render_end (named n) = err unterminated

pub render_from : Vars → Mode → String → Result ExecError String
render_from vars m Str.[] = render_end m
render_from vars m (Str.◌∷◌ c s) =
    render_step vars m c >>= λ p. render_from vars p.1 s >>= λ r. ok (p.0 +++ r)

unfoldable pub render : String → Vars → Result ExecError String
unfolding render_from
render template vars = render_from vars text template

abbrev names_step : Mode → Char → List String × Mode
names_step (named n) c = if eqb (code c) b'}' then (n ∷ [], text) else ([], named (n +++ one c))
names_step opened c =
    if eqb (code c) b'{'
    then ([], text)
    else if eqb (code c) b'}'
    then ("" ∷ [], text)
    else ([], named (one c))
names_step _ c = if eqb (code c) b'{' then ([], opened) else ([], text)

names_from : Mode → String → List String
names_from m Str.[] = []
names_from m (Str.◌∷◌ c s) = let p = names_step m c in p.0 ++ names_from p.1 s

unfoldable pub placeholders : String → List String
unfolding names_from
placeholders template = names_from text template

abbrev pub has_nul : String → Bool
has_nul = any_char (λ c. eqb (code c) 0)

-- The check of `push_checked`.
unfoldable pub push_checked : String → List String → Result ExecError (List String)
push_checked value argv =
    if ltb max_argv_value_bytes (len value)
    then err (too_long (len value))
    else if has_nul value
    then err nul_byte
    else ok (argv ++ value ∷ [])

abbrev pub starts_dash : String → Bool
starts_dash s = is_some (strip_prefix "-" s)

abbrev or_whole : Option String → String → String
or_whole none s = s
or_whole (some r) s = r

abbrev digits_only : String → Bool
digits_only s = not (is_empty s) && all_chars is_digit s

abbrev halves : String → Option (String × String) → Bool
halves s none = digits_only s
halves s (some (whole, frac)) = digits_only whole && digits_only frac

unfoldable pub is_plain_number : String → Bool
is_plain_number s =
    let digits = or_whole (strip_prefix "-" s) s in halves digits (split_once b'.' digits)

abbrev stdin_list : Option String → List String
stdin_list none = []
stdin_list (some s) = s ∷ []

-- The declared arguments that the command line and the input do not place.
unfoldable pub appended : ExecSpec → List ArgumentDef → List ArgumentDef
appended spec declared =
    let placed = flat_map placeholders (spec.args ++ stdin_list spec.stdin) in
    retain (λ a. not (any (λ p. p == a.name) placed)) declared

pub check_given : List ArgumentDef → Vars → Result ExecError (Unit {0})
check_given [] vars = ok tt
check_given (a ∷ defs) vars =
    guard (not (a.required && not (is_some (get_var a.name vars)))) (required a.name)
    >> check_given defs vars

abbrev first_name : List String → String
first_name [] = ""
first_name (n ∷ ns) = n

-- A template's element.
unfoldable pub push_rendered : String → Vars → List String → Result ExecError (List String)
push_rendered arg vars argv = render arg vars >>= λ rendered.
    guard (not (starts_dash rendered && (not (starts_dash arg) && not (is_plain_number rendered))))
      (option_like (first_name (placeholders arg)))
    >> push_checked rendered argv

pub push_templates : List String → Vars → List String → Result ExecError (List String)
push_templates [] vars argv = ok argv
push_templates (arg ∷ args) vars argv = push_rendered arg vars argv >>= push_templates args vars

-- The pair of an argument that was given.
unfoldable pub push_pair : ArgumentDef → Vars → List String → Result ExecError (List String)
push_pair a vars argv = elim (get_var a.name vars) [
  | none ↦ ok argv
  | some value ↦ push_checked ("--" +++ a.name) argv >>= push_checked value
]

pub push_pairs : List ArgumentDef → Vars → List String → Result ExecError (List String)
push_pairs [] vars argv = ok argv
push_pairs (a ∷ defs) vars argv = push_pair a vars argv >>= push_pairs defs vars

unfoldable pub build_argv : ExecSpec → List ArgumentDef → Vars → Result ExecError (List String)
unfolding check_given push_templates push_pairs
build_argv spec declared vars =
    check_given declared vars
    >> push_templates spec.args vars []
    >>= push_pairs (appended spec declared) vars

preview_pairs : List ArgumentDef → List String
preview_pairs [] = []
preview_pairs (a ∷ defs) = ("--" +++ a.name) ∷ ("<" +++ (a.name +++ ">")) ∷ preview_pairs defs

unfoldable pub preview_argv : ExecSpec → List ArgumentDef → List String
unfolding preview_pairs
preview_argv spec declared = spec.cmd ∷ spec.args ++ preview_pairs (appended spec declared)

-- `read_capped`: what each read of the pipe gave, until one gives nothing.
unfoldable pub read_capped : ℕ → List (List ℕ) → List ℕ → Bool → List ℕ × Bool
read_capped cap [] kept dropped = (kept, dropped)
read_capped cap ([] ∷ reads) kept dropped = (kept, dropped)
read_capped cap ((b ∷ buf) ∷ reads) kept dropped =
    let n = length (b ∷ buf) in
    let room = cap - length kept in
    read_capped cap reads (kept ++ take room (b ∷ buf)) (dropped || ltb room n)
