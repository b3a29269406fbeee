-- ===== src/Actions/Exec/Lookup.antt =====
-- crates/gatehound-core/src/actions/exec.rs: the PATH that a command starts with, and what the failure of a
-- command that was not found names. The directories of PATH are a list, as `split_paths` gives it; what a
-- file begins with is an argument.
pub mod First
use mcp_gatehound.Base.{
  String, Bool, true, false, not, ◌&&◌, ◌||◌, Option, some, none, List, [], ◌∷◌, ◌==◌, any, all,
  find, map, retain, is_empty, is_some, is_space, lacks, strip_prefix, split_from, ◌+++◌,
  if◌then◌else◌,
}
use Prim.Native.String as Str
use mcp_gatehound.Scripts.Files.{FilePath, path_of, join, split_last}
use mcp_gatehound.Config.Commands.{same_path}

abbrev pub parent_of : Bool → Option (List String × String) → Option FilePath
parent_of absolute none = none
parent_of absolute (some (front, name)) = some (record { absolute = absolute; parts = front })

abbrev pub or_no_dirs : Option (List FilePath) → List FilePath
or_no_dirs none = []
or_no_dirs (some dirs) = dirs

abbrev pub starts_in : FilePath → List FilePath → Bool
starts_in dir [] = false
starts_in dir (d ∷ dirs) = same_path d dir

-- `join_paths`, none where a directory cannot stand in PATH
abbrev joinable : (FilePath → Bool) → List FilePath → Option (List FilePath)
joinable fits dirs = if all fits dirs then some dirs else none

abbrev pub put_in_front :
    (FilePath → Bool) → Option FilePath → List FilePath → Option (List FilePath)
put_in_front fits none dirs = none
put_in_front fits (some dir) dirs =
    if starts_in dir dirs
    then none
    else joinable fits (dir ∷ retain (λ d. not (same_path d dir)) dirs)

-- The command's own directory in front, none where there is nothing to change.
unfoldable pub child_path :
    (FilePath → Bool) → FilePath → Option (List FilePath) → Option (List FilePath)
child_path fits cmd inherited =
    if not cmd.absolute
    then none
    else put_in_front fits (parent_of cmd.absolute (split_last cmd.parts)) (or_no_dirs inherited)

-- `split_whitespace`, with the word so far
abbrev ended : String → List String → List String
ended word rest = if is_empty word then rest else word ∷ rest

abbrev words_from : String → String → List String
words_from word Str.[] = ended word []
words_from word (Str.◌∷◌ c s) =
    let closed = ended word (words_from "" s) in
    let longer = words_from (word +++ Str.◌∷◌ c "") s in if is_space c then closed else longer

abbrev pub words : String → List String
words s = words_from "" s

abbrev named_env : Option (List String × String) → Bool
named_env none = false
named_env (some (front, name)) = name == "env"

abbrev program_of : List String → Option String
program_of [] = none
program_of (first ∷ rest) =
    if named_env (split_last (path_of first).parts)
    then find (λ w. not (is_some (strip_prefix "-" w)) && lacks b'=' w) rest
    else some first

abbrev behind_shebang : Option String → Option String
behind_shebang none = none
behind_shebang (some rest) = elim (split_from b'\n' "" rest) [
  | [] ↦ none
  | line ∷ more ↦ program_of (words line)
]

-- What a failure names as missing.
pub data Missing : Type 0 where
  its_interpreter : (name : String) → Missing
  a_program_it_needs : Missing

module _ (head : FilePath → Option String) (is_file : FilePath → Bool) where
  -- The interpreter that a script's first line names; `head` is what its file begins with.
  unfoldable pub interpreter : FilePath → Option String
  interpreter program = elim (head program) [
    | none ↦ none
    | some text ↦ behind_shebang (strip_prefix "#!" text)
  ]

  unfoldable pub find_on : String → Option (List FilePath) → Option FilePath
  find_on name path =
      if not (lacks b'/' name)
      then if is_file (path_of name) then some (path_of name) else none
      else elim path [
        | none ↦ none
        | some dirs ↦ find is_file (map (λ d. join d (path_of name)) dirs)
      ]

  abbrev missing_of : Option (List FilePath) → Option String → Missing
  missing_of path none = a_program_it_needs
  missing_of path (some i) =
      if is_some (find_on i path) then a_program_it_needs else its_interpreter i

  -- What the failure names.
  unfoldable pub not_found : String → Option (List FilePath) → Missing
  not_found cmd path = elim (find_on cmd path) [
    | none ↦ a_program_it_needs
    | some p ↦ missing_of path (interpreter p)
  ]
