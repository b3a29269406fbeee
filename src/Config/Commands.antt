-- ===== src/Config/Commands.antt =====
-- crates/gatehound-core/src/config.rs: where a command is (`bin_dirs`, `find_command_in`,
-- `resolve_command`), on a machine that is not Windows. The directories of PATH are a list, as `split_paths`
-- gives it; what stands on the disk is a function.
pub mod Found
use mcp_gatehound.Base.{
  String, Bool, true, false, not, ◌&&◌, ◌||◌, Option, some, none, List, [], ◌∷◌, ◌++◌, ◌==◌, any,
  map, Result, ok, err, lacks, trim, if◌then◌else◌,
}
use mcp_gatehound.Scripts.Files.{FilePath, path_of, join, same_parts, split_last}

-- `a == b` of two paths, which compares their parts
abbrev pub same_path : FilePath → FilePath → Bool
same_path a b = (if a.absolute then b.absolute else not b.absolute) && same_parts a.parts b.parts

abbrev pub under : FilePath → List String → List FilePath
under base names = map (λ n. join base (path_of n)) names

abbrev pub fixed_dirs : List String
fixed_dirs =
    "/opt/homebrew/bin" ∷ "/usr/local/bin" ∷ "/opt/local/bin" ∷ "/usr/bin" ∷ "/bin" ∷ "/usr/sbin"
    ∷ "/sbin" ∷ "/snap/bin" ∷ []

abbrev pub home_dirs : List String
home_dirs =
    ".local/bin" ∷ ".bun/bin" ∷ ".cargo/bin" ∷ ".deno/bin" ∷ "go/bin" ∷ ".volta/bin" ∷ "bin" ∷ []

abbrev pub managers : List String
managers = ".nvm/versions/node" ∷ ".fnm/node-versions" ∷ ".asdf/installs/nodejs" ∷ []

-- The directories of each installed version.
abbrev version_dirs : List FilePath → List FilePath
version_dirs [] = []
version_dirs (e ∷ es) =
    join e (path_of "bin") ∷ join e (path_of "installation/bin") ∷ version_dirs es

abbrev manager_dirs : (FilePath → List FilePath) → FilePath → List String → List FilePath
manager_dirs entries home [] = []
manager_dirs entries home (m ∷ ms) =
    version_dirs (entries (join home (path_of m))) ++ manager_dirs entries home ms

abbrev pub or_no_dirs : Option (List FilePath) → List FilePath
or_no_dirs none = []
or_no_dirs (some dirs) = dirs

abbrev pub of_home : (FilePath → List FilePath) → Option FilePath → List FilePath
of_home entries none = []
of_home entries (some h) = under h home_dirs ++ manager_dirs entries h managers

-- `entries` lists a directory, empty where it cannot be read.
unfoldable pub bin_dirs :
    (FilePath → List FilePath) → Option FilePath → Option (List FilePath) → List FilePath
bin_dirs entries home path = or_no_dirs path ++ map path_of fixed_dirs ++ of_home entries home

-- The name is the name.
unfoldable pub spellings : String → List String
spellings cmd = cmd ∷ []

module _ (is_file : FilePath → Bool) where
  abbrev pub found_more : FilePath → List FilePath → List FilePath
  found_more candidate out =
      if is_file candidate && not (any (same_path candidate) out)
      then out ++ candidate ∷ []
      else out

  abbrev pub found_spelled : FilePath → List String → List FilePath → List FilePath
  found_spelled dir [] out = out
  found_spelled dir (s ∷ ss) out = found_spelled dir ss (found_more (join dir (path_of s)) out)

  abbrev pub found_in : String → List FilePath → List FilePath → List FilePath
  found_in base [] out = out
  found_in base (dir ∷ dirs) out = found_in base dirs (found_spelled dir (spellings base) out)

  -- `Path::file_name`: the last part, where that is a name.
  abbrev pub base_of : Option (List String × String) → Option String
  base_of none = none
  base_of (some (front, name)) = if name == ".." then none else some name

  abbrev found_base : Option String → List FilePath → List FilePath
  found_base none dirs = []
  found_base (some base) dirs = found_in base dirs []

  unfoldable pub find_command_in :
      (FilePath → List FilePath) → String → Option FilePath → Option (List FilePath) → List FilePath
  find_command_in entries name home path =
      found_base (base_of (split_last (path_of (trim name)).parts)) (bin_dirs entries home path)

pub data Unresolved : Type 0 where
  not_a_file not_here not_on_path : (cmd : String) → Unresolved

module _ (metadata : FilePath → Option Bool) where
  -- `is_file` of what stands there, or nothing does
  abbrev named_path : String → List String → Result Unresolved FilePath
  named_path cmd [] = err (not_here cmd)
  named_path cmd (name ∷ names) =
      let rest = named_path cmd names in
      elim (metadata (path_of name)) [
        | some true ↦ ok (path_of name)
        | some false ↦ if name == cmd then err (not_a_file cmd) else rest
        | none ↦ rest
      ]

  abbrev there : Option Bool → Bool
  there (some true) = true
  there _ = false

  abbrev pub spelled_in : FilePath → List String → Option FilePath
  spelled_in dir [] = none
  spelled_in dir (name ∷ names) =
      let rest = spelled_in dir names in
      if there (metadata (join dir (path_of name))) then some (join dir (path_of name)) else rest

  abbrev pub on_path : String → List FilePath → Result Unresolved FilePath
  on_path cmd [] = err (not_on_path cmd)
  on_path cmd (dir ∷ dirs) =
      let rest = on_path cmd dirs in
      elim (spelled_in dir (spellings cmd)) [ some p ↦ ok p | none ↦ rest ]

  abbrev resolve_trimmed : String → List FilePath → Result Unresolved FilePath
  resolve_trimmed cmd path =
      if not (lacks b'/' cmd && lacks 0x5c cmd)
      then named_path cmd (spellings cmd)
      else on_path cmd path

  unfoldable pub resolve_command : String → List FilePath → Result Unresolved FilePath
  resolve_command cmd path = resolve_trimmed (trim cmd) path
