-- ===== src/Scripts/Files.antt =====
-- crates/gatehound-core/src/scripts.rs: the files under `scripts/`. A path is the list of its parts; what
-- the file system says of links is the function `canonical`, and the texts that it holds are listed.
pub mod Contained
pub mod Pinned
use mcp_gatehound.Base.{
  ℕ, String, len, Bool, true, false, not, ◌&&◌, ◌||◌, Option, some, none, List, [], ◌∷◌, ◌++◌,
  ◌+++◌, ◌==◌, any, Result, ok, err, ◌>>=◌, ◌>>◌, or_fail, guard, is_some, strip_prefix, split_from,
  is_empty, leb, trim, to_ascii_lowercase, bytes, if◌then◌else◌,
}
use mcp_gatehound.Config.{ExecSpec, ScriptSpec}
use mcp_gatehound.Scripts.{
  Interpreter, python3, node, deno, as_str, extension, leading_args, Origin, ScriptDef, ScriptError,
  climbs, no_parent, unresolved, outside, no_file, missing, not_regular, too_big, unreadable,
  edited, path_parts, valid_name, max_script_bytes, stem_of,
}

pub record FilePath : Type 0 where
  pub absolute : Bool
  pub parts : List String

abbrev pub path_of : String → FilePath
path_of s = record {
  absolute = is_some (strip_prefix "/" s);
  parts = path_parts (split_from b'/' "" s);
}

-- `a.join(b)`
abbrev pub join : FilePath → FilePath → FilePath
join a b = if b.absolute then b else record a { parts = a.parts ++ b.parts }

abbrev pub same_parts : List String → List String → Bool
same_parts [] [] = true
same_parts (p ∷ ps) (q ∷ qs) = (p == q) && same_parts ps qs
same_parts _ _ = false

-- `path.starts_with(base)`
abbrev pub starts_with : List String → List String → Bool
starts_with ps [] = true
starts_with [] (q ∷ qs) = false
starts_with (p ∷ ps) (q ∷ qs) = (q == p) && starts_with ps qs

abbrev put_first : String → Option (List String × String) → Option (List String × String)
put_first p none = none
put_first p (some (front, name)) = some (p ∷ front, name)

-- `path.parent()` and the last part
abbrev pub split_last : List String → Option (List String × String)
split_last [] = none
split_last (p ∷ []) = some ([], p)
split_last (p ∷ q ∷ ps) = put_first p (split_last (q ∷ ps))

-- A text is of a regular file, or the entry is none.
pub record Disk : Type 0 where
  pub canonical : FilePath → Option (List String)
  pub is_directory : List String → Bool
  pub texts : List (List String × String)

abbrev pub text_at : List String → List (List String × String) → Option String
text_at path [] = none
text_at path ((p, text) ∷ rest) = if same_parts path p then some text else text_at path rest

abbrev pub named_in : List String → String → Result ScriptError (List String)
named_in real_parent name = if name == ".." then err no_file else ok (real_parent ++ name ∷ [])

abbrev pub placed :
    (FilePath → Option (List String))
    → FilePath
    → Bool
    → Option (List String × String)
    → Result ScriptError (List String)
placed canonical base absolute none = err no_parent
placed canonical base absolute (some (front, name)) =
    or_fail (canonical (record { absolute = absolute; parts = front })) unresolved
    >>= λ real_parent. or_fail (canonical base) unresolved >>= λ real_base.
        guard (starts_with real_parent real_base) outside >> named_in real_parent name

unfoldable pub contained :
    (FilePath → Option (List String)) → FilePath → FilePath → Result ScriptError (List String)
contained canonical base candidate =
    guard (not (any (λ p. p == "..") candidate.parts)) climbs
    >> (let full = join base candidate in
        placed canonical base full.absolute (split_last full.parts))

abbrev pub file_named : String → Interpreter → FilePath
file_named name i = join (path_of "scripts") (path_of (name +++ "." +++ extension i))

unfoldable pub relative_path : ScriptDef → FilePath
relative_path def = file_named def.name def.interpreter

unfoldable pub path_in : FilePath → ScriptDef → FilePath
path_in base def = join base (relative_path def)

abbrev pub body_of : String → Bool → Option String → Result ScriptError String
body_of name true text = err (not_regular name)
body_of name false none = err (missing name)
body_of name false (some text) =
    if leb (len text) max_script_bytes then ok text else err (too_big name)

unfoldable pub read_body : Disk → FilePath → ScriptDef → Result ScriptError String
read_body d base def = contained d.canonical base (relative_path def) >>= λ path.
    body_of def.name (d.is_directory path) (text_at path d.texts)

-- `a.eq_ignore_ascii_case(b)`
abbrev pub same_letters : String → String → Bool
same_letters a b = to_ascii_lowercase a == to_ascii_lowercase b

unfoldable pub verify :
    (List ℕ → String) → Disk → FilePath → ScriptDef → Result ScriptError (Unit {0})
verify digest d base def =
    valid_name def.name
    >> (read_body d base def >>= λ body.
        guard (is_empty def.sha256 || same_letters (digest (bytes body)) (trim def.sha256))
          (edited def.name))

abbrev pub written : List String → String → Disk → Disk
written path text d = record d { texts = (path, text) ∷ d.texts }

-- The record of a script whose text is written below `scripts/`.
unfoldable pub save :
    (List ℕ → String)
    → FilePath
    → String
    → Interpreter
    → String
    → String
    → Origin
    → Disk
    → Result ScriptError (ScriptDef × Disk)
save digest base name interpreter body description origin d =
    valid_name name
    >> guard (leb (len body) max_script_bytes) (too_big name)
    >> (contained d.canonical base (file_named name interpreter) >>= λ path. ok (
      record {
        name = name;
        interpreter = interpreter;
        sha256 = digest (bytes body);
        description = description;
        origin = origin;
      },
      written path body d,
    ))

abbrev without : List String → List (List String × String) → List (List String × String)
without path [] = []
without path ((p, text) ∷ rest) =
    let kept = without path rest in if same_parts path p then kept else (p, text) ∷ kept

unfoldable pub delete : FilePath → ScriptDef → Disk → Result ScriptError Disk
delete base def d = contained d.canonical base (relative_path def) >>= λ path.
    ok (record d { texts = without path d.texts })

-- `candidates`, where the platform is not Windows
unfoldable pub candidates : Interpreter → List String
candidates python3 = "python3" ∷ []
candidates node = "node" ∷ []
candidates deno = "deno" ∷ []

abbrev first_resolved : (String → Bool) → List String → Option String
first_resolved resolves [] = none
first_resolved resolves (c ∷ cs) = if resolves c then some c else first_resolved resolves cs

-- The command of an interpreter, by which names resolve to one on this machine.
unfoldable pub command : (String → Bool) → Interpreter → String
command resolves i = elim (first_resolved resolves (candidates i)) [ none ↦ as_str i | some c ↦ c ]

-- `file_stem() == "py"`, by the parts of the name between its dots
abbrev is_launcher : List String → Bool
is_launcher (p ∷ []) = p == "py"
is_launcher (p ∷ e ∷ []) = p == "py"
is_launcher _ = false

-- `py` takes the language by a flag; `path` is the text of the script's path.
unfoldable pub leading_args_for : Interpreter → String → List String
leading_args_for python3 command =
    if is_launcher (split_from b'.' "" (stem_of command))
    then "-3" ∷ leading_args python3
    else leading_args python3
leading_args_for i command = leading_args i

abbrev shown : List String → String
shown [] = ""
shown (p ∷ ps) = "/" +++ p +++ shown ps

unfoldable pub lower :
    (FilePath → Option (List String))
    → (String → Bool)
    → ScriptSpec
    → ScriptDef
    → FilePath
    → Result ScriptError ExecSpec
lower canonical resolves spec def base = contained canonical base (relative_path def) >>= λ path.
    ok (record {
      cmd = command resolves def.interpreter;
      args =
          leading_args_for def.interpreter (command resolves def.interpreter)
          ++ shown path ∷ spec.args;
      stdin = spec.stdin;
      timeout_secs = spec.timeout_secs;
      max_output_bytes = spec.max_output_bytes;
      max_concurrency = spec.max_concurrency;
      env = spec.env;
      cwd = spec.cwd;
      fallback = none;
    })
