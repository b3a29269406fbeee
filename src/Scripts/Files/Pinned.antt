-- ===== src/Scripts/Files/Pinned.antt =====
-- What a registered script's digest pins.
use mathlib.Core.Path.{subst}
use mcp_gatehound.Base.{
  ℕ, String, len, Bool, true, false, ◌||◌, Option, some, none, List, [], ◌∷◌, ◌≡◌, refl, sym, ap,
  ◌∙◌, Result, ok, err, ◌>>=◌, ◌>>◌, >>=-eq-ok, guard-eq-ok, guard, leb, trim, bytes, is_empty,
  arith, Bool-cases, inl, inr, eq_refl, to_ascii_lowercase,
}
use mcp_gatehound.Scripts.{
  Interpreter, Origin, ScriptDef, ScriptError, max_script_bytes, too_big, valid_name,
}
use mcp_gatehound.Scripts.Files.Contained.{Below}
use mcp_gatehound.Scripts.Files.{
  FilePath, Disk, same_parts, text_at, contained, relative_path, body_of, read_body, same_letters,
  verify, save, written, file_named,
}

pub body_of_sound :
    (name : String) (directory : Bool) (o : Option String) (text : String)
    → body_of name directory o ≡ ok text
    → (o ≡ some text) × (leb (len text) max_script_bytes ≡ true)
body_of_sound name true o text h = cc
body_of_sound name false none text h = cc
body_of_sound name false (some t) text h = elim (Bool-cases (leb (len t) max_script_bytes)) [
  | inl fits ↦
      let same : t ≡ text = ground arith in
      (ap some same, ap (λ x. leb (len x) max_script_bytes) (sym same) ∙ fits)
  | inr big ↦ absurd (ground arith)
]

-- What is on the disk for a script: below the directory `base`, a text below the limit whose digest is the recorded one.
abbrev pub IsPinned : (List ℕ → String) → Disk → FilePath → ScriptDef → Type 0
IsPinned digest d base def =
    (path : List String) × (text : String) × Below d.canonical base path
    × (text_at path d.texts ≡ some text)
    × (leb (len text) max_script_bytes ≡ true)
    × ((is_empty def.sha256 || same_letters (digest (bytes text)) (trim def.sha256)) ≡ true)

ok_inj :
    {p q : ScriptDef × Disk} → ◌≡◌ {A = Result ScriptError (ScriptDef × Disk)} (ok p) (ok q) → p ≡ q
ok_inj {p} {q} e = ap (λ r. elim r [ ok x ↦ x | err f ↦ p ]) e

same_parts_refl : (ps : List String) → same_parts ps ps ≡ true
same_parts_refl [] = refl
same_parts_refl (p ∷ ps) = ground (arith, eq_refl p, same_parts_refl ps)

module _ (digest : List ℕ → String) (base : FilePath) (name : String) (i : Interpreter)
    (body description : String) (origin : Origin) where
  abbrev saved : ScriptDef
  saved = record {
    name = name;
    interpreter = i;
    sha256 = digest (bytes body);
    description = description;
    origin = origin;
  }

  verify-written :
      (d : Disk) (path : List String)
      → ((b : List ℕ) → trim (digest b) ≡ digest b)
      → valid_name name ≡ ok tt
      → leb (len body) max_script_bytes ≡ true
      → contained d.canonical base (file_named name i) ≡ ok path
      → d.is_directory path ≡ false
      → verify digest (written path body d) base saved ≡ ok tt
  unfolding verify read_body relative_path
  verify-written d path hex named fits there file =
      rw (named, there, file, same_parts_refl path, fits, hex (bytes body))
        (ground (arith, eq_refl (to_ascii_lowercase (digest (bytes body)))))

  -- A script that was just saved passes verification, unless a directory stands where its file belongs.
  pub verify-save :
      (d after : Disk) (def : ScriptDef) (path : List String)
      → ((b : List ℕ) → trim (digest b) ≡ digest b)
      → contained d.canonical base (file_named name i) ≡ ok path
      → d.is_directory path ≡ false
      → save digest base name i body description origin d ≡ ok (def, after)
      → verify digest after base def ≡ ok tt
  unfolding save
  verify-save d after def path hex there file h =
      let (u, checked, h1) =
        >>=-eq-ok (valid_name name >> guard (leb (len body) max_script_bytes) (too_big name)) _ h in
      let (w, named, fits) = >>=-eq-ok (valid_name name) _ checked in
      let same : (saved, written path body d) ≡ (def, after) =
        ok_inj (ap (λ p. p >>= λ path. ok (saved, written path body d)) (sym there) ∙ h1) in
      subst (λ p. verify digest p.1 base p.0 ≡ ok tt) same
        (verify-written d path hex named (guard-eq-ok _ _ fits) there file)
