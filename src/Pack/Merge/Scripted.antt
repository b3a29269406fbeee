-- ===== src/Pack/Merge/Scripted.antt =====
-- What an import without replacement does to the definitions of scripts.
use mcp_gatehound.Base.{
  ℕ, String, Bool, false, Option, some, none, List, [], ◌∷◌, ◌++◌, ◌==◌, ◌≡◌, refl, sym, ap, ◌∙◌,
  inl, inr, any, append_assoc, append_nil, Result, ok, err, Bool-cases,
}
use mcp_gatehound.Scripts.{ScriptDef, ScriptError}
use mcp_gatehound.Scripts.Files.{FilePath, Disk}
use mcp_gatehound.Base.{map, >>=-eq-ok, ◌>>◌, guard, leb, len, bytes}
use mcp_gatehound.Scripts.{pack, valid_name, max_script_bytes, too_big}
use mcp_gatehound.Scripts.Files.{save, contained, file_named}
use mcp_gatehound.Pack.{PackScript, PackError}
use mcp_gatehound.Pack.Merge.{registered, recorded, script_one, script_all}
use mcp_gatehound.Pack.Place.{Placed}
use mcp_gatehound.Pack.Merge.Additive.{is_taken}

module _ (digest : List ℕ → String) (resolves : String → Bool) (pack_name : String) where
  -- The definition of a script of the pack: its own name and interpreter, the digest of its own text.
  abbrev pub def_of : PackScript → ScriptDef
  def_of sc = record {
    name = sc.name;
    interpreter = sc.interpreter;
    sha256 = digest (bytes sc.source);
    description = sc.description;
    origin = pack pack_name;
  }

  abbrev Registers : PackScript → Result ScriptError (ScriptDef × Disk) → Type 0
  Registers sc (err e) = Unit
  Registers sc (ok (def, d)) = def ≡ def_of sc

  saved-def :
      (dir : FilePath) (sc : PackScript) (d : Disk) (r : Result ScriptError (ScriptDef × Disk))
      → save digest dir sc.name sc.interpreter sc.source sc.description (pack pack_name) d ≡ r
      → Registers sc r
  unfolding save
  saved-def dir sc d (err e) h = tt
  saved-def dir sc d (ok (def, after)) h =
      let (u, checked, h1) =
        >>=-eq-ok
          (valid_name sc.name >> guard (leb (len sc.source) max_script_bytes) (too_big sc.name)) _
          h in
      let (path, there, h2) =
        >>=-eq-ok (contained d.canonical dir (file_named sc.name sc.interpreter)) _ h1 in
      sym (ap (λ r. elim r [ ok x ↦ x.0 | err e ↦ def ]) h2)

  registered-Registers :
      (dir : Option FilePath) (sc : PackScript) (d : Disk)
      → Registers sc (registered digest resolves pack_name dir sc d)
  registered-Registers none sc d = refl
  registered-Registers (some dir) sc d = saved-def dir sc d _ refl

  -- The definitions of the scripts are added behind those that were there.
  abbrev pub AddsDefs :
      List PackScript → List ScriptDef → Option PackError × (Placed ScriptDef × Disk) → Type 0
  AddsDefs scs items (some e, r) = Unit
  AddsDefs scs items (none, (q, d)) = q.items ≡ items ++ map def_of scs

  recorded-AddsDefs :
      (sc : PackScript) (r : Result ScriptError (ScriptDef × Disk)) (q : Placed ScriptDef)
      (d : Disk)
      → Registers sc r
      → AddsDefs (sc ∷ []) q.items (recorded digest resolves false r q d)
  recorded-AddsDefs sc (err e) q d made = tt
  recorded-AddsDefs sc (ok (def, d')) q d made =
      elim (Bool-cases (is_taken (λ (x : ScriptDef). x.name) q.items def)) [
        | inl there ↦ rw there tt
        | inr free ↦ rw free (ap (λ x. q.items ++ x ∷ []) made)
      ]

  script_one-AddsDefs :
      (dir : Option FilePath) (sc : PackScript) (q : Placed ScriptDef) (d : Disk)
      → AddsDefs (sc ∷ []) q.items (script_one digest resolves false pack_name dir sc q d)
  script_one-AddsDefs dir sc q d =
      elim (Bool-cases (any (λ (x : ScriptDef). x.name == sc.name) q.items)) [
        | inl there ↦ rw there tt
        | inr free ↦ rw free (
            recorded-AddsDefs sc (registered digest resolves pack_name dir sc d) q d
              (registered-Registers dir sc d))
      ]

  script_all-AddsDefs :
      (dir : Option FilePath) (scs : List PackScript) (q : Placed ScriptDef) (d : Disk)
      → AddsDefs scs q.items (script_all digest resolves false pack_name dir scs q d)
  unfolding script_all
  script_all-AddsDefs dir [] q d = sym (append_nil q.items)
  script_all-AddsDefs dir (sc ∷ more) q d =
      next (λ q' d'. script_all-AddsDefs dir more q' d')
        (script_one digest resolves false pack_name dir sc q d) (script_one-AddsDefs dir sc q d)
    where
      joined :
          (q' : Placed ScriptDef) (r : Option PackError × (Placed ScriptDef × Disk))
          → q'.items ≡ q.items ++ def_of sc ∷ []
          → AddsDefs more q'.items r
          → AddsDefs (sc ∷ more) q.items r
      joined q' (some e, r) same h = tt
      joined q' (none, (q2, d2)) same e =
          e
          ∙ (ap (λ xs. xs ++ map def_of more) same
              ∙ append_assoc q.items (def_of sc ∷ []) (map def_of more))

      next :
          ((q' : Placed ScriptDef) (d' : Disk)
            → AddsDefs more q'.items (script_all digest resolves false pack_name dir more q' d'))
          → (r : Option PackError × (Placed ScriptDef × Disk)) → AddsDefs (sc ∷ []) q.items r
          → AddsDefs (sc ∷ more) q.items (elim r.0 [
            | none ↦ script_all digest resolves false pack_name dir more r.1.0 r.1.1
            | some e ↦ (some e, (r.1.0, r.1.1))
          ])
      next rest (some e, r) h = tt
      next rest (none, (q', d')) same =
          joined q' (script_all digest resolves false pack_name dir more q' d') same (rest q' d')

  -- The same where replacement is not asked for.
  pub kept-AddsDefs :
      (replace : Bool)
      → replace ≡ false
      → (dir : Option FilePath) (scs : List PackScript) (q : Placed ScriptDef) (d : Disk)
      → AddsDefs scs q.items (script_all digest resolves replace pack_name dir scs q d)
  kept-AddsDefs replace keep dir scs q d = rw keep (script_all-AddsDefs dir scs q d)
