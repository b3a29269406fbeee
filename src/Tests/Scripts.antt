-- ===== src/Tests/Scripts.antt =====
-- A script that is saved, checked again and reviewed.
use mcp_gatehound.Scripts.{extension}
use mcp_gatehound.Base.{
  false, ℕ, String, Option, some, List, [], ◌∷◌, ◌≡◌, refl, ok, trim, lines, any,
}
use mcp_gatehound.Scripts.{ScriptDef, python3, local, valid_name}
use mcp_gatehound.Scripts.Files.{FilePath, path_of, Disk, contained, verify, save}
use mcp_gatehound.Scripts.Files.Contained.{Below, contained-Below}
use mcp_gatehound.Scripts.Files.Pinned.{verify-save}
use mcp_gatehound.Scripts.Review.{review_of, has_danger}
use mcp_gatehound.Scripts.Danger.{is_dangerous, has_danger-review}

abbrev base : FilePath
base = path_of "/srv"

abbrev place : List String
place = "srv" ∷ "scripts" ∷ "greet.py" ∷ []

abbrev canonical : FilePath → Option (List String)
canonical p = some p.parts

abbrev disk : Disk
disk = record { canonical = canonical; is_directory = λ p. false; texts = [] }

abbrev digest : List ℕ → String
digest bs = "00"

abbrev def : ScriptDef
def = record {
  name = "greet";
  interpreter = python3;
  sha256 = "00";
  description = "";
  origin = local;
}

abbrev after : Disk
after = record disk { texts = (place, "print(1)") ∷ [] }

contained-Below_example : Below canonical base place
unfolding contained
contained-Below_example = contained-Below canonical base (path_of "scripts/greet.py") place refl

verify-save_example : verify digest after base def ≡ ok tt
unfolding contained extension save valid_name
verify-save_example =
    verify-save digest base "greet" python3 "print(1)" "" local disk after def place (λ b. refl)
      refl refl refl

abbrev source : String
source = "import os\nos.system(cmd)"

has_danger-review_example :
    has_danger (review_of digest "greet" python3 source)
    ≡ any (λ raw. is_dangerous (trim raw)) (lines source)
has_danger-review_example = has_danger-review digest "greet" python3 source
