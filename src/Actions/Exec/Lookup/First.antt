-- ===== src/Actions/Exec/Lookup/First.antt =====
-- What a command finds first.
use mcp_gatehound.Base.{
  Bool, true, not, Option, some, none, List, ◌∷◌, ◌≡◌, refl, retain, arith, Bool-cases, inl, inr,
}
use mcp_gatehound.Scripts.Files.{FilePath, split_last}
use mcp_gatehound.Config.Commands.{same_path}
use mcp_gatehound.Config.Commands.Found.{same_path_refl}
use mcp_gatehound.Actions.Exec.Lookup.{parent_of, starts_in, put_in_front, child_path, or_no_dirs}

put_in_front-first :
    (fits : FilePath → Bool) (o : Option FilePath) (dirs out : List FilePath)
    → put_in_front fits o dirs ≡ some out
    → (dir : FilePath) × (o ≡ some dir)
      × (out ≡ dir ∷ retain (λ d. not (same_path d dir)) dirs)
      × (starts_in dir out ≡ true)
put_in_front-first fits none dirs out e = cc
put_in_front-first fits (some dir) dirs out e =
    let led : out ≡ dir ∷ retain (λ d. not (same_path d dir)) dirs = ground arith in
    (dir, refl, led, rw led (same_path_refl dir))

-- A PATH that was changed has the command's own directory in front and behind it the others in their
-- order, without that one; changing it once more changes nothing.
pub child_path-first :
    (fits : FilePath → Bool) (cmd : FilePath) (inherited : Option (List FilePath))
    (out : List FilePath)
    → child_path fits cmd inherited ≡ some out
    → ((dir : FilePath) × (parent_of cmd.absolute (split_last cmd.parts) ≡ some dir)
        × (out ≡ dir ∷ retain (λ d. not (same_path d dir)) (or_no_dirs inherited)))
      × (child_path fits cmd (some out) ≡ none)
unfolding child_path
child_path-first fits cmd inherited out e = elim (Bool-cases cmd.absolute) [
  | inr relative ↦ absurd (ground arith)
  | inl absolute ↦
      let changed : put_in_front fits (parent_of cmd.absolute (split_last cmd.parts))
            (or_no_dirs inherited)
          ≡ some out =
        ground arith in
      let (dir, same, led, first) = put_in_front-first fits _ (or_no_dirs inherited) out changed in
      ((dir, same, led), rw (same, child_path) (ground arith))
]
