-- ===== src/Tests/Commands.antt =====
-- A command that stands in two directories, one of which is in PATH twice.
use mcp_gatehound.Base.{Bool, some, List, [], ◌∷◌, ◌||◌, ◌++◌, map, ◌≡◌, refl}
use mcp_gatehound.Scripts.Files.{FilePath, path_of}
use mcp_gatehound.Config.Commands.{same_path, fixed_dirs, of_home, find_command_in}
use mcp_gatehound.Config.Commands.Found.{IsListing, first_of_all, find_command_in-IsListing}

abbrev is_file : FilePath → Bool
is_file p = same_path p (path_of "/usr/bin/node") || same_path p (path_of "/home/ann/bin/node")

abbrev entries : FilePath → List FilePath
entries p = []

abbrev path : List FilePath
path = path_of "/usr/bin" ∷ path_of "/srv" ∷ path_of "/usr/bin" ∷ []

find_command_in-IsListing_example :
    IsListing is_file "node"
      (path ++ map path_of fixed_dirs ++ of_home entries (some (path_of "/home/ann")))
      (find_command_in is_file entries "/gone/node" (some (path_of "/home/ann")) (some path))
    × (first_of_all
          (find_command_in is_file entries "/gone/node" (some (path_of "/home/ann")) (some path))
        ≡ some (path_of "/usr/bin/node"))
find_command_in-IsListing_example =
    find_command_in-IsListing is_file entries "/gone/node" "node" (some (path_of "/home/ann"))
      (some path) refl
