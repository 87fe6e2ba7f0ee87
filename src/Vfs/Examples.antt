-- ===== src/Vfs/Examples.antt =====
-- Examples about kernel/vfs.c.
use deanos.Vfs.Start.{IsFitting, resolve_path, vfs_normalize_path-resolves}
use deanos.Vfs.{Name}
use deanos.Vfs.Path.{vfs_normalize_path}
use deanos.Prelude.{◌∷◌, ◌≡◌, arith, refl, some, []}
use deanos.Vfs.Stack.{path_of}

-- "/home"
abbrev home : Name
home = 47 ∷ 104 ∷ 111 ∷ 109 ∷ 101 ∷ []

-- "../b/./c"
abbrev up_and_down : Name
up_and_down = 46 ∷ 46 ∷ 47 ∷ 98 ∷ 47 ∷ 46 ∷ 47 ∷ 99 ∷ []

home_fits : IsFitting home up_and_down 256
home_fits = record {
  from_root = refl;
  short_cwd = refl;
  short_path = refl;
  room = omega arith;
  size = omega arith;
}

normal_form : vfs_normalize_path home up_and_down 256 ≡ some (47 ∷ 98 ∷ 47 ∷ 99 ∷ [])
unfolding vfs_normalize_path
normal_form = refl

vfs_normalize_path-resolves_example :
    vfs_normalize_path home up_and_down 256 ≡ some (path_of (resolve_path home up_and_down))
vfs_normalize_path-resolves_example = vfs_normalize_path-resolves home up_and_down 256 home_fits
