-- ===== src/Ramfs/Directory/Examples.antt =====
-- Examples about the directories of kernel/ramfs.c.
use deanos.Ramfs.Directory.{
  ramfs_alloc_node, Directory, find_child, ramfs_finddir, ramfs_readdir, directory, ramfs_unlink,
  ramfs_create, file,
}
use deanos.Ramfs.Directory.Service.{
  IsDirectory, UnlinkOutcome, CreateOutcome, ramfs_unlink-UnlinkOutcome, ramfs_create-CreateOutcome,
  ramfs_finddir-ramfs_readdir, ramfs_unlink-ramfs_create,
}
use deanos.Vfs.{Name}
use deanos.Prelude.{◌≡◌, ◌∷◌, [], arith, true, some, refl, pos}

abbrev no_children : Directory
no_children = record { children = []; size = 0 }

no_children-IsDirectory : IsDirectory no_children
no_children-IsDirectory = record { distinct = refl; counted = refl; bounded = omega arith }

-- "tmp"
abbrev tmp : Name
tmp = 116 ∷ 109 ∷ 112 ∷ []

-- A directory with a subdirectory.
abbrev with_tmp : Directory
unfolding ramfs_alloc_node
with_tmp = record { children = ramfs_alloc_node true 0 0 tmp directory 7 ∷ []; size = 1 }

with_tmp-IsDirectory : IsDirectory with_tmp
unfolding find_child with_tmp
with_tmp-IsDirectory = record { distinct = refl; counted = refl; bounded = omega arith }

ramfs_create-CreateOutcome_example :
    CreateOutcome true tmp
      (ramfs_alloc_node true 0 0 tmp directory 7)
      no_children
      7
      (ramfs_create true true 0 0 tmp directory no_children 7)
ramfs_create-CreateOutcome_example =
    ramfs_create-CreateOutcome true true 0 0 tmp directory no_children 7 no_children-IsDirectory
      (omega arith)

ramfs_unlink-UnlinkOutcome_example : UnlinkOutcome tmp with_tmp (ramfs_unlink tmp with_tmp)
ramfs_unlink-UnlinkOutcome_example = ramfs_unlink-UnlinkOutcome tmp with_tmp with_tmp-IsDirectory

ramfs_unlink-ramfs_create_example :
    ramfs_unlink tmp (ramfs_create true true 0 0 tmp file no_children 7).1 ≡ (pos 0, no_children)
unfolding ramfs_finddir find_child
ramfs_unlink-ramfs_create_example =
    ramfs_unlink-ramfs_create true 0 0 tmp file no_children 7 no_children-IsDirectory refl
      (omega arith) refl

ramfs_finddir-ramfs_readdir_example :
    ramfs_finddir with_tmp tmp ≡ some (ramfs_alloc_node true 0 0 tmp directory 7)
unfolding ramfs_readdir ramfs_alloc_node with_tmp
ramfs_finddir-ramfs_readdir_example =
    ramfs_finddir-ramfs_readdir with_tmp 0 (ramfs_alloc_node true 0 0 tmp directory 7)
      with_tmp-IsDirectory refl
