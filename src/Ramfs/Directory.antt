-- ===== src/Ramfs/Directory.antt =====
-- kernel/ramfs.c: the entries of a directory, which are found, listed, created and unlinked by name.
pub mod Names
pub mod Service
mod Examples
use deanos.Prelude.{
  Bool, ℕ, List, ◌*◌, Option, [], ℤ, false, ◌++◌, none, ◌+◌, true, ◌∷◌, neg, if◌then◌else◌, some,
  ◌%◌, ◌==◌, ◌^◌, pos, suc, ◌&&◌, ◌-◌, zero, ◌||◌, leb, length, not,
}
use deanos.Vfs.{Name, is_empty, name_max}
use deanos.Ramfs.{File}

-- The type of a node that is created, VFS_FILE or VFS_DIRECTORY.
pub data Kind : Type 0 where
  file directory : Kind

-- What a directory knows of a node in it. `has_data` says that `impl` is not NULL, `is_parent` that the
-- node has children itself. A file without `impl` can be neither read nor written.
pub record Child : Type 0 where
  pub name : Name
  pub kind : Kind
  pub inode : ℕ
  pub mode : ℕ
  pub uid : ℕ
  pub gid : ℕ
  pub contents : File
  pub has_data : Bool
  pub is_parent : Bool

-- The list of children, and the size of the directory's node, which counts them.
pub record Directory : Type 0 where
  pub children : List Child
  pub size : ℕ

-- `strcmp(a, b) == 0`
abbrev pub same_name : Name → Name → Bool
same_name [] [] = true
same_name [] (d ∷ ds) = false
same_name (c ∷ cs) [] = false
same_name (c ∷ cs) (d ∷ ds) = c == d && same_name cs ds

unfoldable pub find_child : List Child → Name → Option Child
find_child [] name = none
find_child (c ∷ cs) name =
    let rest = find_child cs name in if same_name c.name name then some c else rest

unfoldable pub ramfs_finddir : Directory → Name → Option Child
unfolding find_child
ramfs_finddir d name = find_child d.children name

-- `none` is -1.
unfoldable pub ramfs_readdir : List Child → (index : ℕ) → Option Child
ramfs_readdir [] index = none
ramfs_readdir (c ∷ cs) zero = some c
ramfs_readdir (c ∷ cs) (suc index) = ramfs_readdir cs index

abbrev default_mode : Kind → ℕ
default_mode file = 6 * 64 + 4 * 8 + 4
default_mode directory = 7 * 64 + 5 * 8 + 5

-- For the user and group of the running task. `with_data` says whether the heap has memory for the data
-- of a file; the node is made without it as well. A name has fewer than 64 bytes here.
unfoldable pub ramfs_alloc_node :
    (with_data : Bool) (uid gid : ℕ) → Name → Kind → (next_inode : ℕ) → Child
ramfs_alloc_node with_data uid gid name kind next_inode = record {
  name = name;
  kind = kind;
  inode = next_inode;
  mode = default_mode kind;
  uid = uid;
  gid = gid;
  contents = record { content = []; size = 0 };
  has_data = elim kind as (λ _. Bool) [ file ↦ with_data | directory ↦ false ];
  is_parent = false;
}

-- The result, the parent and the next inode. `allocates` says whether the heap has memory for a node.
unfoldable pub ramfs_create :
    (allocates with_data : Bool) (uid gid : ℕ)
    → Name
    → Kind
    → Directory
    → (next_inode : ℕ) → ℤ × Directory × ℕ
unfolding ramfs_finddir ramfs_alloc_node
ramfs_create allocates with_data uid gid name kind d next_inode =
    let child = ramfs_alloc_node with_data uid gid name kind next_inode in
    let created : Directory = record {
      children = d.children ++ (child ∷ []);
      size = (d.size + 1) % 2 ^ 32;
    } in
    if is_empty name || leb name_max (length name)
    then (neg 1, d, next_inode)
    else elim (ramfs_finddir d name) as (λ _. ℤ × Directory × ℕ) [
      | some c ↦ (neg 1, d, next_inode)
      | none ↦
          if not allocates
          then (neg 1, d, next_inode)
          else (pos 0, created, (next_inode + 1) % 2 ^ 32)
    ]

abbrev pub is_busy : Child → Bool
is_busy c = elim c.kind as (λ _. Bool) [ file ↦ false | directory ↦ c.is_parent ]

abbrev pub put_first : Child → Option (List Child) → Option (List Child)
put_first c none = none
put_first c (some cs) = some (c ∷ cs)

-- The loop of `ramfs_unlink`: the children without the named one; `none` is -1.
unfoldable pub unlink_child : List Child → Name → Option (List Child)
unlink_child [] name = none
unlink_child (c ∷ cs) name =
    let rest = put_first c (unlink_child cs name) in
    if same_name c.name name then (if is_busy c then none else some cs) else rest

unfoldable pub ramfs_unlink : Name → Directory → ℤ × Directory
unfolding unlink_child
ramfs_unlink name d = elim (unlink_child d.children name) as (λ _. ℤ × Directory) [
  | none ↦ (neg 1, d)
  | some cs ↦ (pos 0, record { children = cs; size = (d.size + (2 ^ 32 - 1)) % 2 ^ 32 })
]
