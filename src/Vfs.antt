-- ===== src/Vfs.antt =====
-- kernel/vfs.c: names and permissions of nodes, the resolution of paths, and file descriptors.
pub mod Fds
pub mod Pipe
pub mod Path
pub mod Split
pub mod Stack
pub mod Resolve
pub mod Start
mod Examples
use deanos.Prelude.{
  Bool, bit_test, ℕ, List, not, if◌then◌else◌, ◌∷◌, true, false, [], ◌==◌, ◌&&◌, ◌||◌,
}

abbrev pub slash : ℕ
slash = 47

abbrev pub dot : ℕ
dot = 46

-- A string is the list of its bytes, without the 0 at its end.
abbrev pub Name : Type 0
Name = List ℕ

abbrev pub name_max : ℕ
name_max = 64

abbrev pub path_max : ℕ
path_max = 256

-- The fields of vfs_node_t that the layer itself reads and writes.
pub record Node : Type 0 where
  pub is_file : Bool
  pub is_directory : Bool
  pub size : ℕ
  pub inode : ℕ
  pub mode : ℕ
  pub uid : ℕ
  pub gid : ℕ

-- The kind of access that is asked for, by the bit of the others: VFS_MODE_IROTH and its like.
pub data Access : Type 0 where
  read_access write_access execute_access : Access

-- `vfs_perm_triplet`: the places of the owner's, the group's and the others' bit in the mode.
abbrev pub vfs_perm_triplet : Access → ℕ × ℕ × ℕ
vfs_perm_triplet read_access = (8, 5, 2)
vfs_perm_triplet write_access = (7, 4, 1)
vfs_perm_triplet execute_access = (6, 3, 0)

-- For the effective user and group of the running task.
unfoldable pub vfs_node_allows : (uid gid : ℕ) → Node → Access → Bool
unfolding bit_test
vfs_node_allows uid gid node perm =
    let (owner_bit, group_bit, other_bit) = vfs_perm_triplet perm in
    if node.mode == 0
    then true
    else if uid == 0
    then true
    else if uid == node.uid
    then bit_test node.mode owner_bit
    else if gid == node.gid
    then bit_test node.mode group_bit
    else bit_test node.mode other_bit

abbrev pub has_slash : Name → Bool
has_slash [] = false
has_slash (c ∷ cs) = c == slash || has_slash cs

abbrev pub is_dot : Name → Bool
is_dot (c ∷ []) = c == dot
is_dot _ = false

abbrev pub is_dot_dot : Name → Bool
is_dot_dot (c ∷ d ∷ []) = c == dot && d == dot
is_dot_dot _ = false

abbrev pub is_empty : Name → Bool
is_empty [] = true
is_empty (c ∷ cs) = false

unfoldable pub vfs_name_is_valid : Name → Bool
vfs_name_is_valid name =
    not (is_empty name) && (not (is_dot name || is_dot_dot name) && not (has_slash name))
