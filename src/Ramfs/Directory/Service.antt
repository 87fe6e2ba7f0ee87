-- ===== src/Ramfs/Directory/Service.antt =====
-- The operations of a directory of kernel/ramfs.c, seen by name.
use mathlib.Core.Option.{some-injective}
use deanos.Ramfs.Directory.{
  ramfs_create, Directory, ramfs_unlink, ramfs_finddir, unlink_child, Child, ramfs_alloc_node,
  find_child, ramfs_readdir, Kind, is_busy, same_name, file, directory,
}
use deanos.Prelude.{
  Bool, ℤ, Option, ◌≡◌, ℕ, List, true, some, ◌+◌, none, neg, ◌∷◌, ◌⊎◌, ◌<◌, length, false, ◌++◌,
  ◌^◌, pos, leb, ◌-◌, if_split, [], ◌≤◌, arith, ◌%◌, ◌||◌, Bool-cases, Option-cases, length-append,
  inl, inr, not, refl, ◌∙◌, suc, zero,
}
use deanos.Vfs.{Name, is_empty, name_max}
use deanos.Ramfs.Directory.Names.{
  all_distinct, Unlinked, same_name_refl, all_distinct-append, absent, busy, find_child-append,
  removed, unlink_child-Unlinked, head_alone, same_name-eq, find_child-append_other,
}

-- The names are distinct, and the size is the number of children, which fits 32 bits.
pub record IsDirectory (d : Directory) : Type 0 where
  pub distinct : all_distinct d.children ≡ true
  pub counted : length d.children ≡ d.size
  pub bounded : d.size < 2 ^ 32

-- What creating `name` can come to: an error that changes nothing, or the child `new` under its name.
pub data CreateOutcome (allocates : Bool) (name : Name) (new : Child) (d : Directory) (ino : ℕ)
    : ℤ × Directory × ℕ → Type 0 where
  unusable :
      (is_empty name ≡ true) ⊎ (name_max ≤ length name)
      → CreateOutcome allocates name new d ino (neg 1, d, ino)
  exists :
      (c : Child)
      → ramfs_finddir d name ≡ some c
      → CreateOutcome allocates name new d ino (neg 1, d, ino)
  no_node : allocates ≡ false → CreateOutcome allocates name new d ino (neg 1, d, ino)
  created :
      (d' : Directory)
      → ramfs_finddir d name ≡ none
      → IsDirectory d'
      → ramfs_finddir d' name ≡ some new
      → ((n : Name) → same_name name n ≡ false → ramfs_finddir d' n ≡ ramfs_finddir d n)
      → CreateOutcome allocates name new d ino (pos 0, d', (ino + 1) % 2 ^ 32)

append-created :
    (allocates : Bool) (new : Child) (d : Directory) (ino : ℕ)
    → IsDirectory d
    → d.size + 1 < 2 ^ 32
    → ramfs_finddir d new.name ≡ none
    → CreateOutcome allocates new.name new d ino (
      pos 0,
      record { children = d.children ++ (new ∷ []); size = (d.size + 1) % 2 ^ 32 },
      (ino + 1) % 2 ^ 32,
    )
unfolding ramfs_finddir
append-created allocates new d ino valid small free =
    let free' : find_child d.children new.name ≡ none = free in
    created (record { children = d.children ++ (new ∷ []); size = (d.size + 1) % 2 ^ 32 }) free
      (record {
        distinct = all_distinct-append d.children new valid.distinct free;
        counted = omega (arith, length-append d.children (new ∷ []), valid.counted);
        bounded = omega arith;
      })
      (find_child-append d.children new new.name ∙ rw (free', same_name_refl new.name) refl)
      (λ n apart. find_child-append_other d.children new n apart)

-- Creating a name that is usable and not there yet, with memory for the node, puts a new child under it
-- and changes no other lookup; in every other case it is an error that changes nothing. The names stay
-- distinct and the count of children right. The directory has room for one more child.
pub ramfs_create-CreateOutcome :
    (allocates with_data : Bool) (uid gid : ℕ) (name : Name) (kind : Kind) (d : Directory) (ino : ℕ)
    → IsDirectory d
    → d.size + 1 < 2 ^ 32
    → CreateOutcome allocates name
        (ramfs_alloc_node with_data uid gid name kind ino)
        d
        ino
        (ramfs_create allocates with_data uid gid name kind d ino)
unfolding ramfs_create ramfs_alloc_node
ramfs_create-CreateOutcome allocates with_data uid gid name kind d ino valid small =
    let new = ramfs_alloc_node with_data uid gid name kind ino in
    let P = CreateOutcome allocates name new d ino in
    if_split P (is_empty name || leb name_max (length name)) (λ bad. unusable (ground (arith, bad)))
      (λ good. elim (Option-cases (ramfs_finddir d name)) [
        | inr (c, found) ↦ rw found (exists c found)
        | inl free ↦ rw free (
            if_split P (not allocates) (λ lack. no_node (ground (arith, lack)))
              (λ has. append-created allocates new d ino valid small free))
      ])

-- What unlinking `name` can come to.
pub data UnlinkOutcome (name : Name) (d : Directory) : ℤ × Directory → Type 0 where
  missing : ramfs_finddir d name ≡ none → UnlinkOutcome name d (neg 1, d)
  not_empty :
      (c : Child)
      → ramfs_finddir d name ≡ some c
      → is_busy c ≡ true
      → UnlinkOutcome name d (neg 1, d)
  unlinked :
      (d' : Directory)
      → IsDirectory d'
      → ramfs_finddir d' name ≡ none
      → ((n : Name) → same_name name n ≡ false → ramfs_finddir d' n ≡ ramfs_finddir d n)
      → UnlinkOutcome name d (pos 0, d')

-- Unlinking takes away the name and nothing else, unless the name is missing or is a directory with
-- children, where it is an error that changes nothing. The names stay distinct and the count right.
pub ramfs_unlink-UnlinkOutcome :
    (name : Name) (d : Directory) → IsDirectory d → UnlinkOutcome name d (ramfs_unlink name d)
unfolding ramfs_unlink ramfs_finddir
ramfs_unlink-UnlinkOutcome name d valid =
    by_outcome (unlink_child d.children name) (unlink_child-Unlinked d.children name valid.distinct)
  where
    by_outcome :
        (o : Option (List Child))
        → Unlinked d.children name o
        → UnlinkOutcome name d (elim o as (λ _. ℤ × Directory) [
          | none ↦ (neg 1, d)
          | some cs ↦ (pos 0, record { children = cs; size = (d.size + (2 ^ 32 - 1)) % 2 ^ 32 })
        ])
    by_outcome _ (absent free) = missing free
    by_outcome _ (busy c found full) = not_empty c found full
    by_outcome _ (removed cs gone kept distinct shorter) =
        unlinked (record { children = cs; size = (d.size + (2 ^ 32 - 1)) % 2 ^ 32 })
          (record {
            distinct = distinct;
            counted = omega (arith, valid.counted, valid.bounded);
            bounded = omega arith;
          })
          gone kept

unlink_child-append :
    (cs : List Child) (new : Child)
    → find_child cs new.name ≡ none
    → is_busy new ≡ false
    → unlink_child (cs ++ (new ∷ [])) new.name ≡ some cs
unfolding unlink_child find_child
unlink_child-append [] new free idle = rw (same_name_refl new.name, idle) refl
unlink_child-append (c ∷ cs) new free idle = elim (Bool-cases (same_name c.name new.name)) [
  | inl here ↦ cc (rw here at free)
  | inr other ↦ rw (other, unlink_child-append cs new (rw other at free) idle) refl
]

new_child-is_busy :
    (with_data : Bool) (uid gid : ℕ) (name : Name) (kind : Kind) (ino : ℕ)
    → is_busy (ramfs_alloc_node with_data uid gid name kind ino) ≡ false
unfolding ramfs_alloc_node
new_child-is_busy with_data uid gid name file ino = refl
new_child-is_busy with_data uid gid name directory ino = refl

-- Unlinking what was just created gives the directory back.
pub ramfs_unlink-ramfs_create :
    (with_data : Bool) (uid gid : ℕ) (name : Name) (kind : Kind) (d : Directory) (ino : ℕ)
    → IsDirectory d
    → is_empty name ≡ false
    → length name < name_max
    → ramfs_finddir d name ≡ none
    → ramfs_unlink name (ramfs_create true with_data uid gid name kind d ino).1 ≡ (pos 0, d)
unfolding ramfs_unlink ramfs_create ramfs_alloc_node
ramfs_unlink-ramfs_create with_data uid gid name kind d ino valid named short free =
    let new = ramfs_alloc_node with_data uid gid name kind ino in
    let fits : leb name_max (length name) ≡ false = ground (arith, short) in
    let size : ((d.size + 1) % 2 ^ 32 + (2 ^ 32 - 1)) % 2 ^ 32 ≡ d.size =
      omega (arith, valid.bounded) in
    let free' : find_child d.children name ≡ none = free in
    let taken_off : unlink_child (d.children ++ (new ∷ [])) name ≡ some d.children =
      unlink_child-append d.children new free'
        (new_child-is_busy with_data uid gid name kind ino) in
    rw (named, fits, free') (rw (ramfs_unlink, taken_off, size) refl)

-- What a listing shows is found by its name.
pub ramfs_finddir-ramfs_readdir :
    (d : Directory) (index : ℕ) (c : Child)
    → IsDirectory d
    → ramfs_readdir d.children index ≡ some c
    → ramfs_finddir d c.name ≡ some c
unfolding ramfs_finddir ramfs_readdir find_child
ramfs_finddir-ramfs_readdir d index c valid e = listed d.children index valid.distinct e
  where
    listed :
        (cs : List Child) (i : ℕ)
        → all_distinct cs ≡ true
        → ramfs_readdir cs i ≡ some c
        → find_child cs c.name ≡ some c
    listed [] i distinct e = cc
    listed (b ∷ cs) zero distinct e =
        let same : b ≡ c = some-injective b c e in rw (same, same_name_refl c.name) refl
    listed (b ∷ cs) (suc i) distinct e =
        let alone = head_alone b cs distinct in
        let found = listed cs i alone.1 e in
        elim (Bool-cases (same_name b.name c.name)) [
          | inl here ↦
              let same = same_name-eq b.name c.name here in
              let gone : find_child cs c.name ≡ none = rw (← same) alone.0 in cc
          | inr other ↦ rw other found
        ]
