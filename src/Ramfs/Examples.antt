-- ===== src/Ramfs/Examples.antt =====
-- Examples about kernel/ramfs.c.
use deanos.Ramfs.{ramfs_write, ramfs_read, File}
use deanos.Ramfs.Writing.{
  WriteOutcome, Seen, ramfs_read-Seen, ramfs_write-WriteOutcome, ramfs_read-ramfs_write,
}
use deanos.Ramfs.Bytes.{IsStored}
use deanos.Prelude.{List, true, arith, ℕ, [], ◌≡◌, inl, ◌∷◌, pos, refl}

abbrev fresh_file : File
fresh_file = record { content = []; size = 0 }

fresh_file-IsStored : IsStored fresh_file
fresh_file-IsStored = record {
  covered = omega arith;
  limited = omega arith;
  grown = inl refl;
  clean = λ i h. refl;
}

-- Two bytes at offset 3.
abbrev two_bytes : List ℕ
two_bytes = 65 ∷ 66 ∷ []

ramfs_write-WriteOutcome_example :
    WriteOutcome (λ n. true) fresh_file 3 two_bytes (ramfs_write (λ n. true) fresh_file 3 two_bytes)
ramfs_write-WriteOutcome_example =
    ramfs_write-WriteOutcome (λ n. true) fresh_file 3 two_bytes fresh_file-IsStored (omega arith)

ramfs_read-Seen_example : Seen fresh_file 3 2 (ramfs_read fresh_file 3 2)
ramfs_read-Seen_example = ramfs_read-Seen fresh_file 3 2 fresh_file-IsStored

ramfs_read-ramfs_write_example :
    ramfs_read (ramfs_write (λ n. true) fresh_file 3 two_bytes).1 3 2 ≡ (pos 2, two_bytes)
ramfs_read-ramfs_write_example =
    ramfs_read-ramfs_write fresh_file 3 two_bytes fresh_file-IsStored (omega arith) (omega arith)

-- The gap below the offset is zero.
gap : (ramfs_read (ramfs_write (λ n. true) fresh_file 3 two_bytes).1 2 2).1 ≡ 0 ∷ 65 ∷ []
unfolding ramfs_write ramfs_read
gap = refl
