-- ===== src/Vfs/Fds/Examples.antt =====
-- Examples about the descriptors of kernel/vfs.c.
use deanos.Vfs.Fds.Balance.{IsBalanced}
use deanos.Vfs.Fds.{vfs_fd_dup2, Files, opened}
use deanos.Vfs.Fds.Keeping.{KeepsBalance, descriptors-KeepsBalance}
use deanos.Task.{no_fd}
use deanos.Prelude.{arith, true, ◌≡◌, refl, ◌∷◌, replicate, []}

-- Node 7 is open as descriptor 3.
abbrev one_open : Files
one_open = record {
  fds =
      no_fd
      ∷ no_fd
      ∷ no_fd
      ∷ record { node = 7; offset = 0; open_flags = 1; fd_flags = 0; in_use = true }
      ∷ replicate 60 no_fd;
  hooks = opened 7 ∷ [];
}

one_open-IsBalanced : IsBalanced one_open
one_open-IsBalanced = record { table = refl; balance = λ n. omega arith }

descriptors-KeepsBalance_example : KeepsBalance one_open
descriptors-KeepsBalance_example = descriptors-KeepsBalance one_open one_open-IsBalanced

-- A duplicate opens the node once more.
dup2_hooks : (vfs_fd_dup2 (λ node flags. true) 3 5 one_open).1.hooks ≡ opened 7 ∷ opened 7 ∷ []
unfolding vfs_fd_dup2
dup2_hooks = refl
