-- ===== src/Vfs/Fds/Keeping.antt =====
-- The openings of nodes and the descriptors in use: opening, closing, duplicating, fcntl, reading and
-- writing of kernel/vfs.c, closing on exec, and installing a node that can be opened.
use deanos.Vfs.Fds.{
  vfs_fd_fcntl, vfs_fd_write, vfs_fd_dup2, vfs_fd_close, Files, close_cloexec,
  task_close_cloexec_fds_current, vfs_fd_open, vfs_fd_read, fd_at, advanced, is_bad, opened,
  vfs_fd_install_node,
}
use deanos.Prelude.{
  ℤ, ℕ, Bool, if◌then◌else◌, suc, ◌%◌, ◌<◌, ◌≡◌, ◌^◌, if_split, ◌==◌, ◌+◌, not, bit_set,
  both_branches, pos, false, ◌∷◌, leb, bit_clear, set, ◌||◌, zero, negsuc, arith, bit_test, refl,
  ap, get_or-set_self, length, ◌⊎◌, inl, inr,
}
use deanos.Vfs.Fds.Balance.{
  IsOwing, IsBalanced, vfs_fd_close-IsBalanced, install-IsBalanced, set-IsBalanced, good, one_of,
  open-IsOwing, vfs_fd_close-IsOwing, fill-IsBalanced,
}
use deanos.Task.{Fd, task_max_fds, no_fd}

vfs_fd_open-IsBalanced :
    (opens : ℕ → ℕ → Bool) (node size flags : ℕ) (s : Files)
    → IsBalanced s
    → IsBalanced (vfs_fd_open opens node size flags s).1
unfolding vfs_fd_open
vfs_fd_open-IsBalanced opens node size flags s b =
    let open_flags = flags % 2 ^ 5 in
    if_split (λ (r : ℤ × Files). IsBalanced r.1) (not (opens node open_flags)) (λ refused. b)
      (λ opened_it.
        install-IsBalanced node (if bit_test flags 4 then size else 0) open_flags
          (if bit_test flags 5 then 1 else 0) s b)

vfs_fd_install_node-IsBalanced :
    (opens : ℕ → ℕ → Bool) (node open_flags fd_flags : ℕ) (s : Files)
    → IsBalanced s
    → (opens node open_flags ≡ false)
      ⊎ IsBalanced (vfs_fd_install_node opens node open_flags fd_flags s).1
unfolding vfs_fd_install_node
vfs_fd_install_node-IsBalanced opens node open_flags fd_flags s b =
    if_split (λ (r : ℤ × Files). (opens node open_flags ≡ false) ⊎ IsBalanced r.1)
      (not (opens node open_flags)) (λ refused. inl (ground (arith, refused)))
      (λ opened_it. inr (install-IsBalanced node 0 open_flags fd_flags s b))

-- What `vfs_fd_dup2` does with the descriptor that it is about to replace.
abbrev cleared : ℕ → Files → Files
cleared fd s = if (fd_at s.fds fd).in_use then (vfs_fd_close fd s).1 else s

closed-in_use :
    (fd : ℕ) (s : Files)
    → length s.fds ≡ task_max_fds
    → fd < task_max_fds
    → is_bad s.fds fd ≡ false
    → (fd_at (vfs_fd_close fd s).1.fds fd).in_use ≡ false
unfolding vfs_fd_close
closed-in_use fd s table lt fine =
    rw fine
      (ap (λ (f : Fd). f.in_use) (get_or-set_self s.fds fd no_fd no_fd (omega (arith, table))))

cleared-IsOwing :
    (held : ℕ → ℕ) (fd : ℕ) (s : Files)
    → IsOwing held s
    → fd < task_max_fds
    → IsOwing held (cleared fd s) × ((fd_at (cleared fd s).fds fd).in_use ≡ false)
cleared-IsOwing held fd s o lt =
    if_split (λ (r : Files). IsOwing held r × ((fd_at r.fds fd).in_use ≡ false))
      (fd_at s.fds fd).in_use
      (λ used.
        (vfs_fd_close-IsOwing held fd s o, closed-in_use fd s o.table lt (ground (arith, used))))
      (λ free. (o, free))

vfs_fd_dup2-IsBalanced :
    (opens : ℕ → ℕ → Bool) (oldfd newfd : ℕ) (s : Files)
    → IsBalanced s
    → IsBalanced (vfs_fd_dup2 opens oldfd newfd s).1
unfolding vfs_fd_dup2
vfs_fd_dup2-IsBalanced opens oldfd newfd s b =
    let P = λ (r : ℤ × Files). IsBalanced r.1 in
    let f = fd_at s.fds oldfd in
    let s' : Files = record s { hooks = opened f.node ∷ s.hooks } in
    if_split P (is_bad s.fds oldfd) (λ bad. b)
      (λ fine.
        if_split P (leb task_max_fds newfd) (λ out. b)
          (λ within.
            if_split P (newfd == oldfd) (λ same. b)
              (λ other.
                if_split P (not (opens f.node f.open_flags)) (λ refused. b)
                  (λ opened_it.
                    let lt : newfd < task_max_fds = ground (arith, within) in
                    let c = cleared-IsOwing (one_of f.node) newfd s' (open-IsOwing s f.node b) lt in
                    fill-IsBalanced (cleared newfd s') newfd (record f { fd_flags = 0 }) c.0 lt c.1
                      (good s.fds oldfd fine).1))))

vfs_fd_fcntl-IsBalanced :
    (fd cmd arg : ℕ) (s : Files) → IsBalanced s → IsBalanced (vfs_fd_fcntl fd cmd arg s).1
unfolding vfs_fd_fcntl
vfs_fd_fcntl-IsBalanced fd cmd arg s b =
    let P = λ (r : ℤ × Files). IsBalanced r.1 in
    let f = fd_at s.fds fd in
    let fd_flags = if arg % 2 == 1 then bit_set f.fd_flags 0 else bit_clear f.fd_flags 0 in
    if_split P (is_bad s.fds fd) (λ bad. b)
      (λ fine.
        if_split P (cmd == 1) (λ get. b)
          (λ no_get.
            if_split P (cmd == 2)
              (λ put.
                set-IsBalanced s fd (record f { fd_flags = fd_flags }) b (good s.fds fd fine).0 refl
                  refl)
              (λ no_put. b)))

advanced-alike :
    (n : ℤ) (f : Fd) → ((advanced n f).in_use ≡ f.in_use) × ((advanced n f).node ≡ f.node)
advanced-alike (pos n) f = (refl, refl)
advanced-alike (negsuc n) f = (refl, refl)

advance-IsBalanced :
    (n : ℤ) (fd : ℕ) (s : Files)
    → IsBalanced s
    → is_bad s.fds fd ≡ false
    → IsBalanced (record s { fds = set s.fds fd (advanced n (fd_at s.fds fd)) })
advance-IsBalanced n fd s b fine =
    let alike = advanced-alike n (fd_at s.fds fd) in
    set-IsBalanced s fd (advanced n (fd_at s.fds fd)) b (good s.fds fd fine).0 alike.0 alike.1

vfs_fd_read-IsBalanced :
    (allows : ℕ → Bool) (node_read : ℕ → ℕ → ℕ → ℤ) (fd size : ℕ) (s : Files)
    → IsBalanced s
    → IsBalanced (vfs_fd_read allows node_read fd size s).1
unfolding vfs_fd_read
vfs_fd_read-IsBalanced allows node_read fd size s b =
    let P = λ (r : ℤ × Files). IsBalanced r.1 in
    let f = fd_at s.fds fd in
    if_split P (is_bad s.fds fd) (λ bad. b)
      (λ fine. both_branches P (f.open_flags % 2 == 1) b (
        both_branches P (not (allows f.node)) b
          (advance-IsBalanced (node_read f.node f.offset size) fd s b fine)))

vfs_fd_write-IsBalanced :
    (allows : ℕ → Bool) (node_write : ℕ → ℕ → ℕ → ℤ) (fd size : ℕ) (s : Files)
    → IsBalanced s
    → IsBalanced (vfs_fd_write allows node_write fd size s).1
unfolding vfs_fd_write
vfs_fd_write-IsBalanced allows node_write fd size s b =
    let P = λ (r : ℤ × Files). IsBalanced r.1 in
    let f = fd_at s.fds fd in
    let access = f.open_flags % 4 in
    if_split P (is_bad s.fds fd) (λ bad. b)
      (λ fine. both_branches P (not (access == 1 || access == 2)) b (
        both_branches P (not (allows f.node)) b
          (advance-IsBalanced (node_write f.node f.offset size) fd s b fine)))

close_cloexec-IsBalanced : (n i : ℕ) (s : Files) → IsBalanced s → IsBalanced (close_cloexec n i s)
unfolding close_cloexec
close_cloexec-IsBalanced zero i s b = b
close_cloexec-IsBalanced (suc n) i s b =
    let f = fd_at s.fds i in
    let kept = close_cloexec-IsBalanced n (i + 1) s b in
    both_branches IsBalanced (not f.in_use) kept (
      both_branches IsBalanced (not (f.fd_flags % 2 == 1)) kept
        (close_cloexec-IsBalanced n (i + 1) (vfs_fd_close i s).1 (vfs_fd_close-IsBalanced i s b)))

-- What the nodes answer, and what the caller passes.
pub record KeepsBalance (s : Files) : Type 0 where
  pub opening :
      (opens : ℕ → ℕ → Bool) (node size flags : ℕ)
      → IsBalanced (vfs_fd_open opens node size flags s).1
  pub installing :
      (opens : ℕ → ℕ → Bool) (node open_flags fd_flags : ℕ)
      → (opens node open_flags ≡ false)
        ⊎ IsBalanced (vfs_fd_install_node opens node open_flags fd_flags s).1
  pub close : (fd : ℕ) → IsBalanced (vfs_fd_close fd s).1
  pub dup2 :
      (opens : ℕ → ℕ → Bool) (oldfd newfd : ℕ) → IsBalanced (vfs_fd_dup2 opens oldfd newfd s).1
  pub fcntl : (fd cmd arg : ℕ) → IsBalanced (vfs_fd_fcntl fd cmd arg s).1
  pub read :
      (allows : ℕ → Bool) (node_read : ℕ → ℕ → ℕ → ℤ) (fd size : ℕ)
      → IsBalanced (vfs_fd_read allows node_read fd size s).1
  pub write :
      (allows : ℕ → Bool) (node_write : ℕ → ℕ → ℕ → ℤ) (fd size : ℕ)
      → IsBalanced (vfs_fd_write allows node_write fd size s).1
  pub exec : IsBalanced (task_close_cloexec_fds_current s)

-- Where every node was opened once more than it was closed for each descriptor in use of it, these calls
-- leave it so, whatever the nodes answer: vfs_fd_open, vfs_fd_close, vfs_fd_dup2, vfs_fd_fcntl,
-- vfs_fd_read, vfs_fd_write, closing on exec, and vfs_fd_install_node unless the node cannot be opened.
pub descriptors-KeepsBalance : (s : Files) → IsBalanced s → KeepsBalance s
unfolding task_close_cloexec_fds_current
descriptors-KeepsBalance s b = record {
  opening = λ opens node size flags. vfs_fd_open-IsBalanced opens node size flags s b;
  installing = λ opens node open_flags fd_flags.
      vfs_fd_install_node-IsBalanced opens node open_flags fd_flags s b;
  close = λ fd. vfs_fd_close-IsBalanced fd s b;
  dup2 = λ opens oldfd newfd. vfs_fd_dup2-IsBalanced opens oldfd newfd s b;
  fcntl = λ fd cmd arg. vfs_fd_fcntl-IsBalanced fd cmd arg s b;
  read = λ allows node_read fd size. vfs_fd_read-IsBalanced allows node_read fd size s b;
  write = λ allows node_write fd size. vfs_fd_write-IsBalanced allows node_write fd size s b;
  exec = close_cloexec-IsBalanced task_max_fds 0 s b;
}
