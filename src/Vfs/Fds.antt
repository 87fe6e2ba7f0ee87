-- ===== src/Vfs/Fds.antt =====
-- The file descriptors of the running task: kernel/vfs.c, and closing on exec of kernel/task.c.
--
-- What a call asks of a node is kept in `hooks`, the newest first: `vfs_open_node` that succeeded, and
-- `vfs_close_node`. Whether a node can be opened with given flags, and what reading and writing it
-- gives, are parameters. A negative descriptor is refused by each call as one from 64 on is.
pub mod Balance
pub mod Keeping
mod Examples
use deanos.Prelude.{
  ℕ, bit_test, find_first, ℤ, bit_set, List, none, Bool, suc, Option, bit_clear, get_or,
  if◌then◌else◌, pos, ◌%◌, ◌+◌, neg, not, drop, ◌∷◌, leb, set, ◌||◌, ◌==◌, ◌^◌, some, true, negsuc,
  zero,
}
use deanos.Task.{task_max_fds, Fd, no_fd}

pub data Hook : Type 0 where
  opened closed : ℕ → Hook

pub record Files : Type 0 where
  pub fds : List Fd
  pub hooks : List Hook

abbrev pub fd_at : List Fd → ℕ → Fd
fd_at fds fd = get_or fds fd no_fd

abbrev pub is_free : Fd → Bool
is_free f = not f.in_use

-- `fd_alloc`: the first free descriptor from 3 on; `none` is -1.
unfoldable pub fd_alloc : List Fd → Option ℕ
unfolding find_first
fd_alloc fds = elim (find_first is_free (drop 3 fds)) [ none ↦ none | some i ↦ some (3 + i) ]

-- `fd < 0 || fd >= TASK_MAX_FDS || !t->fds[fd].in_use`
abbrev pub is_bad : List Fd → ℕ → Bool
is_bad fds fd = leb task_max_fds fd || not (fd_at fds fd).in_use

-- The end of `vfs_fd_open` and of `vfs_fd_install_node`, once the node was opened: from `fd_alloc` on.
unfoldable pub install : (node offset open_flags fd_flags : ℕ) → Files → ℤ × Files
unfolding fd_alloc
install node offset open_flags fd_flags s = elim (fd_alloc s.fds) as (λ _. ℤ × Files) [
  | none ↦ (neg 1, record s { hooks = closed node ∷ opened node ∷ s.hooks })
  | some fd ↦ (
    pos fd,
    record {
      fds = set s.fds fd (record {
        node = node;
        offset = offset;
        open_flags = open_flags;
        fd_flags = fd_flags;
        in_use = true;
      });
      hooks = opened node ∷ s.hooks;
    },
  )
]

-- `vfs_fd_open` from `vfs_open_node` on, for the node that was found or created and its size.
unfoldable pub vfs_fd_open : (ℕ → ℕ → Bool) → (node size flags : ℕ) → Files → ℤ × Files
unfolding install bit_test
vfs_fd_open opens node size flags s =
    let open_flags = flags % 2 ^ 5 in
    let offset = if bit_test flags 4 then size else 0 in
    let fd_flags = if bit_test flags 5 then 1 else 0 in
    if not (opens node open_flags) then (neg 1, s) else install node offset open_flags fd_flags s

-- A node that cannot be opened is closed all the same.
unfoldable pub vfs_fd_install_node :
    (ℕ → ℕ → Bool) → (node open_flags fd_flags : ℕ) → Files → ℤ × Files
unfolding install
vfs_fd_install_node opens node open_flags fd_flags s =
    if not (opens node open_flags)
    then (neg 1, record s { hooks = closed node ∷ s.hooks })
    else install node 0 open_flags fd_flags s

unfoldable pub vfs_fd_close : (fd : ℕ) → Files → ℤ × Files
vfs_fd_close fd s = if is_bad s.fds fd then (neg 1, s) else (
  pos 0,
  record { fds = set s.fds fd no_fd; hooks = closed (fd_at s.fds fd).node ∷ s.hooks },
)

unfoldable pub vfs_fd_dup2 : (ℕ → ℕ → Bool) → (oldfd newfd : ℕ) → Files → ℤ × Files
unfolding vfs_fd_close
vfs_fd_dup2 opens oldfd newfd s =
    let f = fd_at s.fds oldfd in
    let s' : Files = record s { hooks = opened f.node ∷ s.hooks } in
    let s'' = if (fd_at s.fds newfd).in_use then (vfs_fd_close newfd s').1 else s' in
    if is_bad s.fds oldfd
    then (neg 1, s)
    else if leb task_max_fds newfd
    then (neg 1, s)
    else if newfd == oldfd
    then (pos newfd, s)
    else if not (opens f.node f.open_flags)
    then (neg 1, s)
    else (pos newfd, record s'' { fds = set s''.fds newfd (record f { fd_flags = 0 }) })

-- VFS_F_GETFD is 1, VFS_F_SETFD is 2; both read one bit.
unfoldable pub vfs_fd_fcntl : (fd cmd arg : ℕ) → Files → ℤ × Files
unfolding bit_set bit_clear
vfs_fd_fcntl fd cmd arg s =
    let f = fd_at s.fds fd in
    let fd_flags = if arg % 2 == 1 then bit_set f.fd_flags 0 else bit_clear f.fd_flags 0 in
    if is_bad s.fds fd
    then (neg 1, s)
    else if cmd == 1
    then (pos (f.fd_flags % 2), s)
    else if cmd == 2
    then (pos 0, record s { fds = set s.fds fd (record f { fd_flags = fd_flags }) })
    else (neg 1, s)

-- `if (n > 0) f->offset += (uint32_t)n;`
abbrev pub advanced : ℤ → Fd → Fd
advanced (pos n) f = record f { offset = (f.offset + n) % 2 ^ 32 }
advanced (negsuc n) f = f

-- `allows` is the check of the node's permission, and `node_read` the node's own read.
unfoldable pub vfs_fd_read :
    (allows : ℕ → Bool) (node_read : (node offset size : ℕ) → ℤ) → (fd size : ℕ) → Files → ℤ × Files
vfs_fd_read allows node_read fd size s =
    let f = fd_at s.fds fd in
    let n = node_read f.node f.offset size in
    if is_bad s.fds fd
    then (neg 1, s)
    else if f.open_flags % 2 == 1
    then (neg 1, s)
    else if not (allows f.node)
    then (neg 1, s)
    else (n, record s { fds = set s.fds fd (advanced n f) })

-- The access is VFS_O_WRONLY, 1, or VFS_O_RDWR, 2.
unfoldable pub vfs_fd_write :
    (allows : ℕ → Bool) (node_write : (node offset size : ℕ) → ℤ)
    → (fd size : ℕ) → Files
    → ℤ × Files
vfs_fd_write allows node_write fd size s =
    let f = fd_at s.fds fd in
    let access = f.open_flags % 4 in
    let n = node_write f.node f.offset size in
    if is_bad s.fds fd
    then (neg 1, s)
    else if not (access == 1 || access == 2)
    then (neg 1, s)
    else if not (allows f.node)
    then (neg 1, s)
    else (n, record s { fds = set s.fds fd (advanced n f) })

-- The loop of `task_fd_table_close_cloexec` over the `n` descriptors from `i` on.
unfoldable pub close_cloexec : ℕ → ℕ → Files → Files
unfolding vfs_fd_close
close_cloexec zero i s = s
close_cloexec (suc n) i s =
    let f = fd_at s.fds i in
    let kept = close_cloexec n (i + 1) s in
    let shut = close_cloexec n (i + 1) (vfs_fd_close i s).1 in
    if not f.in_use then kept else if not (f.fd_flags % 2 == 1) then kept else shut

unfoldable pub task_close_cloexec_fds_current : Files → Files
unfolding close_cloexec
task_close_cloexec_fds_current s = close_cloexec task_max_fds 0 s
