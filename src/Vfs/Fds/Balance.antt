-- ===== src/Vfs/Fds/Balance.antt =====
-- The count behind the descriptors of kernel/vfs.c: each one in use stands for one opening of its node
-- that was not closed yet.
use mathlib.Core.Option.{some-injective}
use deanos.Prelude.{
  ℕ, List, ◌≡◌, if_split, ◌<◌, length, ◌∷◌, if◌then◌else◌, set, ◌&&◌, false, true, ◌+◌, ℤ, refl,
  length-set, ◌==◌, [], arith, ◌∙◌, suc, zero, some, Option-cases, inl, find_first, inr, drop,
  find_first-some, ap, sym, get_or-drop, length-drop,
}
use deanos.Vfs.Fds.{
  vfs_fd_close, Files, Hook, is_bad, opened, fd_at, closed, install, fd_alloc, is_free,
}
use deanos.Task.{Fd, task_max_fds, no_fd}

abbrev pub one : ℕ → Fd → ℕ
one n f = if f.in_use && f.node == n then 1 else 0

-- The descriptors in use of a node.
abbrev pub uses : ℕ → List Fd → ℕ
uses n [] = 0
uses n (f ∷ fs) = one n f + uses n fs

-- How often a node was opened, and closed.
abbrev pub openings : ℕ → List Hook → ℕ
openings n [] = 0
openings n (opened m ∷ hs) = (if m == n then 1 else 0) + openings n hs
openings n (closed m ∷ hs) = openings n hs

abbrev pub closings : ℕ → List Hook → ℕ
closings n [] = 0
closings n (opened m ∷ hs) = closings n hs
closings n (closed m ∷ hs) = (if m == n then 1 else 0) + closings n hs

-- `held` are openings that a call in progress has still to account for.
pub record IsOwing (held : ℕ → ℕ) (s : Files) : Type 0 where
  pub table : length s.fds ≡ task_max_fds
  pub owing : (n : ℕ) → openings n s.hooks ≡ closings n s.hooks + uses n s.fds + held n

pub record IsBalanced (s : Files) : Type 0 where
  pub table : length s.fds ≡ task_max_fds
  pub balance : (n : ℕ) → openings n s.hooks ≡ closings n s.hooks + uses n s.fds

uses-set :
    (n : ℕ) (fs : List Fd) (i : ℕ) (f : Fd)
    → i < length fs
    → uses n (set fs i f) + one n (fd_at fs i) ≡ uses n fs + one n f
uses-set n [] i f h = absurd (omega arith)
uses-set n (g ∷ fs) zero f h = omega arith
uses-set n (g ∷ fs) (suc i) f h = omega (arith, uses-set n fs i f (omega arith))

one-alike : (n : ℕ) (f g : Fd) → f.in_use ≡ g.in_use → f.node ≡ g.node → one n f ≡ one n g
one-alike n f g e e' = rw (e, e') refl

pub set-IsBalanced :
    (s : Files) (fd : ℕ) (g : Fd)
    → IsBalanced s
    → fd < task_max_fds
    → g.in_use ≡ (fd_at s.fds fd).in_use
    → g.node ≡ (fd_at s.fds fd).node
    → IsBalanced (record s { fds = set s.fds fd g })
set-IsBalanced s fd g b h e e' = record {
  table = length-set s.fds fd g ∙ b.table;
  balance = λ n. omega (
    arith,
    b.balance n,
    uses-set n s.fds fd g (omega (arith, b.table)),
    one-alike n g (fd_at s.fds fd) e e',
  );
}

one-used : (n : ℕ) (f : Fd) → f.in_use ≡ true → one n f ≡ (if f.node == n then 1 else 0)
one-used n f e = rw e refl

one-free : (n : ℕ) (f : Fd) → f.in_use ≡ false → one n f ≡ 0
one-free n f e = rw e refl

pub good :
    (fds : List Fd) (fd : ℕ)
    → is_bad fds fd ≡ false
    → (fd < task_max_fds) × ((fd_at fds fd).in_use ≡ true)
good fds fd e = ground (arith, e)

abbrev none_held : ℕ → ℕ
none_held n = 0

to_owing : (s : Files) → IsBalanced s → IsOwing none_held s
to_owing s b = record { table = b.table; owing = λ n. omega (arith, b.balance n) }

of_owing : (s : Files) → IsOwing none_held s → IsBalanced s
of_owing s o = record { table = o.table; balance = λ n. omega (arith, o.owing n) }

pub vfs_fd_close-IsOwing :
    (held : ℕ → ℕ) (fd : ℕ) (s : Files) → IsOwing held s → IsOwing held (vfs_fd_close fd s).1
unfolding vfs_fd_close
vfs_fd_close-IsOwing held fd s o =
    if_split (λ (r : ℤ × Files). IsOwing held r.1) (is_bad s.fds fd) (λ bad. o)
      (λ fine.
        let ok = good s.fds fd fine in
        record {
          table = length-set s.fds fd no_fd ∙ o.table;
          owing = λ n. omega (
            arith,
            o.owing n,
            uses-set n s.fds fd no_fd (omega (arith, o.table, ok.0)),
            one-used n (fd_at s.fds fd) ok.1,
          );
        })

pub vfs_fd_close-IsBalanced : (fd : ℕ) (s : Files) → IsBalanced s → IsBalanced (vfs_fd_close fd s).1
vfs_fd_close-IsBalanced fd s b =
    of_owing (vfs_fd_close fd s).1 (vfs_fd_close-IsOwing none_held fd s (to_owing s b))

-- One opening of a node.
abbrev pub one_of : ℕ → ℕ → ℕ
one_of node n = if node == n then 1 else 0

-- An opening that is owed is put into a free descriptor.
pub fill-IsBalanced :
    (s : Files) (fd : ℕ) (f : Fd)
    → IsOwing (one_of f.node) s
    → fd < task_max_fds
    → (fd_at s.fds fd).in_use ≡ false
    → f.in_use ≡ true
    → IsBalanced (record s { fds = set s.fds fd f })
fill-IsBalanced s fd f o h free used = record {
  table = length-set s.fds fd f ∙ o.table;
  balance = λ n. omega (
    arith,
    o.owing n,
    uses-set n s.fds fd f (omega (arith, o.table)),
    one-free n (fd_at s.fds fd) free,
    one-used n f used,
  );
}

pub open-IsOwing :
    (s : Files) (node : ℕ)
    → IsBalanced s
    → IsOwing (one_of node) (record s { hooks = opened node ∷ s.hooks })
open-IsOwing s node b = record { table = b.table; owing = λ n. omega (arith, b.balance n) }

fd_alloc-free :
    (fds : List Fd) (fd : ℕ)
    → fd_alloc fds ≡ some fd
    → (fd < length fds) × ((fd_at fds fd).in_use ≡ false)
unfolding fd_alloc
fd_alloc-free fds fd e = elim (Option-cases (find_first is_free (drop 3 fds))) [
  | inl nothing ↦ cc (rw (fd_alloc, nothing) at e)
  | inr (i, found) ↦
      let at : 3 + i ≡ fd = some-injective (3 + i) fd (rw (fd_alloc, found) at e) in
      let first = find_first-some is_free (drop 3 fds) no_fd i found in
      let free : is_free (fd_at fds (3 + i)) ≡ true =
        ap is_free (sym (get_or-drop 3 fds i no_fd)) ∙ first.holds in
      (omega (arith, first.within, length-drop 3 fds), rw (← at) (ground (arith, free)))
]

pub install-IsBalanced :
    (node offset open_flags fd_flags : ℕ) (s : Files)
    → IsBalanced s
    → IsBalanced (install node offset open_flags fd_flags s).1
unfolding install
install-IsBalanced node offset open_flags fd_flags s b = elim (Option-cases (fd_alloc s.fds)) [
  | inl full ↦
      rw (install, full) (record { table = b.table; balance = λ n. omega (arith, b.balance n) })
  | inr (fd, found) ↦
      let free = fd_alloc-free s.fds fd found in
      let f : Fd = record {
        node = node;
        offset = offset;
        open_flags = open_flags;
        fd_flags = fd_flags;
        in_use = true;
      } in
      rw (install, found)
        (fill-IsBalanced (record s { hooks = opened node ∷ s.hooks }) fd f (open-IsOwing s node b)
          (omega (arith, free.0, b.table)) free.1 refl)
]
