-- ===== src/Task/Valid.antt =====
-- The invariant of the task table of kernel/task.c, and the operations that keep it.
pub mod Steps
pub mod Removal
pub mod Signals
pub mod Operations
use deanos.Prelude.{
  List, map, ℕ, ◌∙◌, ◌≡◌, length, ◌∷◌, arith, ap, refl, true, set, sym, length-set, suc, zero,
  Bool-cases, ◌==◌, [], inr, get_or-set_ne, inl, ltb, get_or-set_self, set-out, ◌≤◌, some, ◌<◌,
}
use deanos.Task.{Tasks, Task, task_at, is_running, Effect, no_task, task_max}

-- The table fits its array, the running task is in it and no other one runs, and no id is there twice
-- or still to be given out.
pub record IsTaskTable (k : Tasks) : Type 0 where
  pub few : length k.tasks ≤ task_max
  pub current_in : (c : ℕ) → k.current ≡ some c → c < length k.tasks
  pub one_runs :
      (i : ℕ)
      → i < length k.tasks
      → is_running (task_at k.tasks i).state ≡ true
      → k.current ≡ some i
  pub distinct :
      (i j : ℕ)
      → i < length k.tasks
      → j < length k.tasks
      → (task_at k.tasks i).id ≡ (task_at k.tasks j).id
      → i ≡ j
  pub fresh : (i : ℕ) → i < length k.tasks → (task_at k.tasks i).id < k.next_id

-- A change of a task that keeps its id and does not make it run.
abbrev pub Quiet : Task → Task → Type 0
Quiet t t' = (t'.id ≡ t.id) × (is_running t'.state ≡ true → is_running t.state ≡ true)

-- A change of the table that is quiet at each place.
pub record IsQuieter (ts ts' : List Task) : Type 0 where
  pub same_length : length ts' ≡ length ts
  pub at : (i : ℕ) → Quiet (task_at ts i) (task_at ts' i)

pub IsQuieter-refl : (ts : List Task) → IsQuieter ts ts
IsQuieter-refl ts = record { same_length = refl; at = λ i. (refl, λ h. h) }

pub IsQuieter-trans : (a b c : List Task) → IsQuieter a b → IsQuieter b c → IsQuieter a c
IsQuieter-trans a b c p q = record {
  same_length = q.same_length ∙ p.same_length;
  at = λ i. ((q.at i).0 ∙ (p.at i).0, λ h. (p.at i).1 ((q.at i).1 h));
}

pub set-IsQuieter :
    (ts : List Task) (i : ℕ) (t : Task) → Quiet (task_at ts i) t → IsQuieter ts (set ts i t)
set-IsQuieter ts i t q = record {
  same_length = length-set ts i t;
  at = λ j. elim (Bool-cases (i == j)) [
    | inr other ↦
        let e = get_or-set_ne ts i j t no_task (ground (arith, other)) in rw e (refl, λ h. h)
    | inl same ↦
        let i_j : i ≡ j = ground arith in
        elim (Bool-cases (ltb i (length ts))) [
          | inl lt ↦ let e = get_or-set_self ts i t no_task (ground (arith, lt)) in rw (← i_j, e) q
          | inr ge ↦ rw (set-out ts i t (ground (arith, ge))) (refl, λ h. h)
        ]
  ];
}

pub map-IsQuieter :
    (f : Task → Task) (ts : List Task) → ((t : Task) → Quiet t (f t)) → IsQuieter ts (map f ts)
map-IsQuieter f [] q = IsQuieter-refl []
map-IsQuieter f (t ∷ ts) q =
    let rest = map-IsQuieter f ts q in
    record {
      same_length = ap suc rest.same_length;
      at = λ i. elim i as (λ m. Quiet (task_at (t ∷ ts) m) (task_at (map f (t ∷ ts)) m)) [
        | zero ↦ q t
        | suc m ↦ rest.at m
      ];
    }

-- Quiet changes keep the invariant, whatever else is asked of other parts.
pub IsQuieter-IsTaskTable :
    (k : Tasks) (ts : List Task) (now : ℕ) (es : List Effect)
    → IsTaskTable k
    → IsQuieter k.tasks ts
    → IsTaskTable (record k { tasks = ts; sched_ticks = now; effects = es })
IsQuieter-IsTaskTable k ts now es v q = record {
  few = omega (arith, q.same_length, v.few);
  current_in = λ c e. omega (arith, v.current_in c e, q.same_length);
  one_runs = λ i h e. v.one_runs i (omega (arith, q.same_length)) ((q.at i).1 e);
  distinct = λ i j hi hj e.
      v.distinct i j (omega (arith, q.same_length)) (omega (arith, q.same_length))
        (sym (q.at i).0 ∙ e ∙ (q.at j).0);
  fresh = λ i h. omega (arith, v.fresh i (omega (arith, q.same_length)), (q.at i).0);
}
