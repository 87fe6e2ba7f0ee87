-- ===== src/Task/Valid/Removal.antt =====
-- Adding a task to the table of kernel/task.c and taking one out keep its invariant.
use deanos.Prelude.{
  List, ℕ, ◌<◌, ◌≢◌, Option, suc, length, ◌≡◌, zero, ◌⊎◌, some, arith, ap, ◌≤◌, ◌++◌, inl, ◌∷◌, inr,
  Bool-cases, refl, ltb, [], true, false, sym, ◌-◌, length-append, ◌∙◌, none,
}
use deanos.Task.{Task, Tasks, Effect, task_at, task_max, is_running}
use deanos.Task.Life.{current_after_reap, remove_at}
use deanos.Task.Valid.{IsTaskTable}
use deanos.Task.Schedule.{start_of}

-- Where an entry of the table without entry `i` stood.
abbrev old_place : ℕ → ℕ → ℕ
old_place zero j = suc j
old_place (suc i) zero = 0
old_place (suc i) (suc j) = suc (old_place i j)

old_place-cases : (i j : ℕ) → ((j < i) × (old_place i j ≡ j)) ⊎ ((i ≤ j) × (old_place i j ≡ suc j))
old_place-cases zero j = inr (omega arith, refl)
old_place-cases (suc i) zero = inl (omega arith, refl)
old_place-cases (suc i) (suc j) = elim (old_place-cases i j) [
  | inl below ↦ inl (omega arith, ap suc below.1)
  | inr above ↦ inr (omega arith, ap suc above.1)
]

task_at-remove_at :
    (i j : ℕ) (ts : List Task)
    → i < length ts
    → task_at (remove_at i ts) j ≡ task_at ts (old_place i j)
task_at-remove_at i j [] h = absurd (omega arith)
task_at-remove_at zero j (t ∷ ts) h = refl
task_at-remove_at (suc i) zero (t ∷ ts) h = refl
task_at-remove_at (suc i) (suc j) (t ∷ ts) h = task_at-remove_at i j ts (omega arith)

length-remove_at :
    (i : ℕ) (ts : List Task) → i < length ts → suc (length (remove_at i ts)) ≡ length ts
length-remove_at i [] h = absurd (omega arith)
length-remove_at zero (t ∷ ts) h = refl
length-remove_at (suc i) (t ∷ ts) h = ap suc (length-remove_at i ts (omega arith))

current_after-place :
    (i j : ℕ) → i ≢ old_place i j → current_after_reap i (some (old_place i j)) ≡ some j
current_after-place i j ne = elim (old_place-cases i j) [
  | inl below ↦ rw below.1 (ground (arith, below.0))
  | inr above ↦ rw above.1 (ground (arith, above.0))
]

current_after-within :
    (i n : ℕ) (cur : Option ℕ)
    → ((c : ℕ) → cur ≡ some c → c < suc n)
    → cur ≢ some i
    → i < suc n
    → (c : ℕ) → current_after_reap i cur ≡ some c
    → c < n
current_after-within i n none bound ne lt c e = absurd (cc)
current_after-within i n (some c0) bound ne lt c e =
    let c0_in = bound c0 refl in
    let other : c0 ≢ i = λ same. ne (ap some same) in
    elim (Bool-cases (ltb i c0)) [
      | inl behind ↦
          let e' : some (c0 - 1) ≡ some c = rw behind at e in
          let gt : i < c0 = ground (arith, behind) in omega (arith, ap start_of e')
      | inr before ↦
          let e' : some c0 ≡ some c = rw before at e in
          let le : c0 ≤ i = ground (arith, before) in omega (arith, ap start_of e')
    ]

pub remove_at-IsTaskTable :
    (i : ℕ) (k : Tasks) (es : List Effect)
    → IsTaskTable k
    → i < length k.tasks
    → k.current ≢ some i
    → IsTaskTable (record k {
      tasks = remove_at i k.tasks;
      current = current_after_reap i k.current;
      effects = es;
    })
remove_at-IsTaskTable i k es v lt ne =
    let size = length-remove_at i k.tasks lt in
    let there : (j : ℕ) → task_at (remove_at i k.tasks) j ≡ task_at k.tasks (old_place i j) =
      λ j. task_at-remove_at i j k.tasks lt in
    let old_in : (j : ℕ) → j < length (remove_at i k.tasks) → old_place i j < length k.tasks =
      λ j h. elim (old_place-cases i j) [
        | inl below ↦ omega (arith, size, below.1)
        | inr above ↦ omega (arith, size, above.1)
      ] in
    record {
      few = omega (arith, size, v.few);
      current_in =
          current_after-within i (length (remove_at i k.tasks)) k.current
            (λ c e. omega (arith, size, v.current_in c e)) ne (omega (arith, size));
      one_runs = λ j h run.
          let run' : is_running (task_at k.tasks (old_place i j)).state ≡ true =
            ap (λ u. is_running u.state) (sym (there j)) ∙ run in
          let here = v.one_runs (old_place i j) (old_in j h) run' in
          ap (current_after_reap i) here
          ∙ current_after-place i j (λ same. ne (here ∙ ap some (sym same)));
      distinct = λ j j' h h' e.
          let same =
            v.distinct (old_place i j) (old_place i j') (old_in j h) (old_in j' h')
              (ap (λ u. u.id) (sym (there j)) ∙ e ∙ ap (λ u. u.id) (there j')) in
          ground (arith, same, old_place-cases i j, old_place-cases i j');
      fresh = λ j h. rw (there j) (v.fresh (old_place i j) (old_in j h));
    }

task_at-snoc :
    (ts : List Task) (t : Task) (i : ℕ)
    → ((i < length ts) × (task_at (ts ++ (t ∷ [])) i ≡ task_at ts i))
      ⊎ ((length ts ≤ i)
          × (i < suc (length ts) → (i ≡ length ts) × (task_at (ts ++ (t ∷ [])) i ≡ t)))
task_at-snoc [] t zero = inr (omega arith, λ h. (refl, refl))
task_at-snoc [] t (suc i) = inr (omega arith, λ h. absurd (omega arith))
task_at-snoc (u ∷ ts) t zero = inl (omega arith, refl)
task_at-snoc (u ∷ ts) t (suc i) = elim (task_at-snoc ts t i) [
  | inl old ↦ inl (omega (arith, old.0), old.1)
  | inr new ↦ inr (omega (arith, new.0), λ h. let r = new.1 (omega arith) in (ap suc r.0, r.1))
]

pub added-IsTaskTable :
    (t : Task) (k : Tasks) (es : List Effect)
    → IsTaskTable k
    → length k.tasks < task_max
    → t.id ≡ k.next_id
    → is_running t.state ≡ false
    → IsTaskTable (record k { tasks = k.tasks ++ (t ∷ []); next_id = suc k.next_id; effects = es })
added-IsTaskTable t k es v room id stopped =
    let size = length-append k.tasks (t ∷ []) in
    record {
      few = omega (arith, size);
      current_in = λ c e. omega (arith, size, v.current_in c e);
      one_runs = λ i h run. elim (task_at-snoc k.tasks t i) [
        | inl old ↦ v.one_runs i old.0 (ap (λ u. is_running u.state) (sym old.1) ∙ run)
        | inr new ↦
            let r = new.1 (omega (arith, size)) in
            absurd (cc (stopped, ap (λ u. is_running u.state) (sym r.1) ∙ run))
      ];
      distinct = λ i j h h' e. elim (task_at-snoc k.tasks t i) [
        | inl old ↦ elim (task_at-snoc k.tasks t j) [
          | inl old' ↦
              v.distinct i j old.0 old'.0 (ap (λ u. u.id) (sym old.1) ∙ e ∙ ap (λ u. u.id) old'.1)
          | inr new ↦
              let r = new.1 (omega (arith, size)) in
              let same : (task_at k.tasks i).id ≡ t.id =
                ap (λ u. u.id) (sym old.1) ∙ e ∙ ap (λ u. u.id) r.1 in
              absurd (omega (arith, same, v.fresh i old.0, id))
        ]
        | inr new ↦
            let r = new.1 (omega (arith, size)) in
            elim (task_at-snoc k.tasks t j) [
              | inl old ↦
                  let same : t.id ≡ (task_at k.tasks j).id =
                    ap (λ u. u.id) (sym r.1) ∙ e ∙ ap (λ u. u.id) old.1 in
                  absurd (omega (arith, same, v.fresh j old.0, id))
              | inr new' ↦ let r' = new'.1 (omega (arith, size)) in r.0 ∙ sym r'.0
            ]
      ];
      fresh = λ i h. elim (task_at-snoc k.tasks t i) [
        | inl old ↦ omega (arith, ap (λ u. u.id) old.1, v.fresh i old.0)
        | inr new ↦ let r = new.1 (omega (arith, size)) in omega (arith, ap (λ u. u.id) r.1, id)
      ];
    }
