-- ===== src/Task/Turns.antt =====
-- The scheduler of kernel/task.c takes tasks in turns: the idle task only when no other is ready, and
-- each choice comes nearer to every task that stays ready.
use deanos.Task.Schedule.{pick_from, pick_next_ready}
use deanos.Prelude.{
  List, ℕ, if◌then◌else◌, Option, ltb, Bool, ◌<◌, ◌-◌, ◌≤◌, ◌≡◌, ◌+◌, ◌%◌, some, length, true, ◌≢◌,
  arith, suc, ◌==◌, false, Bool-cases, inr, inl, zero, refl, ◌⊎◌, ◌∙◌, none,
}
use deanos.Task.{Task, is_ready, task_at}
use native.Mathlib.Nat.{mod-eq_of_lt, mod-eq-sub-mod}

abbrev pub ready_at : List Task → ℕ → Bool
ready_at ts i = is_ready (task_at ts i).state

-- The places that the search from behind `c` looks at before it comes to `j`, in a table of `n`.
abbrev pub turns : ℕ → ℕ → ℕ → ℕ
turns n c j = if ltb c j then j - c - 1 else j + n - c - 1

-- The search finds a ready task that is not idle, at the latest at the `k`-th place.
record Reached (ts : List Task) (i k : ℕ) (r : Option ℕ) : Type 0 where
  place : ℕ
  soon : place ≤ k
  found : r ≡ some ((i + place) % length ts)
  ready_there : ready_at ts ((i + place) % length ts) ≡ true
  not_idle : (i + place) % length ts ≢ 0

pick_from-Reached :
    (n i k : ℕ) (ts : List Task) (best : Option ℕ)
    → k < n
    → ready_at ts ((i + k) % length ts) ≡ true
    → (i + k) % length ts ≢ 0
    → Reached ts i k (pick_from n i ts best)
unfolding pick_from
pick_from-Reached zero i k ts best lt ready ne = absurd (omega arith)
pick_from-Reached (suc n) i zero ts best lt ready ne =
    let here : i + 0 ≡ i = omega arith in
    let ready' : ready_at ts (i % length ts) ≡ true = rw here at ready in
    let ne' : (i % length ts == 0) ≡ false = ground (arith, rw here at ne) in
    rw (ready', ne')
      (record {
        place = 0;
        soon = omega arith;
        found = rw here refl;
        ready_there = ready;
        not_idle = ne;
      })
pick_from-Reached (suc n) i (suc k) ts best lt ready ne =
    let step : i + suc k ≡ i + 1 + k = omega arith in
    let rest : (b : Option ℕ) → Reached ts (i + 1) k (pick_from n (i + 1) ts b) =
      λ b. pick_from-Reached n (i + 1) k ts b (omega arith) (rw step at ready) (rw step at ne) in
    let later : (b : Option ℕ) → Reached ts i (suc k) (pick_from n (i + 1) ts b) = λ b.
      let r = rest b in
      let back : i + suc r.place ≡ i + 1 + r.place = omega arith in
      record {
        place = suc r.place;
        soon = omega (arith, r.soon);
        found = rw back r.found;
        ready_there = rw back r.ready_there;
        not_idle = rw back r.not_idle;
      } in
    elim (Bool-cases (ready_at ts (i % length ts))) [
      | inr not_ready ↦ rw not_ready (later best)
      | inl is_ready_here ↦ elim (Bool-cases (i % length ts == 0)) [
        | inl idle ↦ rw (is_ready_here, idle) (later (some 0))
        | inr other ↦
            let here : i + 0 ≡ i = omega arith in
            rw (is_ready_here, other)
              (record {
                place = 0;
                soon = omega arith;
                found = rw here refl;
                ready_there = rw here is_ready_here;
                not_idle = ground (arith, here, other);
              })
      ]
    ]

-- A place from behind `c` on, below twice the size of the table.
place_at : (n x : ℕ) → x < n + n → ((x < n) × (x % n ≡ x)) ⊎ ((n ≤ x) × (x % n ≡ x - n))
place_at n x lt = elim (Bool-cases (ltb x n)) [
  | inl below ↦ inl (ground arith, mod-eq_of_lt (ground arith))
  | inr above ↦
      let le : n ≤ x = ground arith in
      let small : x - n < n = omega arith in inr (le, mod-eq-sub-mod le ∙ mod-eq_of_lt small)
]

-- What `pick_next_ready` does for a ready task `j`: it chooses a ready task of the table that is not
-- the idle one, which is `j`, or from which there are fewer places to `j`.
pub record TakesTurn (ts : List Task) (c j : ℕ) : Type 0 where
  pub next : ℕ
  pub chosen : pick_next_ready ts (some c) ≡ some next
  pub within : next < length ts
  pub chosen_ready : ready_at ts next ≡ true
  pub not_idle : next ≢ 0
  pub nearer : (next ≡ j) ⊎ (turns (length ts) next j < turns (length ts) c j)

-- While a task other than the idle one is ready, the scheduler chooses a ready task other than the idle
-- one, and with each choice it comes nearer to that task, or takes it: its turn comes after fewer
-- choices than there are tasks.
pub pick_next_ready-TakesTurn :
    (ts : List Task) (c j : ℕ)
    → c < length ts
    → j < length ts
    → j ≢ 0
    → ready_at ts j ≡ true
    → TakesTurn ts c j
unfolding pick_next_ready
pick_next_ready-TakesTurn ts c j c_in j_in ne ready =
    let n = length ts in
    let k = turns n c j in
    let k_lt : k < n = ground arith in
    let at_j : (c + 1 + k) % n ≡ j = elim (place_at n (c + 1 + k) (ground arith)) [
      | inl low ↦ low.1 ∙ ground (arith, low.0)
      | inr high ↦ high.1 ∙ ground (arith, high.0)
    ] in
    let r = pick_from-Reached n (c + 1) k ts none k_lt (rw at_j ready) (rw at_j ne) in
    let next = (c + 1 + r.place) % n in
    let next_is = place_at n (c + 1 + r.place) (omega (arith, r.soon)) in
    record {
      next = next;
      chosen = r.found;
      within = elim next_is [ inl low ↦ omega arith | inr high ↦ omega arith ];
      chosen_ready = r.ready_there;
      not_idle = r.not_idle;
      nearer = elim next_is [
        | inl low ↦ ground (arith, low.0, low.1, r.soon)
        | inr high ↦ ground (arith, high.0, high.1, r.soon)
      ];
    }
