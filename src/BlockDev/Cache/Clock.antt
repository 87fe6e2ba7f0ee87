-- ===== src/BlockDev/Cache/Clock.antt =====
-- The clock of kernel/blockdev.c: it ends, and it changes nothing but reference bits.
use deanos.BlockDev.{Entry, entry, no_entry, clock, cache_entries, clock_fuel}
use deanos.Prelude.{
  List, ℕ, ◌≡◌, ◌∙◌, Bool, length, suc, refl, set, if◌then◌else◌, zero, length-set, ap,
  get_or-set_ne, get_or-set_self, set-out, arith, ◌<◌, ◌≤◌, Option, true, some, Bool-cases, false,
  inr, ◌+◌, ◌%◌, inl,
}
use native.Mathlib.Decide.{ℕ_discrete, dec_lt}

-- The two caches hold the same blocks in the same slots, with the same dirty bits.
pub record SameSlots (c c' : List Entry) : Type 0 where
  pub size : length c' ≡ length c
  pub valid : (i : ℕ) → (entry c' i).valid ≡ (entry c i).valid
  pub dirty : (i : ℕ) → (entry c' i).dirty ≡ (entry c i).dirty
  pub dev_index : (i : ℕ) → (entry c' i).dev_index ≡ (entry c i).dev_index
  pub lba : (i : ℕ) → (entry c' i).lba ≡ (entry c i).lba
  pub bytes : (i : ℕ) → (entry c' i).bytes ≡ (entry c i).bytes

pub SameSlots-refl : (c : List Entry) → SameSlots c c
SameSlots-refl c = record {
  size = refl;
  valid = λ i. refl;
  dirty = λ i. refl;
  dev_index = λ i. refl;
  lba = λ i. refl;
  bytes = λ i. refl;
}

pub SameSlots-trans : {a b c : List Entry} → SameSlots a b → SameSlots b c → SameSlots a c
SameSlots-trans p q = record {
  size = q.size ∙ p.size;
  valid = λ i. q.valid i ∙ p.valid i;
  dirty = λ i. q.dirty i ∙ p.dirty i;
  dev_index = λ i. q.dev_index i ∙ p.dev_index i;
  lba = λ i. q.lba i ∙ p.lba i;
  bytes = λ i. q.bytes i ∙ p.bytes i;
}

-- A field that a slot's new value has in common with the old one is the same in every slot.
field-set {ℓ} :
    {A : Type ℓ} (f : Entry → A) (c : List Entry) (k : ℕ) (e : Entry)
    → f e ≡ f (entry c k)
    → (i : ℕ) → f (entry (set c k e) i) ≡ f (entry c i)
field-set f c k e same i = elim (ℕ_discrete k i) [
  | no ne ↦ ap f (get_or-set_ne c k i e no_entry ne)
  | yes eq ↦ elim (dec_lt k (length c)) [
    | yes p ↦ rw (← eq) (ap f (get_or-set_self c k e no_entry p) ∙ same)
    | no p ↦ ap (λ (l : List Entry). f (entry l i)) (set-out c k e (omega arith))
  ]
]

-- Another reference bit in one slot.
pub ref-SameSlots :
    (c : List Entry) (k : ℕ) (r : Bool) → SameSlots c (set c k (record (entry c k) { ref = r }))
ref-SameSlots c k r = record {
  size = length-set c k (record (entry c k) { ref = r });
  valid = field-set (λ e. e.valid) c k (record (entry c k) { ref = r }) refl;
  dirty = field-set (λ e. e.dirty) c k (record (entry c k) { ref = r }) refl;
  dev_index = field-set (λ e. e.dev_index) c k (record (entry c k) { ref = r }) refl;
  lba = field-set (λ e. e.lba) c k (record (entry c k) { ref = r }) refl;
  bytes = field-set (λ e. e.bytes) c k (record (entry c k) { ref = r }) refl;
}

-- The number of slots among the first `n` whose reference bit is set.
abbrev count_refs : ℕ → List Entry → ℕ
count_refs zero c = 0
count_refs (suc n) c = if (entry c n).ref then suc (count_refs n c) else count_refs n c

count_refs-out :
    (n : ℕ) (c : List Entry) (k : ℕ) (e : Entry) → n ≤ k → count_refs n (set c k e) ≡ count_refs n c
count_refs-out zero c k e h = refl
count_refs-out (suc n) c k e h =
    rw (get_or-set_ne c k n e no_entry (omega arith), count_refs-out n c k e (omega arith))

count_refs-clear :
    (n : ℕ) (c : List Entry) (k : ℕ)
    → k < n
    → k < length c
    → (entry c k).ref ≡ true
    → suc (count_refs n (set c k (record (entry c k) { ref = false }))) ≡ count_refs n c
count_refs-clear zero c k h hl on = absurd (omega arith)
count_refs-clear (suc n) c k h hl on = elim (ℕ_discrete k n) [
  | yes eq ↦ rw (
    ← eq,
    get_or-set_self c k (record (entry c k) { ref = false }) no_entry hl,
    on,
    count_refs-out k c k (record (entry c k) { ref = false }) (omega arith),
  )
  | no ne ↦
      rw (get_or-set_ne c k n (record (entry c k) { ref = false }) no_entry ne)
        (ground (arith, count_refs-clear n c k (omega arith) hl on))
]

count_refs-le : (n : ℕ) (c : List Entry) → count_refs n c ≤ n
count_refs-le zero c = omega arith
count_refs-le (suc n) c = ground (arith, count_refs-le n c)

-- What the clock gives: a slot and a hand in range, and the same blocks in the cache.
pub record Turned (c : List Entry) (r : Option (ℕ × List Entry × ℕ)) : Type 0 where
  pub victim : ℕ
  pub cache : List Entry
  pub hand : ℕ
  pub result : r ≡ some (victim, cache, hand)
  pub victim_in : victim < cache_entries
  pub hand_in : hand < cache_entries
  pub same : SameSlots c cache

-- Each round but the last clears a reference bit, so more fuel than there are bits is enough.
clock-Turned :
    (fuel : ℕ) (c : List Entry) (hand : ℕ)
    → hand < cache_entries
    → length c ≡ cache_entries
    → count_refs cache_entries c < fuel
    → Turned c (clock fuel c hand)
unfolding clock
clock-Turned zero c hand h hl m = absurd (omega arith)
clock-Turned (suc fuel) c hand h hl m = elim (Bool-cases (entry c hand).ref) [
  | inr off ↦ rw off (record {
    victim = hand;
    cache = c;
    hand = (hand + 1) % cache_entries;
    result = refl;
    victim_in = h;
    hand_in = omega arith;
    same = SameSlots-refl c;
  })
  | inl on ↦
      let step = ref-SameSlots c hand false in
      let rest =
        clock-Turned fuel (set c hand (record (entry c hand) { ref = false }))
          ((hand + 1) % cache_entries) (omega arith) (step.size ∙ hl)
          (omega (arith, count_refs-clear cache_entries c hand h (omega arith) on)) in
      rw on (record {
        victim = rest.victim;
        cache = rest.cache;
        hand = rest.hand;
        result = rest.result;
        victim_in = rest.victim_in;
        hand_in = rest.hand_in;
        same = SameSlots-trans step rest.same;
      })
]

-- The fuel given to the clock is enough for every cache of 128 entries.
pub clock-total :
    (c : List Entry) (hand : ℕ)
    → hand < cache_entries
    → length c ≡ cache_entries
    → Turned c (clock clock_fuel c hand)
clock-total c hand h hl =
    clock-Turned clock_fuel c hand h hl (omega (arith, count_refs-le cache_entries c))
