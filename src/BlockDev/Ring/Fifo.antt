-- ===== src/BlockDev/Ring/Fifo.antt =====
-- The rings of kernel/blockdev.c are queues: what a ring holds is a list, `push` appends to it and
-- `pop` takes its first element.
use deanos.BlockDev.Ring.{Ring, push, queue_depth, pop, popped, pushed}
use deanos.Prelude.{
  List, ◌≡◌, ℕ, length, ◌<◌, none, [], ◌≤◌, suc, ◌++◌, get_or, ◌+◌, set, ◌∷◌, ◌%◌, arith, ◌-◌, zero,
  get_or-set_ne, ap, refl, ap₂, some, subst, sym, get_or-set_self, ◌∙◌, length-set, drop,
}

module _ {ℓ} {A : Type ℓ} (cleared : A) where
  -- The `n` entries from slot `h` on.
  unfoldable pub entries_at : List A → (h n : ℕ) → List A
  entries_at slots h zero = []
  entries_at slots h (suc n) = get_or slots h cleared ∷ entries_at slots ((h + 1) % queue_depth) n

  unfoldable pub contents : Ring A → List A
  unfolding entries_at
  contents r = entries_at r.slots r.head r.count

  pub record RingFits (r : Ring A) : Type 0 where
    pub full_size : length r.slots ≡ queue_depth
    pub head_in : r.head < queue_depth
    pub few : r.count ≤ queue_depth
    pub tail_at : r.tail ≡ (r.head + r.count) % queue_depth

  -- A write past the entries is not seen in them.
  entries_at-set :
      (slots : List A) (h n k : ℕ) (x : A)
      → h < queue_depth
      → n ≤ k
      → k < queue_depth
      → entries_at (set slots ((h + k) % queue_depth) x) h n ≡ entries_at slots h n
  unfolding entries_at
  entries_at-set slots h zero k x lt le few = refl
  entries_at-set slots h (suc n) k x lt le few =
      let next : (h + k) % queue_depth ≡ ((h + 1) % queue_depth + (k - 1)) % queue_depth =
        omega arith in
      let rest =
        entries_at-set slots ((h + 1) % queue_depth) n (k - 1) x (omega arith) (omega arith)
          (omega arith) in
      let first = get_or-set_ne slots ((h + k) % queue_depth) h x cleared (omega arith) in
      ap₂ (λ y ys. y ∷ ys) first
        (subst
          (λ t.
            entries_at (set slots t x) ((h + 1) % queue_depth) n
            ≡ entries_at slots ((h + 1) % queue_depth) n)
          (sym next) rest)

  entries_at-snoc :
      (slots : List A) (h n : ℕ)
      → h < queue_depth
      → entries_at slots h (suc n)
        ≡ entries_at slots h n ++ (get_or slots ((h + n) % queue_depth) cleared ∷ [])
  unfolding entries_at
  entries_at-snoc slots h zero lt =
      let same : (h + 0) % queue_depth ≡ h = omega arith in rw same refl
  entries_at-snoc slots h (suc n) lt =
      let next : (h + suc n) % queue_depth ≡ ((h + 1) % queue_depth + n) % queue_depth =
        omega arith in
      rw next (
        ap (λ ys. get_or slots h cleared ∷ ys)
          (entries_at-snoc slots ((h + 1) % queue_depth) n (omega arith)))

  -- A push on a ring that is not full puts its entry last.
  pub push_lem :
      (x : A) (r : Ring A)
      → RingFits r
      → r.count < queue_depth
      → (push x r ≡ some (pushed x r))
        × (contents (pushed x r) ≡ contents r ++ (x ∷ []))
        × RingFits (pushed x r)
  unfolding push contents
  push_lem x r h lt =
      let slots' = set r.slots r.tail x in
      let k = (r.head + r.count) % queue_depth in
      let here : get_or slots' k cleared ≡ x =
        subst (λ t. get_or slots' t cleared ≡ x) h.tail_at
          (get_or-set_self r.slots r.tail x cleared (omega (arith, h.full_size, h.tail_at))) in
      let before : entries_at slots' r.head r.count ≡ entries_at r.slots r.head r.count =
        subst (λ t. entries_at (set r.slots t x) r.head r.count ≡ entries_at r.slots r.head r.count)
          (sym h.tail_at)
          (entries_at-set r.slots r.head r.count r.count x h.head_in (omega arith) lt) in
      (
        ground arith,
        entries_at-snoc slots' r.head r.count h.head_in ∙ ap₂ (λ xs y. xs ++ (y ∷ [])) before here,
        record {
          full_size = length-set r.slots r.tail x ∙ h.full_size;
          head_in = h.head_in;
          few = omega arith;
          tail_at = omega (arith, h.tail_at);
        },
      )

  entries_at-cons :
      (slots : List A) (h n : ℕ) (x : A) (xs : List A)
      → entries_at slots h n ≡ x ∷ xs
      → (0 < n)
        × (get_or slots h cleared ≡ x)
        × (entries_at slots ((h + 1) % queue_depth) (n - 1) ≡ xs)
  unfolding entries_at
  entries_at-cons slots h zero x xs e = absurd (omega (arith, ap length e))
  entries_at-cons slots h (suc n) x xs e =
      let same : suc n - 1 ≡ n = omega arith in
      (
        omega arith,
        ap (λ l. get_or l 0 x) e,
        ap (entries_at slots ((h + 1) % queue_depth)) same ∙ ap (drop 1) e,
      )

  -- A pop takes the first entry.
  pub pop_lem :
      (x : A) (xs : List A) (r : Ring A)
      → RingFits r
      → contents r ≡ x ∷ xs
      → (pop cleared r ≡ some (x, popped r)) × (contents (popped r) ≡ xs) × RingFits (popped r)
  unfolding pop contents
  pop_lem x xs r h e =
      let first = entries_at-cons r.slots r.head r.count x xs e in
      (
        rw first.1 (ground (arith, first.0)),
        first.2,
        record {
          full_size = h.full_size;
          head_in = omega arith;
          few = omega (arith, h.few);
          tail_at = omega (arith, h.tail_at, first.0);
        },
      )

  entries_at-nil : (slots : List A) (h n : ℕ) → entries_at slots h n ≡ [] → n ≡ 0
  unfolding entries_at
  entries_at-nil slots h zero e = refl
  entries_at-nil slots h (suc n) e = absurd (omega (arith, ap length e))

  pub pop-empty : (r : Ring A) → contents r ≡ [] → pop cleared r ≡ none
  unfolding pop contents
  pop-empty r e =
      let none_left = entries_at-nil r.slots r.head r.count e in ground (arith, none_left)

  entries_at-length : (slots : List A) (h n : ℕ) → length (entries_at slots h n) ≡ n
  unfolding entries_at
  entries_at-length slots h zero = refl
  entries_at-length slots h (suc n) = ap suc (entries_at-length slots ((h + 1) % queue_depth) n)

  pub length-contents : (r : Ring A) → length (contents r) ≡ r.count
  unfolding contents
  length-contents r = entries_at-length r.slots r.head r.count
