-- ===== src/BlockDev/Cache/Steps.antt =====
-- The elementary steps of the block cache of kernel/blockdev.c, and what each does to the blocks that
-- a reader sees: another entry in a slot, and another block on the disk under a dirty slot.
use deanos.BlockDev.{Block, Entry, entry, no_entry, matches, cache_entries}
use deanos.BlockDev.Cache.Content.{Coherent, Unique, content, content-Shown, content_of_Shown}
use deanos.Prelude.{
  List, ℕ, ◌<◌, Bool, ◌≢◌, set, ◌≡◌, ◌==◌, get_or-set_ne, true, ◌&&◌, get_or-set_self, arith, false,
  sym, if◌then◌else◌, length-set, ◌∙◌, Bool-cases, inl, ap, inr, ap₂, refl,
}
use native.Mathlib.Decide.{ℕ_discrete}

-- The key test of a block.
abbrev pub same_key : (d l d' l' : ℕ) → Bool
same_key d l d' l' = d == d' && l == l'

module _ {c : List Entry} {disk : ℕ → ℕ → Block} (h : Coherent c disk) (k : ℕ)
    (hk : k < cache_entries) where
  own : (e : Entry) → entry (set c k e) k ≡ e
  own e = get_or-set_self c k e no_entry (omega (arith, h.size))

  other : (e : Entry) (i : ℕ) → k ≢ i → entry (set c k e) i ≡ entry c i
  other e i ne = get_or-set_ne c k i e no_entry ne

  -- Where slot `k` matches, no other does.
  pub alone :
      (d l : ℕ)
      → matches (entry c k) d l ≡ true
      → (j : ℕ) → j < cache_entries
      → k ≢ j
      → matches (entry c j) d l ≡ false
  alone d l mk j hj nj = elim (Bool-cases (matches (entry c j) d l)) [
    | inl mj ↦ absurd (nj (h.unique k j d l hk hj mk mj))
    | inr off ↦ off
  ]

  -- Putting a valid entry `e` for block (d0, l0) in slot `k`, where no other slot has that block and
  -- what the slot held is on the disk.
  module _ (e : Entry) (d0 l0 : ℕ) (is_valid : e.valid ≡ true) (is_dev : e.dev_index ≡ d0)
      (is_lba : e.lba ≡ l0)
      (others : (j : ℕ) → j < cache_entries → k ≢ j → matches (entry c j) d0 l0 ≡ false)
      (safe : (d l : ℕ)
        → matches (entry c k) d l ≡ true
        → same_key d0 l0 d l ≡ false
        → (entry c k).bytes ≡ disk d l)
      (is_clean : e.dirty ≡ false → e.bytes ≡ disk d0 l0) where
    matches-own : (d l : ℕ) → matches (entry (set c k e) k) d l ≡ same_key d0 l0 d l
    matches-own d l = rw (own e, is_valid, is_dev, is_lba)

    replace-Unique : Unique (set c k e)
    replace-Unique i j d l hi hj mi mj = elim (ℕ_discrete k i) [
      | yes ki ↦ elim (ℕ_discrete k j) [
        | yes kj ↦ sym ki ∙ kj
        | no nj ↦ absurd (clash j hj nj (rw (← ki) at mi) mj)
      ]
      | no ni ↦ elim (ℕ_discrete k j) [
        | yes kj ↦ absurd (clash i hi ni (rw (← kj) at mj) mi)
        | no nj ↦ h.unique i j d l hi hj (rw (other e i ni) at mi) (rw (other e j nj) at mj)
      ]
    ]
      where
        clash :
            (x : ℕ)
            → x < cache_entries
            → k ≢ x
            → matches (entry (set c k e) k) d l ≡ true
            → matches (entry (set c k e) x) d l ≡ true
            → ⊥
        clash x hx nx mk mx =
            let key : same_key d0 l0 d l ≡ true = sym (matches-own d l) ∙ mk in
            let old : matches (entry c x) d l ≡ true = rw (other e x nx) at mx in
            let ed : d0 ≡ d = ground arith in
            let el : l0 ≡ l = ground arith in
            let free = others x hx nx in
            let free' : matches (entry c x) d l ≡ false = rw (ed, el) at free in cc

    pub replace-Coherent : Coherent (set c k e) disk
    replace-Coherent = record {
      size = length-set c k e ∙ h.size;
      unique = replace-Unique;
      clean = λ i hi v d. elim (ℕ_discrete k i) [
        | yes ki ↦
            rw (← ki, own e) (is_clean (rw (← ki, own e) at d) ∙ sym (ap₂ disk is_dev is_lba))
        | no ni ↦ rw (other e i ni) (h.clean i hi (rw (other e i ni) at v) (rw (other e i ni) at d))
      ];
    }

    none_after :
        (d l : ℕ)
        → same_key d0 l0 d l ≡ false
        → ((j : ℕ) → j < cache_entries → k ≢ j → matches (entry c j) d l ≡ false)
        → (i : ℕ) → i < cache_entries
        → matches (entry (set c k e) i) d l ≡ false
    none_after d l off all i hi = elim (ℕ_discrete k i) [
      | yes ki ↦ rw (← ki) (matches-own d l ∙ off)
      | no ni ↦ rw (other e i ni) (all i hi ni)
    ]

    pub content-replace :
        (d l : ℕ)
        → content (set c k e) disk d l
          ≡ (if same_key d0 l0 d l then e.bytes else content c disk d l)
    content-replace d l =
        content_of_Shown (set c k e) disk d l _ (length-set c k e ∙ h.size) replace-Unique
          (elim (Bool-cases (same_key d0 l0 d l)) [
            | inl key ↦
                rw key (inl (k, hk, matches-own d l ∙ key, ap (λ (x : Entry). x.bytes) (own e)))
            | inr off ↦ rw off (elim (content-Shown c disk d l h.size) [
              | inl (i, hi, m, eq) ↦ elim (ℕ_discrete k i) [
                | no ni ↦ inl (i, hi, rw (other e i ni) m, rw (other e i ni) eq)
                | yes ki ↦
                    let mk : matches (entry c k) d l ≡ true = rw (← ki) at m in
                    let eqk : (entry c k).bytes ≡ content c disk d l = rw (← ki) at eq in
                    inr (
                      none_after d l off (λ j hj nj. alone d l mk j hj nj),
                      sym (safe d l mk off) ∙ eqk,
                    )
              ]
              | inr (no_slot, eq) ↦ inr (none_after d l off (λ j hj nj. no_slot j hj), eq)
            ])
          ])

module _ {c : List Entry} {disk : ℕ → ℕ → Block} (h : Coherent c disk) (k : ℕ)
    (hk : k < cache_entries) where
  -- An entry marked clean.
  abbrev cleaned : Entry
  cleaned = record (entry c k) { dirty = false }

  own_key :
      (entry c k).valid ≡ true
      → (d l : ℕ) → matches (entry c k) d l ≡ same_key (entry c k).dev_index (entry c k).lba d l
  own_key v d l = ground arith

  -- Marking an entry clean whose block is on the disk.
  module _ (v : (entry c k).valid ≡ true)
      (on_disk : (entry c k).bytes ≡ disk (entry c k).dev_index (entry c k).lba) where
    others_miss :
        (j : ℕ)
        → j < cache_entries
        → k ≢ j
        → matches (entry c j) (entry c k).dev_index (entry c k).lba ≡ false
    others_miss = alone h k hk (entry c k).dev_index (entry c k).lba (ground arith)

    key_is_own :
        (d l : ℕ)
        → matches (entry c k) d l ≡ true
        → same_key (entry c k).dev_index (entry c k).lba d l ≡ false
        → (entry c k).bytes ≡ disk d l
    key_is_own d l m off = let same = own_key v d l in cc

    pub cleaned-Coherent : Coherent (set c k (record (entry c k) { dirty = false })) disk
    cleaned-Coherent =
        replace-Coherent h k hk cleaned (entry c k).dev_index (entry c k).lba v refl refl
          others_miss key_is_own (λ q. on_disk)

    pub content-cleaned :
        (d l : ℕ)
        → content (set c k (record (entry c k) { dirty = false })) disk d l ≡ content c disk d l
    content-cleaned d l =
        content-replace h k hk cleaned (entry c k).dev_index (entry c k).lba v refl refl others_miss
          key_is_own (λ q. on_disk) d l
        ∙ elim (Bool-cases (same_key (entry c k).dev_index (entry c k).lba d l)) [
          | inr off ↦ rw off
          | inl key ↦ rw key (
              sym (
                content_of_Shown c disk d l (entry c k).bytes h.size h.unique
                  (inl (k, hk, own_key v d l ∙ key, refl))))
        ]

    pub matches-cleaned :
        (i d l : ℕ)
        → matches (entry (set c k (record (entry c k) { dirty = false })) i) d l
          ≡ matches (entry c i) d l
    matches-cleaned i d l = elim (ℕ_discrete k i) [
      | yes ki ↦ rw (← ki, own h k hk cleaned)
      | no ni ↦ rw (other h k hk cleaned i ni)
    ]

-- A write to the disk under a slot that is dirty and stays so: the reader sees no change, since the
-- slot still has the block. `disk'` may hold anything at that block.
module _ {c : List Entry} {disk disk' : ℕ → ℕ → Block} (h : Coherent c disk) (k : ℕ)
    (hk : k < cache_entries) (is_valid : (entry c k).valid ≡ true)
    (is_dirty : (entry c k).dirty ≡ true)
    (agree : (d l : ℕ) → matches (entry c k) d l ≡ false → disk' d l ≡ disk d l) where
  matches-key :
      (i : ℕ)
      → (entry c i).valid ≡ true
      → matches (entry c i) (entry c i).dev_index (entry c i).lba ≡ true
  matches-key i v = ground arith

  pub disk-Coherent : Coherent c disk'
  disk-Coherent = record {
    size = h.size;
    unique = h.unique;
    clean = λ i hi v d.
        h.clean i hi v d
        ∙ sym (
            agree (entry c i).dev_index (entry c i).lba
              (elim (Bool-cases (matches (entry c k) (entry c i).dev_index (entry c i).lba)) [
                | inr off ↦ off
                | inl on ↦
                    let ki = h.unique k i _ _ hk hi on (matches-key i v) in
                    let dk : (entry c k).dirty ≡ false = rw ki d in cc
              ]));
  }

  pub content-disk : (d l : ℕ) → content c disk' d l ≡ content c disk d l
  content-disk d l =
      content_of_Shown c disk' d l _ h.size h.unique (elim (content-Shown c disk d l h.size) [
        | inl shown ↦ inl shown
        | inr (no_slot, eq) ↦ inr (no_slot, agree d l (no_slot k hk) ∙ eq)
      ])
