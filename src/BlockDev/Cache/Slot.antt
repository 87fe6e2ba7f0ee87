-- ===== src/BlockDev/Cache/Slot.antt =====
-- `block_cache_get_slot` of kernel/blockdev.c always finds a slot, and what the read and write loops
-- do with it on a miss is not seen by a reader.
use deanos.BlockDev.{
  Driver, BlockDev, Entry, entry, find_invalid, block_cache_get_slot, cache_entries, Block,
  block_cache_writeback_entry, bump,
}
use deanos.BlockDev.Sync.{evict}
use deanos.BlockDev.Cache.Content.{DriverLaws, SameSlots-Coherent, content-SameSlots, matches-same}
use deanos.BlockDev.Cache.Evict.{
  IsCoherent, Unseen, Unseen-refl, Unseen-trans, writeback-Unseen, writeback-cleans,
}
use deanos.Prelude.{
  ℕ, List, ◌≡◌, inr, ℤ, none, Option, ◌⊎◌, ◌+◌, ◌<◌, some, is_negative, Bool-cases, length, arith,
  ◌&&◌, false, inl, true, ◌∷◌, ap, suc, ◌∙◌, [], refl,
}
use deanos.BlockDev.Cache.Clock.{clock-total}

find_invalid-cases :
    (c : List Entry) (k : ℕ)
    → (find_invalid c k ≡ none)
      ⊎ ((i : ℕ) × (i < length c) × (find_invalid c k ≡ some (k + i)) × ((entry c i).valid ≡ false))
unfolding find_invalid
find_invalid-cases [] k = inl refl
find_invalid-cases (e ∷ es) k = elim (Bool-cases e.valid) [
  | inr free ↦ simp free (inr (0, omega arith, ap (λ (j : ℕ). some j) (omega arith), free))
  | inl used ↦ elim (find_invalid-cases es (k + 1)) [
    | inl all ↦ simp used (inl all)
    | inr (i, h, found, free) ↦
        simp used (inr (suc i, omega arith, found ∙ ap (λ (j : ℕ). some j) (omega arith), free))
  ]
]

module _ {World : Type 0} (stored : World → ℕ → ℕ → Block) where
  -- A choice of a slot for the state `s`.
  pub record Chosen (s : BlockDev World) (r : Option (ℕ × BlockDev World)) : Type 0 where
    pub slot : ℕ
    pub after : BlockDev World
    pub result : r ≡ some (slot, after)
    pub in_range : slot < cache_entries
    pub unseen : Unseen stored s after

  -- A slot is always found.
  pub get_slot-Chosen :
      (s : BlockDev World) → IsCoherent stored s → Chosen s (block_cache_get_slot s)
  unfolding block_cache_get_slot
  get_slot-Chosen s h = elim (find_invalid-cases s.cache 0) [
    | inr (i, hi, found, free) ↦
        rw (block_cache_get_slot, found)
          (record {
            slot = 0 + i;
            after = s;
            result = refl;
            in_range = omega (arith, h.blocks.size);
            unseen = Unseen-refl stored h;
          })
    | inl all ↦
        let t = clock-total s.cache s.hand h.hand_in h.blocks.size in
        rw (block_cache_get_slot, all, t.result)
          (record {
            slot = t.victim;
            after = record s {
              cache = t.cache;
              hand = t.hand;
              stats = record (s.stats) { evictions = bump s.stats.evictions };
            };
            result = refl;
            in_range = t.victim_in;
            unseen = record {
              coherent = record {
                blocks = SameSlots-Coherent t.same (stored s.world) h.blocks;
                hand_in = t.hand_in;
              };
              same_view = content-SameSlots t.same (stored s.world) h.blocks;
              same_devs = refl;
              same_keys = matches-same t.same;
            };
          })
  ]

  -- A slot to use for another block, or an error; either way nothing is seen.
  pub record Evicted (s : BlockDev World) (r : ℤ × ℕ × BlockDev World) : Type 0 where
    pub unseen : Unseen stored s r.2
    pub in_range : r.1 < cache_entries
    pub clean :
        is_negative r.0 ≡ false
        → (entry (r.2).cache r.1).valid ≡ true
        → (entry (r.2).cache r.1).dirty ≡ false

  module _ {drv : Driver World} (laws : DriverLaws drv stored) where
    pub evict-Evicted :
        (no_slot : ℤ) (s : BlockDev World) → IsCoherent stored s → Evicted s (evict drv no_slot s)
    unfolding evict
    evict-Evicted no_slot s h =
        let ch = get_slot-Chosen s h in
        let e = entry (ch.after).cache ch.slot in
        let wb = block_cache_writeback_entry drv ch.after ch.slot in
        let un = writeback-Unseen stored laws ch.after ch.slot (ch.unseen).coherent ch.in_range in
        let cl = writeback-cleans stored laws ch.after ch.slot (ch.unseen).coherent ch.in_range in
        rw (evict, ch.result)
          (elim (Bool-cases (e.valid && e.dirty)) [
            | inr clean ↦ rw clean (record {
              unseen = ch.unseen;
              in_range = ch.in_range;
              clean = λ ok v. ground arith;
            })
            | inl dirty ↦ elim (Bool-cases (is_negative wb.0)) [
              | inl failed ↦
                  rw (dirty, failed)
                    (record {
                      unseen = Unseen-trans stored ch.unseen un;
                      in_range = ch.in_range;
                      clean = λ ok v. cc;
                    })
              | inr done ↦
                  rw (dirty, done)
                    (record {
                      unseen = Unseen-trans stored ch.unseen un;
                      in_range = ch.in_range;
                      clean = λ ok v. cl done v;
                    })
            ]
          ])
