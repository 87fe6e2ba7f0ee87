-- ===== src/BlockDev/Cache/Evict.antt =====
-- A write-back and an eviction in kernel/blockdev.c: no reader sees them, and the slot that an
-- eviction gives can be used for another block.
use deanos.BlockDev.{
  Driver, BlockDev, entry, device, matches, cache_entries, block_cache_writeback_entry, Block,
  write_through, no_entry,
}
use deanos.BlockDev.Cache.Content.{DriverLaws, Coherent, content}
use deanos.Prelude.{
  ℕ, ◌∙◌, ◌≡◌, ◌<◌, true, refl, false, arith, Bool-cases, not, ◌||◌, inl, is_negative, inr, leb,
  length, sym, get_or-set_self,
}
use deanos.BlockDev.Cache.Steps.{
  disk-Coherent, content-disk, cleaned-Coherent, content-cleaned, matches-cleaned,
}

module _ {World : Type 0} (stored : World → ℕ → ℕ → Block) where
  -- The block that a reader sees in state `s`.
  abbrev pub view : BlockDev World → (dev lba : ℕ) → Block
  view s dev lba = content s.cache (stored s.world) dev lba

  pub record IsCoherent (s : BlockDev World) : Type 0 where
    pub blocks : Coherent s.cache (stored s.world)
    pub hand_in : s.hand < cache_entries

  -- A step that no reader sees: it keeps the invariant, the blocks, the devices, and which block
  -- each slot is for.
  pub record Unseen (s s' : BlockDev World) : Type 0 where
    pub coherent : IsCoherent s'
    pub same_view : (d l : ℕ) → view s' d l ≡ view s d l
    pub same_devs : s'.devs ≡ s.devs
    pub same_keys : (i d l : ℕ) → matches (entry s'.cache i) d l ≡ matches (entry s.cache i) d l

  pub Unseen-refl : {s : BlockDev World} → IsCoherent s → Unseen s s
  Unseen-refl h = record {
    coherent = h;
    same_view = λ d l. refl;
    same_devs = refl;
    same_keys = λ i d l. refl;
  }

  pub Unseen-trans : {s t u : BlockDev World} → Unseen s t → Unseen t u → Unseen s u
  Unseen-trans p q = record {
    coherent = q.coherent;
    same_view = λ d l. q.same_view d l ∙ p.same_view d l;
    same_devs = q.same_devs ∙ p.same_devs;
    same_keys = λ i d l. q.same_keys i d l ∙ p.same_keys i d l;
  }

  module _ {drv : Driver World} (laws : DriverLaws drv stored) where
    -- The disks after the write of a dirty entry, whatever its result.
    written : BlockDev World → ℕ → World
    written s slot =
        let e = entry s.cache slot in (drv.write_block s.world e.dev_index e.lba e.bytes).1

    written-agree :
        (s : BlockDev World) (slot d l : ℕ)
        → (entry s.cache slot).valid ≡ true
        → matches (entry s.cache slot) d l ≡ false
        → stored (written s slot) d l ≡ stored s.world d l
    unfolding written
    written-agree s slot d l v off =
        laws.write_other s.world (entry s.cache slot).dev_index (entry s.cache slot).lba
          (entry s.cache slot).bytes d l (λ p. ground arith)

    write_through-Unseen :
        (s : BlockDev World) (slot : ℕ)
        → IsCoherent s
        → slot < cache_entries
        → (entry s.cache slot).valid ≡ true
        → (entry s.cache slot).dirty ≡ true
        → Unseen s (write_through drv s slot).1
    unfolding write_through written
    write_through-Unseen s slot h hs v dirty =
        let e = entry s.cache slot in
        let agree = λ (d l : ℕ). written-agree s slot d l v in
        let mid = disk-Coherent h.blocks slot hs v dirty agree in
        let seen = content-disk h.blocks slot hs v dirty agree in
        elim (Bool-cases (is_negative (drv.write_block s.world e.dev_index e.lba e.bytes).0)) [
          | inl failed ↦ rw failed (record {
            coherent = record { blocks = mid; hand_in = h.hand_in };
            same_view = seen;
            same_devs = refl;
            same_keys = λ i d l. refl;
          })
          | inr done ↦
              let on_disk = sym (laws.write_ok s.world e.dev_index e.lba e.bytes done) in
              rw done (record {
                coherent = record {
                  blocks = cleaned-Coherent mid slot hs v on_disk;
                  hand_in = h.hand_in;
                };
                same_view = λ d l. content-cleaned mid slot hs v on_disk d l ∙ seen d l;
                same_devs = refl;
                same_keys = matches-cleaned mid slot hs v on_disk;
              })
        ]

    -- A write-back is not seen, whether it succeeds, fails, or has nothing to do.
    pub writeback-Unseen :
        (s : BlockDev World) (slot : ℕ)
        → IsCoherent s
        → slot < cache_entries
        → Unseen s (block_cache_writeback_entry drv s slot).1
    unfolding block_cache_writeback_entry
    writeback-Unseen s slot h hs =
        let e = entry s.cache slot in
        let d = device s e.dev_index in
        elim (Bool-cases (not e.valid || not e.dirty)) [
          | inl idle ↦ rw idle (Unseen-refl h)
          | inr busy ↦ elim (Bool-cases (leb (length s.devs) e.dev_index)) [
            | inl gone ↦ rw (busy, gone) (Unseen-refl h)
            | inr there ↦ elim (Bool-cases d.has_write) [
              | inr no_write ↦ rw (busy, there, no_write) (Unseen-refl h)
              | inl can ↦ elim (Bool-cases d.readonly) [
                | inl ro ↦ rw (busy, there, can, ro) (Unseen-refl h)
                | inr rw_dev ↦
                    rw (busy, there, can, rw_dev)
                      (write_through-Unseen s slot h hs (ground arith) (ground arith))
              ]
            ]
          ]
        ]

    -- After a write-back that reports success the slot has nothing to write.
    pub writeback-cleans :
        (s : BlockDev World) (slot : ℕ)
        → IsCoherent s
        → slot < cache_entries
        → let (rc, s') = block_cache_writeback_entry drv s slot in
          is_negative rc ≡ false
          → (entry s'.cache slot).valid ≡ true
          → (entry s'.cache slot).dirty ≡ false
    unfolding block_cache_writeback_entry write_through
    writeback-cleans s slot h hs =
        let e = entry s.cache slot in
        ground (
          arith,
          get_or-set_self s.cache slot (record e { dirty = false }) no_entry
              (omega (arith, h.blocks.size)),
        )
