-- ===== src/BlockDev/Cache/Flush.antt =====
-- A flush of kernel/blockdev.c that reports success leaves on the disk what readers see.
use deanos.BlockDev.{
  Driver, BlockDev, entry, cache_entries, block_cache_writeback_entry, Block, write_through,
  no_entry,
}
use deanos.BlockDev.Sync.{flush_slots}
use deanos.BlockDev.Cache.Content.{DriverLaws, content-Shown}
use deanos.BlockDev.Cache.Evict.{
  IsCoherent, Unseen, view, Unseen-refl, writeback-Unseen, writeback-cleans, Unseen-trans,
}
use deanos.Prelude.{
  ℕ, Bool, ◌≢◌, ◌<◌, ◌+◌, ◌≡◌, arith, true, is_negative, get_or-set_ne, false, suc, Bool-cases, not,
  ◌||◌, inl, inr, zero, ap, ◌∙◌, sym, ap₂,
}
use native.Mathlib.Decide.{ℕ_discrete}

module _ {World : Type 0} (wanted : ℕ → Bool) where
  -- The first `i` slots hold nothing to write for the wanted devices.
  abbrev pub Settled : BlockDev World → ℕ → Type 0
  Settled s i =
      (j : ℕ)
      → j < i
      → (entry s.cache j).valid ≡ true
      → wanted (entry s.cache j).dev_index ≡ true
      → (entry s.cache j).dirty ≡ false

module _ {World : Type 0} (drv : Driver World) where
  -- A write-back leaves every other slot alone.
  writeback-other :
      (s : BlockDev World) (slot j : ℕ)
      → slot ≢ j
      → entry (block_cache_writeback_entry drv s slot).1.cache j ≡ entry s.cache j
  unfolding block_cache_writeback_entry write_through
  writeback-other s slot j ne = ground (
    arith,
    get_or-set_ne s.cache slot j (record (entry s.cache slot) { dirty = false }) no_entry ne,
  )

module _ {World : Type 0} (stored : World → ℕ → ℕ → Block) {drv : Driver World}
    (laws : DriverLaws drv stored) (wanted : ℕ → Bool) where
  pub flush_slots-Unseen :
      (n i : ℕ) (s : BlockDev World)
      → i + n ≡ cache_entries
      → IsCoherent stored s
      → Unseen stored s (flush_slots drv wanted n i s).1
  unfolding flush_slots
  flush_slots-Unseen zero i s e h = Unseen-refl stored h
  flush_slots-Unseen (suc n) i s e h =
      let x = entry s.cache i in
      let wb = block_cache_writeback_entry drv s i in
      let un = writeback-Unseen stored laws s i h (omega arith) in
      elim (Bool-cases (not x.valid || not x.dirty || not (wanted x.dev_index))) [
        | inl skip ↦ rw skip (flush_slots-Unseen n (i + 1) s (omega arith) h)
        | inr go ↦ elim (Bool-cases (is_negative wb.0)) [
          | inl failed ↦ rw (go, failed) un
          | inr done ↦
              rw (go, done)
                (Unseen-trans stored un
                  (flush_slots-Unseen n (i + 1) wb.1 (omega arith) un.coherent))
        ]
      ]

  settled_of_skip :
      (s : BlockDev World) (i : ℕ)
      → (entry s.cache i).valid ≡ true
      → wanted (entry s.cache i).dev_index ≡ true
      → (not (entry s.cache i).valid
          || not (entry s.cache i).dirty
          || not (wanted (entry s.cache i).dev_index))
        ≡ true
      → (entry s.cache i).dirty ≡ false
  settled_of_skip s i v w skip = ground arith

  pub flush_slots-Settled :
      (n i : ℕ) (s : BlockDev World)
      → i + n ≡ cache_entries
      → IsCoherent stored s
      → Settled wanted s i
      → let (rc, s') = flush_slots drv wanted n i s in
        is_negative rc ≡ false → Settled wanted s' cache_entries
  unfolding flush_slots
  flush_slots-Settled zero i s e h before = λ ok j hj. before j (omega arith)
  flush_slots-Settled (suc n) i s e h before =
      let x = entry s.cache i in
      let wb = block_cache_writeback_entry drv s i in
      let un = writeback-Unseen stored laws s i h (omega arith) in
      let cl = writeback-cleans stored laws s i h (omega arith) in
      elim (Bool-cases (not x.valid || not x.dirty || not (wanted x.dev_index))) [
        | inl skip ↦ rw skip (
            flush_slots-Settled n (i + 1) s (omega arith) h (λ j hj v w. elim (ℕ_discrete j i) [
              | yes ji ↦ rw ji (settled_of_skip s i (rw ji at v) (rw ji at w) skip)
              | no nji ↦ before j (omega arith) v w
            ]))
        | inr go ↦ elim (Bool-cases (is_negative wb.0)) [
          | inl failed ↦ rw (go, failed) (λ ok. cc)
          | inr done ↦
              rw (go, done)
                (flush_slots-Settled n (i + 1) wb.1 (omega arith) un.coherent (λ j hj v w.
                  elim (ℕ_discrete i j) [
                    | yes ij ↦ rw (← ij) (cl done (rw (← ij) at v))
                    | no nij ↦
                        let kept = writeback-other drv s i j nij in
                        rw kept (before j (omega arith) (rw kept at v) (rw kept at w))
                  ]))
        ]
      ]

  -- With nothing left to write for a device, its disk holds what readers see.
  pub Settled-on_disk :
      (s : BlockDev World) (d l : ℕ)
      → IsCoherent stored s
      → Settled wanted s cache_entries
      → wanted d ≡ true
      → stored s.world d l ≡ view stored s d l
  Settled-on_disk s d l h settled w =
      elim (content-Shown s.cache (stored s.world) d l h.blocks.size) [
        | inr (no_slot, e) ↦ e
        | inl (i, hi, m, e) ↦
            let v : (entry s.cache i).valid ≡ true = ground arith in
            let ed : (entry s.cache i).dev_index ≡ d = ground arith in
            let el : (entry s.cache i).lba ≡ l = ground arith in
            let clean = settled i hi v (ap wanted ed ∙ w) in
            sym (ap₂ (stored s.world) ed el) ∙ (sym (h.blocks.clean i hi v clean) ∙ e)
      ]
