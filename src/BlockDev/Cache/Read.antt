-- ===== src/BlockDev/Cache/Read.antt =====
-- Reads through the cache of kernel/blockdev.c give the blocks that a reader sees, and change none.
use deanos.BlockDev.{
  Driver, BlockDev, Entry, entry, block_cache_load, cache_entries, Block, matches, no_entry,
}
use deanos.BlockDev.Sync.{read_one, read_blocks, count_miss, evict}
use deanos.BlockDev.Cache.Content.{
  DriverLaws, content_of_Shown, Coherent, content, SameSlots-Coherent, content-SameSlots,
  content-found,
}
use deanos.BlockDev.Cache.Evict.{IsCoherent, Unseen, view}
use deanos.Prelude.{
  ℕ, ◌≡◌, ◌<◌, List, ◌∙◌, refl, true, [], suc, ◌∷◌, ◌+◌, false, is_negative, zero, arith,
  Bool-cases, inr, inl, ap₂, set, set-get_or, subst, sym, ap, get_or-set_self, neg,
}
use deanos.BlockDev.Cache.Steps.{same_key, replace-Coherent, content-replace}
use deanos.BlockDev.Cache.Find.{block_cache_find-cases}
use deanos.BlockDev.Cache.Clock.{ref-SameSlots}
use deanos.BlockDev.Cache.Slot.{evict-Evicted}

module _ {World : Type 0} (stored : World → ℕ → ℕ → Block) where
  -- A step that changes no block that a reader sees.
  pub record Quiet (s s' : BlockDev World) : Type 0 where
    pub coherent : IsCoherent stored s'
    pub same_view : (d l : ℕ) → view stored s' d l ≡ view stored s d l
    pub same_devs : s'.devs ≡ s.devs

  pub Quiet-refl : {s : BlockDev World} → IsCoherent stored s → Quiet s s
  Quiet-refl h = record { coherent = h; same_view = λ d l. refl; same_devs = refl }

  pub Quiet-trans : {s t u : BlockDev World} → Quiet s t → Quiet t u → Quiet s u
  Quiet-trans p q = record {
    coherent = q.coherent;
    same_view = λ d l. q.same_view d l ∙ p.same_view d l;
    same_devs = q.same_devs ∙ p.same_devs;
  }

  pub Unseen-Quiet : {s s' : BlockDev World} → Unseen stored s s' → Quiet s s'
  Unseen-Quiet u = record {
    coherent = u.coherent;
    same_view = u.same_view;
    same_devs = u.same_devs;
  }

  -- The blocks that a reader sees from `lba` on.
  abbrev pub view_from : ℕ → BlockDev World → (dev lba : ℕ) → List Block
  view_from zero s dev lba = []
  view_from (suc n) s dev lba = view stored s dev lba ∷ view_from n s dev (lba + 1)

  view_from-Quiet :
      (n : ℕ) {s s' : BlockDev World} (dev lba : ℕ)
      → Quiet s s'
      → view_from n s' dev lba ≡ view_from n s dev lba
  view_from-Quiet zero dev lba q = refl
  view_from-Quiet (suc n) dev lba q = rw (q.same_view dev lba, view_from-Quiet n dev (lba + 1) q)

  -- Where no slot matches, a reader sees the disk.
  view-miss :
      (s : BlockDev World) (d l : ℕ)
      → IsCoherent stored s
      → ((j : ℕ) → j < cache_entries → matches (entry s.cache j) d l ≡ false)
      → view stored s d l ≡ stored s.world d l
  view-miss s d l h none_here =
      content_of_Shown s.cache (stored s.world) d l (stored s.world d l) h.blocks.size
        h.blocks.unique (inr (none_here, refl))

  -- What a slot with nothing to write holds is on the disk.
  pub slot_safe :
      (s : BlockDev World) (slot : ℕ)
      → IsCoherent stored s
      → slot < cache_entries
      → ((entry s.cache slot).valid ≡ true → (entry s.cache slot).dirty ≡ false)
      → (d0 l0 d l : ℕ) → matches (entry s.cache slot) d l ≡ true
      → same_key d0 l0 d l ≡ false
      → (entry s.cache slot).bytes ≡ stored s.world d l
  slot_safe s slot h hs clean d0 l0 d l m off =
      let v : (entry s.cache slot).valid ≡ true = ground arith in
      let ed : (entry s.cache slot).dev_index ≡ d = ground arith in
      let el : (entry s.cache slot).lba ≡ l = ground arith in
      h.blocks.clean slot hs v (clean v) ∙ ap₂ (stored s.world) ed el

  module _ {drv : Driver World} (laws : DriverLaws drv stored) where
    same_disk : (w : World) (d l : ℕ) (b : Block) → stored (drv.read_block w d l b).2 ≡ stored w
    same_disk w d l b i d' l' = laws.read_keeps w d l b d' l' i

    -- A load into a slot with nothing to write, for a block that no slot has.
    load-Quiet :
        (s : BlockDev World) (slot d l : ℕ)
        → IsCoherent stored s
        → slot < cache_entries
        → ((j : ℕ) → j < cache_entries → matches (entry s.cache j) d l ≡ false)
        → ((entry s.cache slot).valid ≡ true → (entry s.cache slot).dirty ≡ false)
        → let (rc, s') = block_cache_load drv s slot d l in
          Quiet s s' × (is_negative rc ≡ false → (entry s'.cache slot).bytes ≡ view stored s d l)
    unfolding block_cache_load
    load-Quiet s slot d l h hs none_here clean =
        let e = entry s.cache slot in
        let got = drv.read_block s.world d l e.bytes in
        let disk = same_disk s.world d l e.bytes in
        elim (Bool-cases (is_negative got.0)) [
          | inl failed ↦
              let kept : set s.cache slot (record e { bytes = got.1 }) ≡ s.cache =
                rw (laws.read_fail s.world d l e.bytes failed) (set-get_or s.cache slot no_entry) in
              rw (failed, kept)
                (
                  record {
                    coherent = record {
                      blocks = subst (λ k. Coherent s.cache k) (sym disk) h.blocks;
                      hand_in = h.hand_in;
                    };
                    same_view = λ d' l'. ap (λ k. content s.cache k d' l') disk;
                    same_devs = refl;
                  },
                  λ ok. cc,
                )
          | inr done ↦
              let new : Entry = record {
                valid = true;
                dirty = false;
                ref = true;
                dev_index = d;
                lba = l;
                bytes = got.1;
              } in
              let exact = laws.read_ok s.world d l e.bytes done in
              let safe = slot_safe s slot h hs clean d l in
              let co =
                replace-Coherent h.blocks slot hs new d l refl refl refl (λ j hj nj. none_here j hj)
                  safe (λ q. exact) in
              let cr =
                content-replace h.blocks slot hs new d l refl refl refl (λ j hj nj. none_here j hj)
                  safe (λ q. exact) in
              let c' = set s.cache slot new in
              let shown = exact ∙ sym (view-miss s d l h none_here) in
              rw done (
                record {
                  coherent = record {
                    blocks = subst (λ k. Coherent c' k) (sym disk) co;
                    hand_in = h.hand_in;
                  };
                  same_view = λ d' l'.
                      ap (λ k. content c' k d' l') disk
                      ∙ (cr d' l' ∙ elim (Bool-cases (same_key d l d' l')) [
                        | inr off ↦ rw off
                        | inl key ↦
                            let ed : d ≡ d' = ground arith in
                            let el : l ≡ l' = ground arith in
                            rw key (shown ∙ ap₂ (view stored s) ed el)
                      ]);
                  same_devs = refl;
                },
                λ ok.
                    ap (λ (x : Entry). x.bytes)
                      (get_or-set_self s.cache slot new no_entry (omega (arith, h.blocks.size)))
                    ∙ shown,
              )
        ]

    count_miss-IsCoherent :
        (s : BlockDev World) → IsCoherent stored s → IsCoherent stored (count_miss s)
    count_miss-IsCoherent s h = record { blocks = h.blocks; hand_in = h.hand_in }

    -- One round of the read loop gives the block that a reader sees.
    pub read_one-Quiet :
        (s : BlockDev World) (dev lba : ℕ)
        → IsCoherent stored s
        → let (rc, block, s') = read_one drv s dev lba in
          Quiet s s' × (is_negative rc ≡ false → block ≡ view stored s dev lba)
    unfolding read_one
    read_one-Quiet s dev lba h = elim (block_cache_find-cases s.cache dev lba) [
      | inl (i, hi, found, m) ↦
          let same = ref-SameSlots s.cache i true in
          rw (read_one, found)
            (
              record {
                coherent = record {
                  blocks = SameSlots-Coherent same (stored s.world) h.blocks;
                  hand_in = h.hand_in;
                };
                same_view = content-SameSlots same (stored s.world) h.blocks;
                same_devs = refl;
              },
              λ ok. sym (content-found s.cache (stored s.world) dev lba i found),
            )
      | inr (found, all) ↦
          let start = count_miss-IsCoherent s h in
          let ev = evict-Evicted stored laws (neg 5) (count_miss s) start in
          let got = evict drv (neg 5) (count_miss s) in
          let none_here = λ (j : ℕ) (hj : j < cache_entries).
            (ev.unseen).same_keys j dev lba ∙ all j (omega (arith, h.blocks.size)) in
          let first = Unseen-Quiet ev.unseen in
          elim (Bool-cases (is_negative got.0)) [
            | inl failed ↦ rw (read_one, found, failed) (started first, λ ok. cc)
            | inr slot_ok ↦
                let load =
                  load-Quiet got.2 got.1 dev lba first.coherent ev.in_range none_here
                    (ev.clean slot_ok) in
                elim (Bool-cases (is_negative (block_cache_load drv got.2 got.1 dev lba).0)) [
                  | inl bad ↦
                      rw (read_one, found, slot_ok, bad)
                        (started (Quiet-trans first load.0), λ ok. cc)
                  | inr good ↦
                      rw (read_one, found, slot_ok, good)
                        (
                          started (Quiet-trans first load.0),
                          λ ok. load.1 good ∙ first.same_view dev lba,
                        )
                ]
          ]
    ]
      where
        started : {u : BlockDev World} → Quiet (count_miss s) u → Quiet s u
        started q = record {
          coherent = q.coherent;
          same_view = q.same_view;
          same_devs = q.same_devs;
        }

    -- The read loop.
    pub read_blocks-Quiet :
        (n : ℕ) (s : BlockDev World) (dev lba : ℕ)
        → IsCoherent stored s
        → let (rc, blocks, s') = read_blocks drv n s dev lba in
          Quiet s s' × (is_negative rc ≡ false → blocks ≡ view_from n s dev lba)
    unfolding read_blocks
    read_blocks-Quiet zero s dev lba h = (Quiet-refl h, λ ok. refl)
    read_blocks-Quiet (suc n) s dev lba h =
        let one = read_one-Quiet s dev lba h in
        let got = read_one drv s dev lba in
        let rest = read_blocks-Quiet n got.2 dev (lba + 1) (one.0).coherent in
        elim (Bool-cases (is_negative got.0)) [
          | inl failed ↦ rw failed (one.0, λ ok. cc)
          | inr good ↦ rw good (
            Quiet-trans (one.0) (rest.0),
            λ ok.
                ap₂ (λ (b : Block) (bs : List Block). b ∷ bs) (one.1 good)
                  (rest.1 ok ∙ view_from-Quiet n dev (lba + 1) (one.0)),
          )
        ]
