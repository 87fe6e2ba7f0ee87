-- ===== src/BlockDev/Cache/Write.antt =====
-- Writes through the cache of kernel/blockdev.c: the reader sees the new blocks where they were
-- written, and every other block as before.
use deanos.BlockDev.{Driver, BlockDev, Entry, entry, matches, cache_entries, Block}
use deanos.BlockDev.Sync.{fill, write_one, write_blocks, count_hit, count_miss, evict}
use deanos.BlockDev.Cache.Content.{DriverLaws}
use deanos.BlockDev.Cache.Evict.{IsCoherent, view}
use deanos.Prelude.{
  ℕ, ◌≡◌, if◌then◌else◌, ◌<◌, is_negative, ◌≢◌, true, false, inl, arith, inr, neg, Bool-cases, ◌∙◌,
  ap, refl, List, ℤ, ◌∷◌, ◌+◌, ◌==◌, ◌&&◌, suc, ◌≤◌, leb, take, length, [], ltb, ◌-◌, get_or,
}
use deanos.BlockDev.Cache.Steps.{same_key, replace-Coherent, content-replace, alone}
use deanos.BlockDev.Cache.Read.{Quiet, Unseen-Quiet, slot_safe}
use deanos.BlockDev.Cache.Find.{block_cache_find-cases}
use deanos.BlockDev.Cache.Slot.{evict-Evicted}
use native.Mathlib.Decide.{ℕ_discrete, dec_le}

module _ {World : Type 0} (stored : World → ℕ → ℕ → Block) where
  -- The block at (d', l') once `b` was written at (d, l).
  abbrev pub with_block : BlockDev World → (d l : ℕ) → Block → (d' l' : ℕ) → Block
  with_block s d l b d' l' = if same_key d l d' l' then b else view stored s d' l'

  -- A step that writes block `b` at (d, l) and changes nothing else that a reader sees.
  pub record Writes (s s' : BlockDev World) (d l : ℕ) (b : Block) : Type 0 where
    pub coherent : IsCoherent stored s'
    pub new_view : (d' l' : ℕ) → view stored s' d' l' ≡ with_block s d l b d' l'
    pub same_devs : s'.devs ≡ s.devs

  fill-Writes :
      (s : BlockDev World) (slot d l : ℕ) (b : Block)
      → IsCoherent stored s
      → slot < cache_entries
      → ((j : ℕ) → j < cache_entries → slot ≢ j → matches (entry s.cache j) d l ≡ false)
      → ((d' l' : ℕ)
          → matches (entry s.cache slot) d' l' ≡ true
          → same_key d l d' l' ≡ false
          → (entry s.cache slot).bytes ≡ stored s.world d' l')
      → Writes s (fill s slot d l b) d l b
  unfolding fill
  fill-Writes s slot d l b h hs others safe =
      let new : Entry = record {
        valid = true;
        dirty = true;
        ref = true;
        dev_index = d;
        lba = l;
        bytes = b;
      } in
      record {
        coherent = record {
          blocks = replace-Coherent h.blocks slot hs new d l refl refl refl others safe (λ q. cc);
          hand_in = h.hand_in;
        };
        new_view = content-replace h.blocks slot hs new d l refl refl refl others safe (λ q. cc);
        same_devs = refl;
      }

  -- A failed round is quiet; a successful one writes its block.
  module _ {drv : Driver World} (laws : DriverLaws drv stored) where
    pub write_one-Writes :
        (s : BlockDev World) (dev lba : ℕ) (b : Block)
        → IsCoherent stored s
        → let (rc, s') = write_one drv s dev lba b in
          (is_negative rc ≡ true → Quiet stored s s')
          × (is_negative rc ≡ false → Writes s s' dev lba b)
    unfolding write_one
    write_one-Writes s dev lba b h = elim (block_cache_find-cases s.cache dev lba) [
      | inl (i, hi, found, m) ↦
          let hi' : i < cache_entries = omega (arith, h.blocks.size) in
          let start : IsCoherent stored (count_hit s) = record {
            blocks = h.blocks;
            hand_in = h.hand_in;
          } in
          let w =
            fill-Writes (count_hit s) i dev lba b start hi' (alone h.blocks i hi' dev lba m)
              (λ d' l' m' off. ground arith) in
          rw (write_one, found) ((λ bad. cc), λ ok. counted w)
      | inr (found, all) ↦
          let start : IsCoherent stored (count_miss s) = record {
            blocks = h.blocks;
            hand_in = h.hand_in;
          } in
          let ev = evict-Evicted stored laws (neg 6) (count_miss s) start in
          let got = evict drv (neg 6) (count_miss s) in
          let q = Unseen-Quiet stored ev.unseen in
          elim (Bool-cases (is_negative got.0)) [
            | inl failed ↦
                rw (write_one, found, failed)
                  (
                    (λ bad. record {
                      coherent = q.coherent;
                      same_view = q.same_view;
                      same_devs = q.same_devs;
                    }),
                    λ ok. cc,
                  )
            | inr good ↦
                let w =
                  fill-Writes got.2 got.1 dev lba b q.coherent ev.in_range
                    (λ j hj nj.
                      (ev.unseen).same_keys j dev lba ∙ all j (omega (arith, h.blocks.size)))
                    (slot_safe stored got.2 got.1 q.coherent ev.in_range (ev.clean good) dev lba) in
                rw (write_one, found, good)
                  (
                    (λ bad. cc),
                    λ ok. record {
                      coherent = w.coherent;
                      new_view = λ d' l'.
                          w.new_view d' l'
                          ∙ ap (λ (x : Block). if same_key dev lba d' l' then b else x)
                              (q.same_view d' l');
                      same_devs = w.same_devs ∙ q.same_devs;
                    },
                  )
          ]
    ]
      where
        counted : {u : BlockDev World} → Writes (count_hit s) u dev lba b → Writes s u dev lba b
        counted w = record { coherent = w.coherent; new_view = w.new_view; same_devs = w.same_devs }

-- The blocks of `v` once `blocks` were written on device `dev` from `lba` on.
abbrev pub overlay : (ℕ → ℕ → Block) → (dev lba : ℕ) → List Block → (d l : ℕ) → Block
overlay v dev lba blocks d l =
    if (d == dev && leb lba l) && ltb l (lba + length blocks)
    then get_or blocks (l - lba) []
    else v d l

overlay-cons :
    (v : ℕ → ℕ → Block) (dev lba : ℕ) (b : Block) (bs : List Block) (d l : ℕ)
    → overlay (λ d' l'. if same_key dev lba d' l' then b else v d' l') dev (lba + 1) bs d l
      ≡ overlay v dev lba (b ∷ bs) d l
overlay-cons v dev lba b bs d l = elim (ℕ_discrete dev d) [
  | no nd ↦ ground arith
  | yes ed ↦ elim (dec_le l lba) [
    | yes le ↦ ground arith
    | no gt ↦ let e : l - lba ≡ suc (l - (lba + 1)) = omega arith in rw e (ground arith)
  ]
]

overlay-cong :
    (v w : ℕ → ℕ → Block) (dev lba : ℕ) (bs : List Block) (d l : ℕ)
    → ((d' l' : ℕ) → v d' l' ≡ w d' l')
    → overlay v dev lba bs d l ≡ overlay w dev lba bs d l
overlay-cong v w dev lba bs d l same =
    ap
      (λ (x : Block).
        if (d == dev && leb lba l) && ltb l (lba + length bs) then get_or bs (l - lba) [] else x)
      (same d l)

module _ {World : Type 0} (stored : World → ℕ → ℕ → Block) where
  -- What a write of `blocks` does: it writes a prefix of them, all of them if it reports success.
  pub record Wrote (s : BlockDev World) (dev lba : ℕ) (blocks : List Block) (r : ℤ × BlockDev World)
      : Type 0 where
    pub coherent : IsCoherent stored r.1
    pub same_devs : (r.1).devs ≡ s.devs
    pub done : ℕ
    pub done_le : done ≤ length blocks
    pub all_done : is_negative r.0 ≡ false → done ≡ length blocks
    pub new_view :
        (d l : ℕ) → view stored r.1 d l ≡ overlay (view stored s) dev lba (take done blocks) d l

  module _ {drv : Driver World} (laws : DriverLaws drv stored) where
    pub write_blocks-Wrote :
        (blocks : List Block) (s : BlockDev World) (dev lba : ℕ)
        → IsCoherent stored s
        → Wrote s dev lba blocks (write_blocks drv blocks s dev lba)
    unfolding write_blocks
    write_blocks-Wrote [] s dev lba h = record {
      coherent = h;
      same_devs = refl;
      done = 0;
      done_le = omega arith;
      all_done = λ ok. refl;
      new_view = λ d l. ground arith;
    }
    write_blocks-Wrote (b ∷ bs) s dev lba h =
        let one = write_one-Writes stored laws s dev lba b h in
        let got = write_one drv s dev lba b in
        elim (Bool-cases (is_negative got.0)) [
          | inl failed ↦
              let q = one.0 failed in
              rw failed (record {
                coherent = q.coherent;
                same_devs = q.same_devs;
                done = 0;
                done_le = omega arith;
                all_done = λ ok. cc;
                new_view = λ d l. q.same_view d l ∙ ground arith;
              })
          | inr good ↦
              let w = one.1 good in
              let rest = write_blocks-Wrote bs got.1 dev (lba + 1) w.coherent in
              rw good (record {
                coherent = rest.coherent;
                same_devs = rest.same_devs ∙ w.same_devs;
                done = suc rest.done;
                done_le = omega (arith, rest.done_le);
                all_done = λ ok. ap suc (rest.all_done ok);
                new_view = λ d l.
                    rest.new_view d l
                    ∙ (overlay-cong (view stored got.1) (with_block stored s dev lba b) dev
                          (lba + 1) (take rest.done bs) d l w.new_view
                        ∙ overlay-cons (view stored s) dev lba b (take rest.done bs) d l);
              })
        ]
