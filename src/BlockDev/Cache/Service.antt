-- ===== src/BlockDev/Cache/Service.antt =====
-- What the synchronous entry points of kernel/blockdev.c promise of a cached device: one disk of
-- blocks, whatever is in the cache.
use deanos.BlockDev.{
  Driver, BlockDev, device, blockdev_should_cache, Block, cache_entries, Device, no_device,
}
use deanos.BlockDev.Sync.{
  blockdev_read_sync_impl, blockdev_write_sync_impl, blockdev_flush_sync_impl, flush_all_slots,
  flush_slots,
}
use deanos.BlockDev.Cache.Content.{DriverLaws}
use deanos.BlockDev.Cache.Evict.{IsCoherent, view, Unseen, Unseen-refl}
use deanos.Prelude.{
  ℕ, ◌<◌, length, ℤ, ◌+◌, List, ◌≤◌, Bool, ◌≡◌, true, is_negative, false, Bool-cases, leb, ◌||◌,
  not, ◌==◌, inl, inr, ltb, ◌-◌, arith, get_or, Option, some, neg, [], refl, take, ◌∷◌, ap₂,
  take-length, ap, ◌∙◌, suc, ◌⊎◌, unless, if◌then◌else◌, none,
}
use deanos.BlockDev.Cache.Read.{Quiet, view_from, Quiet-refl, read_blocks-Quiet}
use deanos.BlockDev.Cache.Write.{Wrote, overlay, write_blocks-Wrote}
use deanos.BlockDev.Cache.Flush.{flush_slots-Unseen, flush_slots-Settled, Settled-on_disk}

-- The blocks from `lba` on lie on the device.
abbrev pub InBounds : {World : Type 0} → BlockDev World → (dev lba count : ℕ) → Type 0
InBounds s dev lba count =
    (dev < length s.devs) × (0 < count) × (lba + count ≤ (device s dev).block_count)

-- The devices that a flush of `dev` writes back: itself, and the parent of a partition.
abbrev pub IsFlushed :
    {World : Type 0} → BlockDev World → (dev : ℕ) → (parent : Option ℕ) → ℕ → Type 0
IsFlushed s dev parent d = (d ≡ dev) ⊎ (((device s dev).partition ≡ true) × (parent ≡ some d))

module _ {World : Type 0} (stored : World → ℕ → ℕ → Block) {drv : Driver World}
    (laws : DriverLaws drv stored)
    (nested_read : BlockDev World → (dev lba count : ℕ) → ℤ × List Block × BlockDev World)
    (nested_write : BlockDev World → (dev lba : ℕ) → List Block → ℤ × BlockDev World) where
  read_post :
      (s : BlockDev World) (dev lba count : ℕ) (has_buffer : Bool)
      → IsCoherent stored s
      → blockdev_should_cache (device s dev) ≡ true
      → let (rc, blocks, s') =
          blockdev_read_sync_impl drv
            (λ s. s)
            nested_read
            nested_write
            s
            dev
            lba
            count
            has_buffer in
        Quiet stored s s'
        × (is_negative rc ≡ false
            → InBounds s dev lba count × (blocks ≡ view_from stored count s dev lba))
  unfolding blockdev_read_sync_impl
  read_post s dev lba count has_buffer h cached =
      let d = device s dev in
      let q = Quiet-refl stored h in
      let loop = read_blocks-Quiet stored laws count s dev lba h in
      elim (Bool-cases (leb (length s.devs) dev || not has_buffer || count == 0)) [
        | inl bad ↦ rw bad (q, λ ok. cc)
        | inr args ↦ elim (Bool-cases d.has_read) [
          | inr no_read ↦ rw (args, no_read) (q, λ ok. cc)
          | inl can ↦ elim (Bool-cases (leb d.block_count lba)) [
            | inl past ↦ rw (args, can, past) (q, λ ok. cc)
            | inr inside ↦ elim (Bool-cases (ltb (d.block_count - lba) count)) [
              | inl long ↦ rw (args, can, inside, long) (q, λ ok. cc)
              | inr fits ↦
                  rw (args, can, inside, fits, cached)
                    (loop.0, λ ok. ((ground arith, ground arith, ground arith), loop.1 ok))
            ]
          ]
        ]
      ]

  nothing_written :
      (s : BlockDev World) (dev lba : ℕ) (blocks : List Block) (rc : ℤ)
      → IsCoherent stored s
      → is_negative rc ≡ true
      → Wrote stored s dev lba blocks (rc, s)
  nothing_written s dev lba blocks rc h bad = record {
    coherent = h;
    same_devs = refl;
    done = 0;
    done_le = omega arith;
    all_done = λ ok. cc;
    new_view = λ d l. ground arith;
  }

  write_post :
      (s : BlockDev World) (dev lba : ℕ) (blocks : List Block)
      → IsCoherent stored s
      → blockdev_should_cache (device s dev) ≡ true
      → let r =
          blockdev_write_sync_impl drv (λ s. s) nested_read nested_write s dev lba (some blocks) in
        Wrote stored s dev lba blocks r
        × (is_negative r.0 ≡ false → InBounds s dev lba (length blocks))
  unfolding blockdev_write_sync_impl
  write_post s dev lba blocks h cached =
      let d = device s dev in
      let stop =
        λ (rc : ℤ) (bad : is_negative rc ≡ true). nothing_written s dev lba blocks rc h bad in
      elim (Bool-cases (leb (length s.devs) dev || length blocks == 0)) [
        | inl bad ↦ rw bad (stop (neg 1) refl, λ ok. cc)
        | inr args ↦ elim (Bool-cases d.has_write) [
          | inr no_write ↦ rw (args, no_write) (stop (neg 2) refl, λ ok. cc)
          | inl can ↦ elim (Bool-cases d.readonly) [
            | inl ro ↦ rw (args, can, ro) (stop (neg 3) refl, λ ok. cc)
            | inr wr ↦ elim (Bool-cases (leb d.block_count lba)) [
              | inl past ↦ rw (args, can, wr, past) (stop (neg 4) refl, λ ok. cc)
              | inr inside ↦ elim (Bool-cases (ltb (d.block_count - lba) (length blocks))) [
                | inl long ↦ rw (args, can, wr, inside, long) (stop (neg 5) refl, λ ok. cc)
                | inr fits ↦
                    rw (args, can, wr, inside, fits, cached)
                      (
                        write_blocks-Wrote stored laws blocks s dev lba h,
                        λ ok. (ground arith, ground arith, ground arith),
                      )
              ]
            ]
          ]
        ]
      ]

  view_from-of :
      (bs : List Block) (s : BlockDev World) (dev lba : ℕ)
      → ((i : ℕ) → i < length bs → view stored s dev (lba + i) ≡ get_or bs i [])
      → view_from stored (length bs) s dev lba ≡ bs
  view_from-of [] s dev lba all = refl
  view_from-of (b ∷ bs) s dev lba all =
      ap₂ (λ (x : Block) (xs : List Block). x ∷ xs)
        (ap (view stored s dev) (omega arith) ∙ all 0 (omega arith))
        (view_from-of bs s dev (lba + 1)
          (λ i hi. ap (view stored s dev) (omega arith) ∙ all (suc i) (omega arith)))

  read_write_post :
      (s : BlockDev World) (dev lba : ℕ) (blocks : List Block)
      → IsCoherent stored s
      → blockdev_should_cache (device s dev) ≡ true
      → let (wrc, s') =
          blockdev_write_sync_impl drv (λ s. s) nested_read nested_write s dev lba (some blocks) in
        let (rrc, got, s'') =
          blockdev_read_sync_impl drv
            (λ s. s)
            nested_read
            nested_write
            s'
            dev
            lba
            (length blocks)
            true in
        is_negative wrc ≡ false → is_negative rrc ≡ false → got ≡ blocks
  read_write_post s dev lba blocks h cached wok rok =
      let r =
        blockdev_write_sync_impl drv (λ s. s) nested_read nested_write s dev lba (some blocks) in
      let w = (write_post s dev lba blocks h cached).0 in
      let cached' : blockdev_should_cache (device r.1 dev) ≡ true =
        ap (λ (ds : List Device). blockdev_should_cache (get_or ds dev no_device)) w.same_devs
        ∙ cached in
      let got = read_post r.1 dev lba (length blocks) true w.coherent cached' in
      (got.1 rok).1
      ∙ view_from-of blocks r.1 dev lba (λ i hi.
        w.new_view dev (lba + i) ∙ rw (w.all_done wok) (written_there dev lba blocks i hi s))
    where
      written_there :
          (dev lba : ℕ) (blocks : List Block) (i : ℕ)
          → i < length blocks
          → (s : BlockDev World)
          → overlay (view stored s) dev lba (take (length blocks) blocks) dev (lba + i)
            ≡ get_or blocks i []
      written_there dev lba blocks i hi s =
          let e : lba + i - lba ≡ i = omega arith in rw (take-length blocks, e) (ground arith)

  flushed :
      (s : BlockDev World) (wanted : ℕ → Bool) (d : ℕ)
      → wanted d ≡ true
      → IsCoherent stored s
      → let (rc, s') = flush_slots drv wanted cache_entries 0 s in
        Unseen stored s s'
        × (is_negative rc ≡ false → (l : ℕ) → stored s'.world d l ≡ view stored s d l)
  flushed s wanted d w h =
      let un = flush_slots-Unseen stored laws wanted cache_entries 0 s (omega arith) h in
      let done =
        flush_slots-Settled stored laws wanted cache_entries 0 s (omega arith) h
          (λ j hj. absurd (omega arith)) in
      (
        un,
        λ ok l. Settled-on_disk stored laws wanted _ d l un.coherent (done ok) w ∙ un.same_view d l,
      )

  flush_post :
      (s : BlockDev World) (dev : ℕ) (parent : Option ℕ)
      → IsCoherent stored s
      → let (rc, s') = blockdev_flush_sync_impl drv s dev parent in
        Unseen stored s s'
        × (is_negative rc ≡ false
            → (d l : ℕ) → IsFlushed s dev parent d
            → stored s'.world d l ≡ view stored s d l)
  unfolding blockdev_flush_sync_impl
  flush_post s dev parent h = elim (Bool-cases (leb (length s.devs) dev)) [
    | inl bad ↦ rw bad (Unseen-refl stored h, λ ok. cc)
    | inr there ↦
        let b : ℕ =
          if (device s dev).partition
          then elim parent [ some p ↦ p | none ↦ 0xffff_ffff ]
          else 0xffff_ffff in
        let wanted = λ (d : ℕ). d == dev || d == b in
        let parent_b : (d : ℕ)
            → (device s dev).partition ≡ true
            → parent ≡ some d
            → (d == b) ≡ true =
          λ d part e. rw (part, e) (ground arith) in
        rw there (
          (flushed s wanted dev (ground arith) h).0,
          λ ok d l which.
              (flushed s wanted d
                  (elim which [
                    | inl own ↦ ground (arith, own)
                    | inr (part, e) ↦ ground (arith, parent_b d part e)
                  ])
                  h).1
                ok l,
        )
  ]

  flush_all_post :
      (s : BlockDev World)
      → IsCoherent stored s
      → let (rc, s') = flush_all_slots drv s in
        Unseen stored s s'
        × (is_negative rc ≡ false → (d l : ℕ) → stored s'.world d l ≡ view stored s d l)
  unfolding flush_all_slots
  flush_all_post s h =
      ((flushed s (λ dev. true) 0 refl h).0, λ ok d l. (flushed s (λ dev. true) d refl h).1 ok l)

  -- A read from a device that is cached, in a coherent state, keeps the state coherent and changes no
  -- block that a reader sees, whatever it returns. It reports an error, or the blocks asked for lie
  -- on the device and it gives exactly those that a reader sees there.
  pub blockdev_read_sync_impl-view :
      (s : BlockDev World) (dev lba count : ℕ) (has_buffer : Bool)
      → IsCoherent stored s
      → blockdev_should_cache (device s dev) ≡ true
      → let (rc, blocks, s') =
          blockdev_read_sync_impl drv
            (λ s. s)
            nested_read
            nested_write
            s
            dev
            lba
            count
            has_buffer in
        Quiet stored s s'
        × ((is_negative rc ≡ true)
            ⊎ (InBounds s dev lba count × (blocks ≡ view_from stored count s dev lba)))
  blockdev_read_sync_impl-view s dev lba count has_buffer h cached =
      let post = read_post s dev lba count has_buffer h cached in (post.0, unless _ post.1)

  -- A write to a device that is cached, in a coherent state, keeps the state coherent and writes a
  -- prefix of its blocks: a reader sees those where they belong and every other block as before. It
  -- reports an error, or the prefix is all of the blocks and they lie on the device.
  pub blockdev_write_sync_impl-view :
      (s : BlockDev World) (dev lba : ℕ) (blocks : List Block)
      → IsCoherent stored s
      → blockdev_should_cache (device s dev) ≡ true
      → let r =
          blockdev_write_sync_impl drv (λ s. s) nested_read nested_write s dev lba (some blocks) in
        Wrote stored s dev lba blocks r
        × ((is_negative r.0 ≡ true) ⊎ InBounds s dev lba (length blocks))
  blockdev_write_sync_impl-view s dev lba blocks h cached =
      let post = write_post s dev lba blocks h cached in (post.0, unless _ post.1)

  -- What was written is read back: after a write of `blocks` to a cached device, in a coherent state,
  -- a read of as many blocks from the same place gives `blocks`, unless the write or the read reports
  -- an error.
  pub read-write :
      (s : BlockDev World) (dev lba : ℕ) (blocks : List Block)
      → IsCoherent stored s
      → blockdev_should_cache (device s dev) ≡ true
      → let (wrc, s') =
          blockdev_write_sync_impl drv (λ s. s) nested_read nested_write s dev lba (some blocks) in
        let (rrc, got, s'') =
          blockdev_read_sync_impl drv
            (λ s. s)
            nested_read
            nested_write
            s'
            dev
            lba
            (length blocks)
            true in
        (is_negative wrc ≡ true) ⊎ ((is_negative rrc ≡ true) ⊎ (got ≡ blocks))
  read-write s dev lba blocks h cached =
      unless _ (λ wok. unless _ (λ rok. read_write_post s dev lba blocks h cached wok rok))

  -- A flush of a device keeps a coherent state so and changes no block that a reader sees. It reports
  -- an error, or the disk of the device holds every block as readers see it, and so does the disk of
  -- its parent, if the device is a partition for which the partition table names one.
  pub blockdev_flush_sync_impl-durable :
      (s : BlockDev World) (dev : ℕ) (parent : Option ℕ)
      → IsCoherent stored s
      → let (rc, s') = blockdev_flush_sync_impl drv s dev parent in
        Unseen stored s s'
        × ((is_negative rc ≡ true)
            ⊎ ((d l : ℕ) → IsFlushed s dev parent d → stored s'.world d l ≡ view stored s d l))
  blockdev_flush_sync_impl-durable s dev parent h =
      let post = flush_post s dev parent h in (post.0, unless _ post.1)

  -- `flush_all_slots` keeps a coherent state so and changes no block that a reader sees. It reports
  -- an error, or the disks hold every block of every device as readers see it.
  pub flush_all_slots-durable :
      (s : BlockDev World)
      → IsCoherent stored s
      → let (rc, s') = flush_all_slots drv s in
        Unseen stored s s'
        × ((is_negative rc ≡ true) ⊎ ((d l : ℕ) → stored s'.world d l ≡ view stored s d l))
  flush_all_slots-durable s h = let post = flush_all_post s h in (post.0, unless _ post.1)
