-- ===== src/BlockDev/Executing.antt =====
-- Executing requests for cached disks, and flushes, as the queue of kernel/blockdev.c has it done: they
-- leave the queue alone.
use deanos.BlockDev.{
  BlockDev, Driver, Block, device, blockdev_should_cache, Device, no_device, cache_entries,
}
use deanos.BlockDev.Queue.{Queue, Request}
use deanos.BlockDev.Queue.Settle.{Executor}
use deanos.BlockDev.Requests.{
  blockdev_execute_request, req_read, req_write, req_flush, has_buffer, first_blocks,
}
use deanos.Prelude.{
  ℕ, Bool, Option, ℤ, List, neg, [], ◌≡◌, true, Bool-cases, some, leb, length, ◌||◌, ◌==◌, not, inl,
  inr, ltb, ◌-◌, refl, none, ap, both_branches, get_or, ◌∙◌, if◌then◌else◌, arith,
}
use deanos.BlockDev.Sync.{
  blockdev_read_sync_impl, blockdev_write_sync_impl, blockdev_flush_sync_impl,
}
use deanos.BlockDev.Devices.{read_blocks-devs, write_blocks-devs, flush_slots-devs}

module _ {World : Type 0} (drv : Driver World) where
  -- Nothing is asked of a driver beside the calls for the cache.
  abbrev pub no_read : BlockDev World → (dev lba count : ℕ) → ℤ × List Block × BlockDev World
  no_read s dev lba count = (neg 1, [], s)

  abbrev pub no_write : BlockDev World → (dev lba : ℕ) → List Block → ℤ × BlockDev World
  no_write s dev lba blocks = (neg 1, s)

  abbrev pub cached_read :
      BlockDev World → (dev lba count : ℕ) → Bool → ℤ × List Block × BlockDev World
  cached_read = blockdev_read_sync_impl drv (λ s. s) no_read no_write

  abbrev pub cached_write :
      BlockDev World → (dev lba : ℕ) → Option (List Block) → ℤ × BlockDev World
  cached_write = blockdev_write_sync_impl drv (λ s. s) no_read no_write

  module _ {S : Type 0} (keep : BlockDev World → S)
      (nested_read : BlockDev World → (dev lba count : ℕ) → ℤ × List Block × S)
      (nested_write : BlockDev World → (dev lba : ℕ) → List Block → ℤ × S) where
    read-keep :
        (s : BlockDev World) (dev lba count : ℕ) (has_buffer : Bool)
        → blockdev_should_cache (device s dev) ≡ true
        → let r = cached_read s dev lba count has_buffer in
          blockdev_read_sync_impl drv keep nested_read nested_write s dev lba count has_buffer
          ≡ (r.0, r.1, keep r.2)
    unfolding blockdev_read_sync_impl
    read-keep s dev lba count has_buffer cached =
        let d = device s dev in
        elim (Bool-cases (leb (length s.devs) dev || not has_buffer || count == 0)) [
          | inl bad ↦ rw bad refl
          | inr args ↦ elim (Bool-cases d.has_read) [
            | inr no_read ↦ rw (args, no_read) refl
            | inl can ↦ elim (Bool-cases (leb d.block_count lba)) [
              | inl past ↦ rw (args, can, past) refl
              | inr inside ↦ elim (Bool-cases (ltb (d.block_count - lba) count)) [
                | inl long ↦ rw (args, can, inside, long) refl
                | inr fits ↦ rw (args, can, inside, fits, cached) refl
              ]
            ]
          ]
        ]

    write-keep :
        (s : BlockDev World) (dev lba : ℕ) (blocks : Option (List Block))
        → blockdev_should_cache (device s dev) ≡ true
        → let r = cached_write s dev lba blocks in
          blockdev_write_sync_impl drv keep nested_read nested_write s dev lba blocks
          ≡ (r.0, keep r.1)
    unfolding blockdev_write_sync_impl
    write-keep s dev lba none cached = refl
    write-keep s dev lba (some blocks) cached =
        let d = device s dev in
        elim (Bool-cases (leb (length s.devs) dev || length blocks == 0)) [
          | inl bad ↦ rw bad refl
          | inr args ↦ elim (Bool-cases d.has_write) [
            | inr no_write ↦ rw (args, no_write) refl
            | inl can ↦ elim (Bool-cases d.readonly) [
              | inl ro ↦ rw (args, can, ro) refl
              | inr wr ↦ elim (Bool-cases (leb d.block_count lba)) [
                | inl past ↦ rw (args, can, wr, past) refl
                | inr inside ↦ elim (Bool-cases (ltb (d.block_count - lba) (length blocks))) [
                  | inl long ↦ rw (args, can, wr, inside, long) refl
                  | inr fits ↦ rw (args, can, wr, inside, fits, cached) refl
                ]
              ]
            ]
          ]
        ]

  read-devs :
      (s : BlockDev World) (dev lba count : ℕ) (has_buffer : Bool)
      → (cached_read s dev lba count has_buffer).2.devs ≡ s.devs
  unfolding blockdev_read_sync_impl
  read-devs s dev lba count has_buffer =
      let P : ℤ × List Block × BlockDev World → Type 0 = λ r. r.2.devs ≡ s.devs in
      let d = device s dev in
      both_branches P (leb (length s.devs) dev || not has_buffer || count == 0) refl (
        both_branches P (not d.has_read) refl (
          both_branches P (leb d.block_count lba) refl (
            both_branches P (ltb (d.block_count - lba) count) refl (
              both_branches P (not (blockdev_should_cache d)) refl
                (read_blocks-devs drv count s dev lba)))))

  write-devs :
      (s : BlockDev World) (dev lba : ℕ) (blocks : Option (List Block))
      → (cached_write s dev lba blocks).1.devs ≡ s.devs
  unfolding blockdev_write_sync_impl
  write-devs s dev lba none = refl
  write-devs s dev lba (some blocks) =
      let P : ℤ × BlockDev World → Type 0 = λ r. r.1.devs ≡ s.devs in
      let d = device s dev in
      both_branches P (leb (length s.devs) dev || length blocks == 0) refl (
        both_branches P (not d.has_write) refl (
          both_branches P d.readonly refl (
            both_branches P (leb d.block_count lba) refl (
              both_branches P (ltb (d.block_count - lba) (length blocks)) refl (
                both_branches P (not (blockdev_should_cache d)) refl
                  (write_blocks-devs drv blocks s dev lba))))))

  flush-devs :
      (s : BlockDev World) (dev : ℕ) (parent : Option ℕ)
      → (blockdev_flush_sync_impl drv s dev parent).1.devs ≡ s.devs
  unfolding blockdev_flush_sync_impl
  flush-devs s dev parent =
      let P : ℤ × BlockDev World → Type 0 = λ r. r.1.devs ≡ s.devs in
      both_branches P (leb (length s.devs) dev) refl (flush_slots-devs drv _ cache_entries 0 s)

  -- The requests for cached disks, and each flush.
  abbrev pub is_direct : BlockDev World → Request → Bool
  is_direct s req = blockdev_should_cache (device s req.dev_index) || req.op == req_flush

  module _ (parent_of : ℕ → Option ℕ) where
    -- What executing such a request does to devices and cache.
    unfoldable pub serve : BlockDev World → Request → ℤ × List Block × BlockDev World
    serve s req =
        let (wrc, ws) = cached_write s req.dev_index req.lba (first_blocks req.count req.buffer) in
        let (frc, fs) = blockdev_flush_sync_impl drv s req.dev_index (parent_of req.dev_index) in
        if req.op == req_read
        then cached_read s req.dev_index req.lba req.count (has_buffer req.buffer)
        else if req.op == req_write
        then (wrc, [], ws)
        else if req.op == req_flush
        then (frc, [], fs)
        else (neg 1, [], s)

    pub serve-devs : (s : BlockDev World) (req : Request) → (serve s req).2.devs ≡ s.devs
    unfolding serve
    serve-devs s req =
        let P : ℤ × List Block × BlockDev World → Type 0 = λ r. r.2.devs ≡ s.devs in
        both_branches P (req.op == req_read)
          (read-devs s req.dev_index req.lba req.count (has_buffer req.buffer))
          (both_branches P (req.op == req_write)
            (write-devs s req.dev_index req.lba (first_blocks req.count req.buffer))
            (both_branches P (req.op == req_flush)
              (flush-devs s req.dev_index (parent_of req.dev_index)) refl))

    module _
        (nested_read : Queue (BlockDev World)
          → (dev lba count : ℕ) → ℤ × List Block × Queue (BlockDev World))
        (nested_write : Queue (BlockDev World)
          → (dev lba : ℕ) → List Block
          → ℤ × Queue (BlockDev World)) where
      pub execute-serve :
          (q : Queue (BlockDev World)) (req : Request)
          → is_direct q.inner req ≡ true
          → let r = serve q.inner req in
            blockdev_execute_request drv nested_read nested_write parent_of q req
            ≡ (r.0, r.1, record q { inner = r.2 })
      unfolding blockdev_execute_request serve
      execute-serve q req d =
          let keep = λ (s : BlockDev World). record q { inner = s } in
          let read = λ (s : BlockDev World). nested_read (keep s) in
          let write = λ (s : BlockDev World). nested_write (keep s) in
          let s = q.inner in
          let with_no_blocks : ℤ × Queue (BlockDev World)
              → ℤ × List Block × Queue (BlockDev World) =
            λ r. (r.0, [], r.1) in
          elim (Bool-cases (req.op == req_read)) [
            | inl e ↦
                let cached : blockdev_should_cache (device s req.dev_index) ≡ true = ground arith in
                rw (blockdev_execute_request, serve, e)
                  (read-keep keep read write s req.dev_index req.lba req.count
                    (has_buffer req.buffer) cached)
            | inr e ↦ elim (Bool-cases (req.op == req_write)) [
              | inl e' ↦
                  let cached : blockdev_should_cache (device s req.dev_index) ≡ true =
                    ground arith in
                  rw (blockdev_execute_request, serve, e, e')
                    (ap with_no_blocks (
                      write-keep keep read write s req.dev_index req.lba
                        (first_blocks req.count req.buffer) cached))
              | inr e' ↦ elim (Bool-cases (req.op == req_flush)) [
                | inl e'' ↦ rw (blockdev_execute_request, serve, e, e', e'') refl
                | inr e'' ↦ rw (blockdev_execute_request, serve, e, e', e'') refl
              ]
            ]
          ]

      abbrev pub disk_requests : Executor (BlockDev World)
      disk_requests = record {
        call = blockdev_execute_request drv nested_read nested_write parent_of;
        direct = is_direct;
        run = serve;
        stays = execute-serve;
        still_direct = λ s req other d d'.
            ap
              (λ (ds : List Device).
                blockdev_should_cache (get_or ds other.dev_index no_device)
                || other.op == req_flush)
              (serve-devs s req)
            ∙ d';
      }
