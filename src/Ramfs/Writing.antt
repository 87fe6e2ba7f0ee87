-- ===== src/Ramfs/Writing.antt =====
-- Writing a file of kernel/ramfs.c, and reading it.
use deanos.Prelude.{
  ℕ, List, Bool, ℤ, ◌≡◌, ◌+◌, ◌≤◌, pos, length, min, neg, ◌-◌, false, if◌then◌else◌, max, ◌<◌, ltb,
  get_or, ◌⊎◌, take, arith, length-take, ◌∙◌, ap, refl, inr, ◌^◌, sym, ◌%◌, if_split, ◌&&◌, leb,
  Option, some, ap₂, drop, true, length-drop, get_or-take, get_or-drop, same_list,
}
use deanos.Ramfs.{
  File, vfs_max_file, put_bytes, ramfs_write, ramfs_ensure_capacity, store_bytes, ramfs_read,
}
use deanos.Ramfs.Bytes.{
  IsStored, view, length-put_bytes, put_bytes-outside, put_bytes-inside, view-stored,
}
use deanos.Ramfs.Room.{Roomy, ramfs_ensure_capacity-MadeRoom, MadeRoom, refused, made}

-- A write of `buf` at `offset` that gave the result and the file `r`.
pub record Written (f : File) (offset : ℕ) (buf : List ℕ) (r : ℤ × File) : Type 0 where
  pub count : ℕ
  pub result : r.0 ≡ pos count
  pub as_fits : count ≡ min (length buf) (vfs_max_file - offset)
  pub stored : IsStored r.1
  pub size : r.1.size ≡ max f.size (offset + count)
  pub inside : (i : ℕ) → i < count → view r.1 (offset + i) ≡ get_or buf i 0
  pub outside : (i : ℕ) → (i < offset) ⊎ (offset + count ≤ i) → view r.1 i ≡ view f i

-- The ways in which a write can end.
pub data WriteOutcome (krealloc : ℕ → Bool) (f : File) (offset : ℕ) (buf : List ℕ)
    : ℤ × File → Type 0 where
  beyond : vfs_max_file ≤ offset → WriteOutcome krealloc f offset buf (neg 1, f)
  no_memory : (n : ℕ) → krealloc n ≡ false → WriteOutcome krealloc f offset buf (neg 1, f)
  written : (r : ℤ × File) → Written f offset buf r → WriteOutcome krealloc f offset buf r

put_bytes-IsStored :
    (f : File) (offset count size : ℕ) (bs block : List ℕ)
    → IsStored f
    → length bs ≡ count
    → Roomy f.content (offset + count) block
    → size ≡ max f.size (offset + count)
    → IsStored (record { content = put_bytes block offset bs; size = size })
put_bytes-IsStored f offset count size bs block stored bs_length roomy grew =
    let same_length = length-put_bytes block offset bs in
    record {
      covered = omega (arith, same_length, roomy.enough, roomy.longer, stored.covered);
      limited = omega (arith, same_length, roomy.limited);
      grown = rw same_length roomy.grown;
      clean = λ i h.
          put_bytes-outside block offset bs i (inr (omega (arith, bs_length)))
          ∙ roomy.same i
          ∙ stored.clean i (omega arith);
    }

put_bytes-Written :
    (f : File) (offset count size : ℕ) (buf block : List ℕ)
    → IsStored f
    → count ≡ min (length buf) (vfs_max_file - offset)
    → Roomy f.content (offset + count) block
    → size ≡ max f.size (offset + count)
    → Written f offset buf
        (pos count, record { content = put_bytes block offset (take count buf); size = size })
put_bytes-Written f offset count size buf block stored fit roomy grew =
    let bs = take count buf in
    let bs_length : length bs ≡ count = omega (arith, length-take count buf) in
    let stored' = put_bytes-IsStored f offset count size bs block stored bs_length roomy grew in
    let seen = view-stored (record { content = put_bytes block offset bs; size = size }) stored' in
    record {
      count = count;
      result = refl;
      as_fits = fit;
      stored = stored';
      size = grew;
      inside = λ i lt.
          let back : offset + i - offset ≡ i = omega arith in
          seen (offset + i)
          ∙ put_bytes-inside block offset bs (offset + i) (omega (arith, bs_length, roomy.enough))
              (omega arith) (omega (arith, bs_length))
          ∙ ap (λ (k : ℕ). get_or bs k 0) back
          ∙ get_or-take count buf i 0 lt;
      outside = λ i out.
          seen i
          ∙ put_bytes-outside block offset bs i (ground (arith, bs_length))
          ∙ roomy.same i
          ∙ sym (view-stored f stored i);
    }

store_bytes-WriteOutcome :
    (krealloc : ℕ → Bool) (f : File) (offset count end : ℕ) (buf : List ℕ) (room : Option (List ℕ))
    → IsStored f
    → count ≡ min (length buf) (vfs_max_file - offset)
    → offset + count ≡ end
    → MadeRoom krealloc f.content end room
    → WriteOutcome krealloc f offset buf (store_bytes f offset count end buf room)
unfolding store_bytes
store_bytes-WriteOutcome krealloc f offset count end buf room stored fit ends (refused n lack) =
    no_memory n lack
store_bytes-WriteOutcome krealloc f offset count end buf room stored fit ends (made block roomy) =
    written (store_bytes f offset count end buf (some block)) (
      put_bytes-Written f offset count (if ltb f.size end then end else f.size) buf block stored fit
        (rw ends roomy) (ground (arith, ends)))

-- A write of a file whose end fits 32 bits either writes as many bytes as fit below 64 KiB, so that
-- readers see them there and everything else as before, and the size covers them, or changes nothing
-- and reports an error, because the heap has no memory or the offset is not below 64 KiB.
pub ramfs_write-WriteOutcome :
    (krealloc : ℕ → Bool) (f : File) (offset : ℕ) (buf : List ℕ)
    → IsStored f
    → offset + length buf < 2 ^ 32
    → WriteOutcome krealloc f offset buf (ramfs_write krealloc f offset buf)
unfolding ramfs_write
ramfs_write-WriteOutcome krealloc f offset buf stored bound =
    let end = (offset + length buf) % 2 ^ 32 in
    let clamped = ltb vfs_max_file end in
    let size = if clamped then vfs_max_file - offset else length buf in
    let end' = if clamped then vfs_max_file else end in
    let no_wrap : end ≡ offset + length buf = omega arith in
    if_split (WriteOutcome krealloc f offset buf) (clamped && leb vfs_max_file offset)
      (λ out. beyond (ground (arith, out)))
      (λ fits.
        store_bytes-WriteOutcome krealloc f offset size end' buf
          (ramfs_ensure_capacity krealloc f.content end') stored (ground (arith, fits, no_wrap))
          (ground (arith, fits, no_wrap))
          (ramfs_ensure_capacity-MadeRoom krealloc f.content end' stored.grown stored.limited
            (ground arith)))

-- What a read gives.
pub record Seen (f : File) (offset size : ℕ) (r : ℤ × List ℕ) : Type 0 where
  pub count : ℕ
  pub up_to_end : count ≡ min size (f.size - offset)
  pub result : r.0 ≡ pos count
  pub filled : length r.1 ≡ count
  pub bytes : (i : ℕ) → i < count → get_or r.1 i 0 ≡ view f (offset + i)

-- A read gives the bytes that a reader sees, up to the end of the file.
pub ramfs_read-Seen :
    (f : File) (offset size : ℕ) → IsStored f → Seen f offset size (ramfs_read f offset size)
unfolding ramfs_read
ramfs_read-Seen f offset size stored =
    let n = if ltb (f.size - offset) size then f.size - offset else size in
    if_split (Seen f offset size) (leb f.size offset)
      (λ at_end. record {
        count = 0;
        up_to_end = ground (arith, at_end);
        result = refl;
        filled = refl;
        bytes = λ i h. absurd (omega arith);
      })
      (λ before. record {
        count = n;
        up_to_end = ground arith;
        result = refl;
        filled = ground (
          arith,
          length-take n (drop offset f.content),
          length-drop offset f.content,
          stored.covered,
        );
        bytes = λ i h.
            get_or-take n (drop offset f.content) i 0 h
            ∙ get_or-drop offset f.content i 0
            ∙ sym (view-stored f stored (offset + i));
      })

-- What is written below 64 KiB, while the heap has memory, is read back.
pub ramfs_read-ramfs_write :
    (f : File) (offset : ℕ) (buf : List ℕ)
    → IsStored f
    → offset < vfs_max_file
    → offset + length buf ≤ vfs_max_file
    → ramfs_read (ramfs_write (λ n. true) f offset buf).1 offset (length buf)
      ≡ (pos (length buf), buf)
ramfs_read-ramfs_write f offset buf stored below fits =
    read_back (ramfs_write (λ n. true) f offset buf)
      (ramfs_write-WriteOutcome (λ n. true) f offset buf stored (omega arith))
  where
    read_back :
        (r : ℤ × File)
        → WriteOutcome (λ n. true) f offset buf r
        → ramfs_read r.1 offset (length buf) ≡ (pos (length buf), buf)
    read_back r (beyond far) = absurd (omega arith)
    read_back r (no_memory n lack) = cc
    read_back _ (written r w) =
        let seen = ramfs_read-Seen r.1 offset (length buf) w.stored in
        let count : seen.count ≡ length buf = omega (arith, seen.up_to_end, w.size, w.as_fits) in
        let same =
          same_list 0 (ramfs_read r.1 offset (length buf)).1 buf (seen.filled ∙ count) (λ i h.
            seen.bytes i (omega (arith, seen.filled))
            ∙ w.inside i (omega (arith, seen.filled, w.as_fits, count))) in
        ap₂ (λ (n : ℤ) (bs : List ℕ). (n, bs)) (seen.result ∙ ap pos count) same
