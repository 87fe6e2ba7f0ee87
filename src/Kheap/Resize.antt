-- ===== src/Kheap/Resize.antt =====
-- Clients of `kcalloc` and `krealloc` of kernel/kheap.c.
use deanos.Kheap.{kcalloc, Heap, kmalloc, blk_size, kfree, copy_words, zero_bytes, krealloc, grow}
use deanos.Prelude.{
  ℕ, ◌+◌, List, ◌≤◌, ◌*◌, ◌^◌, ◌++◌, ◌%◌, ◌∷◌, ◌≡◌, arith, ◌<◌, ◌-◌, ◌≢◌, if_split, not, ◌==◌, ◌&&◌,
  false, Bool-cases, ltb, ◌∙◌, [], ◌/◌, inl, inr, refl, true, leb,
}
use deanos.Kheap.Live.{
  ServesAll, served, times-append, needs-append, needs_gone, times, after_resize,
}
use deanos.Kheap.Clients.{
  serve_requested, payload, kfree_spares, serve_returned, serve_written, kmalloc_spares,
}
use deanos.Kheap.Held.{held}

no_overflow : (n : ℕ) → n + 16 ≤ 2 ^ 32 → n % 2 ^ 32 ≡ n
no_overflow n small = omega (arith, small)

pub serve_zeroed :
    (a e nmemb size : ℕ) (s : Heap) (live : List (ℕ × ℕ))
    → nmemb * size + 16 ≤ 2 ^ 32
    → ServesAll a e s live
    → ServesAll a e (kcalloc nmemb size s).1 (served (kcalloc nmemb size s).0 (nmemb * size) live)
unfolding kcalloc
serve_zeroed a e nmemb size s live small v =
    let n = nmemb * size in
    let r = kmalloc n s in
    let asked = serve_requested a e n s live small v in
    rw (no_overflow n small) (
      if_split (λ (r' : ℕ × Heap). ServesAll a e r'.1 (served r'.0 n live))
        (not (nmemb == 0) && ltb ((2 ^ 32 - 1) / nmemb) size) (λ guarded. v)
        (λ fine.
          if_split (λ (r' : ℕ × Heap). ServesAll a e r'.1 (served r'.0 n live)) (r.0 == 0)
            (λ failed. rw failed at asked)
            (λ given.
              let asked' : ServesAll a e r.1 ((r.0, n) ∷ live) = rw given at asked in
              rw given (
                serve_written a e r.1 [] r.0 n live asked' (zero_bytes r.0 n r.1.mem)
                  (λ w out. ground (arith, out))))))

module _ (a e : ℕ) (s : Heap) (newer : List (ℕ × ℕ)) (p size : ℕ) (older : List (ℕ × ℕ))
    (v : ServesAll a e s (newer ++ ((p, size) ∷ older))) (new_size : ℕ)
    (small : new_size + 16 ≤ 2 ^ 32) where
  old_payload : ℕ
  old_payload = blk_size s.mem (p - 4) - 8

  -- The pointer stays when the block is large enough.
  kept_place : new_size ≤ old_payload → ServesAll a e s ((p, new_size) ∷ (newer ++ older))
  unfolding old_payload
  kept_place fits_in =
      let room = payload a e s newer p size older v in
      record {
        blocks = v.blocks;
        sound = v.sound;
        once = λ q.
            omega (
              arith,
              v.once q,
              times-append q newer ((p, size) ∷ older),
              times-append q newer older,
            );
        enough = λ q.
            let one = v.once q in
            let was = v.enough q in
            let whole = times-append q newer ((p, size) ∷ older) in
            let rest = times-append q newer older in
            let needs_whole = needs-append q newer ((p, size) ∷ older) in
            let needs_rest = needs-append q newer older in
            let gone = needs_gone q (newer ++ older) in
            elim (Bool-cases (p == q)) [
              | inl same ↦
                  let e' : p ≡ q = ground (arith, same) in
                  let none_left : times q (newer ++ older) ≡ 0 =
                    ground (arith, same, one, whole, rest) in
                  let room' : new_size + 8 ≤ held p a v.blocks =
                    omega (arith, fits_in, room.1, room.2) in
                  let room_q : new_size + 8 ≤ held q a v.blocks = rw (← e') room' in
                  rw same (omega (arith, gone none_left, room_q))
              | inr other ↦ ground (arith, other, was, needs_whole, needs_rest)
            ];
      }

  -- What `grow` copies to, a new block that is larger.
  module _ (large : old_payload < new_size) (given : (kmalloc new_size s).0 ≢ 0) where
    copied : Heap
    copied = let r = kmalloc new_size s in record r.1 { mem = copy_words r.0 p old_payload r.1.mem }

    copied-ServesAll :
        ServesAll a e copied (((kmalloc new_size s).0, new_size) ∷ (newer ++ ((p, size) ∷ older)))
    unfolding copied
    copied-ServesAll =
        let r = kmalloc new_size s in
        let live = newer ++ ((p, size) ∷ older) in
        let asked = serve_requested a e new_size s live small v in
        let given' : (r.0 == 0) ≡ false = ground (arith, given) in
        let asked' : ServesAll a e r.1 ((r.0, new_size) ∷ live) = rw given' at asked in
        serve_written a e r.1 [] r.0 new_size live asked' (copy_words r.0 p old_payload r.1.mem)
          (λ w out. ground (arith, out, large))

    moved-ServesAll :
        ServesAll a e (kfree p copied) (((kmalloc new_size s).0, new_size) ∷ (newer ++ older))
    moved-ServesAll =
        serve_returned a e copied (((kmalloc new_size s).0, new_size) ∷ newer) p size older
          copied-ServesAll

    -- The start of the old block is in the new one.
    moved_content :
        (w : ℕ) → w < size → (kfree p copied).mem ((kmalloc new_size s).0 + w) ≡ s.mem (p + w)
    unfolding copied old_payload
    moved_content w lt =
        let r = kmalloc new_size s in
        let live = newer ++ ((p, size) ∷ older) in
        let room = payload a e s newer p size older v in
        let within : w < old_payload = omega (arith, room.1, room.2) in
        let is_w : p + (r.0 + w - r.0) ≡ p + w = omega arith in
        let is_copy : copied.mem (r.0 + w) ≡ r.1.mem (p + w) = ground (arith, within, is_w) in
        kfree_spares a e copied ((r.0, new_size) ∷ newer) p size older copied-ServesAll r.0 new_size
          (r.0 + w) (ground arith) (omega arith) (omega (arith, within, large))
        ∙ is_copy
        ∙ kmalloc_spares a e new_size s live p size (p + w) small v
            (ground (arith, needs-append p newer ((p, size) ∷ older))) (omega arith)
            (omega (arith, lt))

  given_outcome :
      (P : ℕ × Heap → Type 0)
      → (new_size ≡ 0 → P (0, kfree p s))
      → (new_size ≢ 0 → new_size ≤ old_payload → P (p, s))
      → (new_size ≢ 0 → (kmalloc new_size s).0 ≡ 0 → P (0, (kmalloc new_size s).1))
      → ((large : old_payload < new_size) (given : (kmalloc new_size s).0 ≢ 0)
          → P ((kmalloc new_size s).0, kfree p (copied large given)))
      → P (krealloc p new_size s)
  unfolding krealloc grow copied old_payload
  given_outcome P freeing staying failing moving =
      let room = payload a e s newer p size older v in
      let some_ptr : (p == 0) ≡ false = ground (arith, room.0) in
      let r = kmalloc new_size s in
      rw some_ptr (
        if_split P (new_size == 0) (λ nothing. freeing (ground (arith, nothing)))
          (λ more.
            if_split P (leb new_size old_payload)
              (λ enough. staying (ground (arith, more)) (ground (arith, enough)))
              (λ large.
                if_split P (r.0 == 0)
                  (λ failed. failing (ground (arith, more)) (ground (arith, failed)))
                  (λ given. moving (ground (arith, large)) (ground (arith, given))))))

  pub serve_resized :
      ServesAll a e
        (krealloc p new_size s).1
        (after_resize (krealloc p new_size s).0 p size new_size newer older)
  serve_resized =
      let live = newer ++ ((p, size) ∷ older) in
      let r = kmalloc new_size s in
      let room = payload a e s newer p size older v in
      let asked = serve_requested a e new_size s live small v in
      given_outcome (λ r'. ServesAll a e r'.1 (after_resize r'.0 p size new_size newer older))
        (λ nothing.
          let is_zero : (new_size == 0) ≡ true = ground (arith, nothing) in
          rw is_zero (serve_returned a e s newer p size older v))
        (λ more fits_in.
          let positive : (new_size == 0) ≡ false = ground (arith, more) in
          let some_ptr : (p == 0) ≡ false = ground (arith, room.0) in
          rw (positive, some_ptr) (kept_place fits_in))
        (λ more failed.
          let positive : (new_size == 0) ≡ false = ground (arith, more) in
          let failed' : (r.0 == 0) ≡ true = ground (arith, failed) in
          rw positive (rw failed' at asked))
        (λ large given.
          let positive : (new_size == 0) ≡ false = ground (arith, large) in
          let given' : (r.0 == 0) ≡ false = ground (arith, given) in
          rw (positive, given') (moved-ServesAll large given))

  pub krealloc_content :
      (w : ℕ)
      → w < size
      → (krealloc p new_size s).0 ≢ 0
      → (krealloc p new_size s).1.mem ((krealloc p new_size s).0 + w) ≡ s.mem (p + w)
  krealloc_content w lt =
      given_outcome (λ r'. r'.0 ≢ 0 → r'.1.mem (r'.0 + w) ≡ s.mem (p + w))
        (λ nothing some_ptr. absurd (some_ptr refl)) (λ more fits_in some_ptr. refl)
        (λ more failed some_ptr. absurd (some_ptr refl))
        (λ large given some_ptr. moved_content large given w lt)
