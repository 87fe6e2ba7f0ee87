-- ===== src/Kheap/Live.antt =====
-- Clients of the heap of kernel/kheap.c: any sequence of calls, and of writes to the memory they gave.
use deanos.Kheap.{Heap, kheap_initialize, kmalloc, kfree, store, block_size_for, kcalloc, krealloc}
use deanos.Prelude.{
  ℕ, List, ◌≡◌, if◌then◌else◌, ◌++◌, ◌∷◌, ◌+◌, ◌==◌, false, arith, [], ◌≤◌, refl, ap, ◌<◌, true,
  ◌∙◌, Bool-cases, ◌-◌, inl, inr, ◌^◌, ◌*◌,
}
use deanos.Kheap.Blocks.{Block, total, Tiles}
use deanos.Kheap.Malloc.{MallocOutcome, exhausted, allocated, IsSound}
use deanos.Kheap.Allocate.{Split, whole, cut}
use deanos.Kheap.Held.{held, held-append, held_place}

-- A call's answer among the live pointers with the sizes that were asked for; 0 is NULL.
abbrev pub served : (p size : ℕ) → List (ℕ × ℕ) → List (ℕ × ℕ)
served p size live = if p == 0 then live else (p, size) ∷ live

-- After `krealloc` of the pointer `p` answered `r`.
abbrev pub after_resize : (r p size new_size : ℕ) → (newer older : List (ℕ × ℕ)) → List (ℕ × ℕ)
after_resize r p size new_size newer older =
    if new_size == 0
    then newer ++ older
    else if r == 0
    then newer ++ ((p, size) ∷ older)
    else (r, new_size) ∷ (newer ++ older)

-- The heap after a sequence of calls, and the live pointers with their sizes. A client gives back what is
-- live and writes where it may.
pub data Runs : Heap → List (ℕ × ℕ) → Type 0 where
  started : (s : Heap) → s.initialized ≡ false → Runs (kheap_initialize s) []
  requested :
      (s : Heap) (live : List (ℕ × ℕ)) (size : ℕ)
      → Runs s live
      → size + 16 ≤ 2 ^ 32
      → Runs (kmalloc size s).1 (served (kmalloc size s).0 size live)
  zeroed :
      (s : Heap) (live : List (ℕ × ℕ)) (nmemb size : ℕ)
      → Runs s live
      → nmemb * size + 16 ≤ 2 ^ 32
      → Runs (kcalloc nmemb size s).1 (served (kcalloc nmemb size s).0 (nmemb * size) live)
  resized :
      (s : Heap) (newer : List (ℕ × ℕ)) (p size : ℕ) (older : List (ℕ × ℕ)) (new_size : ℕ)
      → Runs s (newer ++ ((p, size) ∷ older))
      → new_size + 16 ≤ 2 ^ 32
      → Runs
          (krealloc p new_size s).1
          (after_resize (krealloc p new_size s).0 p size new_size newer older)
  returned :
      (s : Heap) (newer : List (ℕ × ℕ)) (p size : ℕ) (older : List (ℕ × ℕ))
      → Runs s (newer ++ ((p, size) ∷ older))
      → Runs (kfree p s) (newer ++ older)
  written :
      (s : Heap) (newer : List (ℕ × ℕ)) (p size : ℕ) (older : List (ℕ × ℕ)) (w value : ℕ)
      → Runs s (newer ++ ((p, size) ∷ older))
      → p ≤ w
      → w < p + size
      → Runs (record s { mem = store s.mem w value }) (newer ++ ((p, size) ∷ older))

-- How often a pointer is live, and what its sizes need with header and footer.
abbrev pub times : ℕ → List (ℕ × ℕ) → ℕ
times p [] = 0
times p (l ∷ ls) = (if l.0 == p then 1 else 0) + times p ls

abbrev pub needs : ℕ → List (ℕ × ℕ) → ℕ
needs p [] = 0
needs p (l ∷ ls) = (if l.0 == p then l.1 + 8 else 0) + needs p ls

pub times-append : (p : ℕ) (xs ys : List (ℕ × ℕ)) → times p (xs ++ ys) ≡ times p xs + times p ys
times-append p [] ys = omega arith
times-append p (x ∷ xs) ys = omega (arith, times-append p xs ys)

pub needs-append : (p : ℕ) (xs ys : List (ℕ × ℕ)) → needs p (xs ++ ys) ≡ needs p xs + needs p ys
needs-append p [] ys = omega arith
needs-append p (x ∷ xs) ys = omega (arith, needs-append p xs ys)

pub needs_gone : (p : ℕ) (xs : List (ℕ × ℕ)) → times p xs ≡ 0 → needs p xs ≡ 0
needs_gone p [] none_left = refl
needs_gone p (x ∷ xs) none_left =
    let rest = needs_gone p xs (omega (arith, none_left)) in ground (arith, rest, none_left)

-- The heap is sound, and each live pointer has a block in use of its own that is large enough.
pub record ServesAll (a e : ℕ) (s : Heap) (live : List (ℕ × ℕ)) : Type 0 where
  pub blocks : List Block
  pub sound : IsSound a e s blocks
  pub once : (p : ℕ) → times p live ≤ 1
  pub enough : (p : ℕ) → needs p live ≤ held p a blocks

-- What a block that is taken adds.
Split-held :
    (p a : ℕ) (xs : List Block) (b : Block) (zs pieces : List Block) (wanted : ℕ)
    → Split b wanted pieces
    → b.used ≡ false
    → (if a + total xs + 4 == p then wanted else 0) + held p a (xs ++ (b ∷ zs))
      ≤ held p a (xs ++ (pieces ++ zs))
Split-held p a xs b zs _ wanted (whole room small) free =
    let old = held-append p a xs (b ∷ zs) in
    let new = held-append p a xs (record { size = b.size; used = true } ∷ zs) in
    ground (arith, old, new, free, room)
Split-held p a xs b zs _ wanted (cut room) free =
    let old = held-append p a xs (b ∷ zs) in
    let new = held-append p a xs (
      record { size = wanted; used = true }
      ∷ record { size = b.size - wanted; used = false }
      ∷ zs) in
    let same : a + total xs + wanted + (b.size - wanted) ≡ a + total xs + b.size = omega arith in
    let far = ap (λ (k : ℕ). held p k zs) same in ground (arith, old, new, free, far)

module _ (a e size : ℕ) (live : List (ℕ × ℕ)) (s : Heap) (v : ServesAll a e s live) where
  pub serve_outcome :
      (r : ℕ × Heap)
      → MallocOutcome a e size v.blocks s r
      → ServesAll a e r.1 (served r.0 size live)
  serve_outcome _ (exhausted small) = v
  serve_outcome _ (allocated p s' t) =
      let some_ptr : (p == 0) ≡ false = ground (arith, t.pointer) in
      let old : Tiles s.mem a (t.before ++ (t.block ∷ t.behind)) e =
        rw (← t.parts) v.sound.valid.tiles in
      let fresh : held p a v.blocks ≡ 0 =
        ap (held p a) t.parts
        ∙ held_place s.mem p a t.before t.block t.behind e old t.pointer
        ∙ ground (arith, t.free) in
      let enough_p = v.enough p in
      rw some_ptr (record {
        blocks = t.before ++ (t.pieces ++ t.behind);
        sound = t.sound;
        once = λ q.
            let one = v.once q in
            let gone = needs_some q live in
            elim (Bool-cases (p == q)) [
              | inl same ↦
                  let e' : p ≡ q = ground (arith, same) in
                  let gone' : needs q live ≤ 0 = rw (← e') (omega (arith, enough_p, fresh)) in
                  ground (arith, gone, gone', one)
              | inr other ↦ ground (arith, other, one)
            ];
        enough = λ q.
            let more =
              Split-held q a t.before t.block t.behind t.pieces (block_size_for size) t.split
                t.free in
            let parts = ap (held q a) t.parts in
            let room = t.room in
            let was = v.enough q in
            elim (Bool-cases (p == q)) [
              | inl same ↦
                  let here : (a + total t.before + 4 == q) ≡ true =
                    ground (arith, same, t.pointer) in
                  let more' : block_size_for size + held q a (t.before ++ (t.block ∷ t.behind))
                      ≤ held q a (t.before ++ (t.pieces ++ t.behind)) =
                    rw here at more in
                  rw same (omega (arith, more', parts, room, was))
              | inr other ↦ rw other (omega (arith, more, parts, was))
            ];
      })
    where
      needs_some : (q : ℕ) (ls : List (ℕ × ℕ)) → times q ls ≤ needs q ls
      needs_some q [] = omega arith
      needs_some q (l ∷ ls) = let rest = needs_some q ls in ground (arith, rest)
