-- ===== src/Pmm/Boot/Loading.antt =====
-- The second pass of `pmm_initialize` in kernel/pmm.c: its invariant, and which frames each step frees.

use deanos.Prelude.{
  ℕ, ◌+◌, ◌/◌, ◌<◌, ◌≤◌, ◌≡◌, ap, ◌∙◌, false, List, arith, if◌then◌else◌, ◌==◌, inl, inr,
  Bool-cases, length, get_or, set, length-set, get_or-set_self, get_or-set_ne, get_or-out, subst,
  refl, suc, ◌^◌, ◌*◌, true, ◌%◌, ◌∷◌, zero, ltb, ◌⊎◌, [], leb, ◌-◌, ◌&&◌,
}
use native.Mathlib.Decide.{ℕ_discrete, dec_lt, dec_le}
use deanos.Pmm.{Pmm, bit_tst, bit_clr_in, release_frame}
use deanos.Pmm.Bitmap.{
  count_free, length-bit_clr_in, bit_tst-bit_clr_in_self, bit_tst-bit_clr_in_ne,
  count_free-bit_clr_in, count_free-le,
}
use deanos.Pmm.Invariant.{max_frames}
use deanos.Pmm.Boot.{
  free_frames_from, bitmap_free_range, MmapEntry, is_available, align_up, free_entries, free_entry,
}

-- What holds while the map is read: the reference counts are still 0.
pub record Booting (s : Pmm) : Type 0 where
  pub small : s.bits ≤ max_frames
  pub words : length s.bitmap ≡ (s.bits + 31) / 32
  pub counts : length s.refcounts ≡ s.bits
  pub tally : s.free_frames ≡ count_free s.bitmap s.bits
  pub zeros : (i : ℕ) → get_or s.refcounts i 0 ≡ 0

set-zero-zeros :
    (xs : List ℕ) (f : ℕ) → ((i : ℕ) → get_or xs i 0 ≡ 0) → (i : ℕ) → get_or (set xs f 0) i 0 ≡ 0
set-zero-zeros xs f z i = elim (ℕ_discrete f i) [
  | no ne ↦ get_or-set_ne xs f i 0 0 ne ∙ z i
  | yes e ↦ elim (dec_lt f (length xs)) [
    | yes p ↦ rw (← e) (get_or-set_self xs f 0 0 p)
    | no p ↦ rw (← e) (get_or-out (set xs f 0) f 0 (omega (arith, length-set xs f 0)))
  ]
]

release_frame-Booting : (s : Pmm) (f : ℕ) → f < s.bits → Booting s → Booting (release_frame s f)
unfolding release_frame
release_frame-Booting s f h b = elim (Bool-cases (bit_tst s.bitmap f)) [
  | inr free ↦ rw free b
  | inl used ↦
      let more = count_free-bit_clr_in s.bitmap f s.bits (omega (arith, b.words)) h used in
      rw used (record {
        small = b.small;
        words = length-bit_clr_in s.bitmap f ∙ b.words;
        counts = length-set s.refcounts f 0 ∙ b.counts;
        tally = omega (arith, b.tally, more, b.small, count_free-le (bit_clr_in s.bitmap f) s.bits);
        zeros = set-zero-zeros s.refcounts f b.zeros;
      })
]

bits-release_frame : (s : Pmm) (f : ℕ) → (release_frame s f).bits ≡ s.bits
unfolding release_frame
bits-release_frame s f = ground arith

-- After a release that frame is free, and the others are as before.
bit_tst-release_frame :
    (s : Pmm) (f j : ℕ)
    → f < s.bits
    → Booting s
    → bit_tst (release_frame s f).bitmap j ≡ (if f == j then false else bit_tst s.bitmap j)
unfolding release_frame
bit_tst-release_frame s f j h b = elim (Bool-cases (bit_tst s.bitmap f)) [
  | inr free ↦ rw free (ground (arith, ap (λ (k : ℕ). bit_tst s.bitmap k) {x = f} {y = j}))
  | inl used ↦ elim (ℕ_discrete f j) [
    | yes e ↦
        rw (used, ← e) (ground (arith, bit_tst-bit_clr_in_self s.bitmap f (omega (arith, b.words))))
    | no ne ↦
        rw used (ground (arith, bit_tst-bit_clr_in_ne s.bitmap f (omega (arith, b.words)) j ne))
  ]
]

-- Every free frame has the property `P`.
abbrev pub FreeOnly : (ℕ → Type 0) → Pmm → Type 0
FreeOnly P s = (f : ℕ) → f < s.bits → bit_tst s.bitmap f ≡ false → P f

-- A step of the pass: the invariant is kept, the number of frames too, and no free frame is taken.
pub record Loads (s t : Pmm) : Type 0 where
  pub booting : Booting t
  pub same_bits : t.bits ≡ s.bits
  pub keeps : (f : ℕ) → bit_tst s.bitmap f ≡ false → bit_tst t.bitmap f ≡ false

pub Loads-refl : (s : Pmm) → Booting s → Loads s s
Loads-refl s b = record { booting = b; same_bits = refl; keeps = λ f h. h }

pub Loads-trans : {s t u : Pmm} → Loads s t → Loads t u → Loads s u
Loads-trans p q = record {
  booting = q.booting;
  same_bits = q.same_bits ∙ p.same_bits;
  keeps = λ f h. q.keeps f (p.keeps f h);
}

release_frame-Loads : (s : Pmm) (f : ℕ) → f < s.bits → Booting s → Loads s (release_frame s f)
release_frame-Loads s f h b = record {
  booting = release_frame-Booting s f h b;
  same_bits = bits-release_frame s f;
  keeps = λ j free. ground (arith, bit_tst-release_frame s f j h b);
}

release_frame-FreeOnly :
    (P : ℕ → Type 0) (s : Pmm) (f : ℕ)
    → f < s.bits
    → Booting s
    → P f
    → FreeOnly P s
    → FreeOnly P (release_frame s f)
release_frame-FreeOnly P s f h b p only j hj free = elim (ℕ_discrete f j) [
  | yes e ↦ subst P e p
  | no ne ↦
      only j (omega (arith, bits-release_frame s f))
        (ground (arith, bit_tst-release_frame s f j h b))
]

module _ (P : ℕ → Type 0) where
  -- The loop of `bitmap_free_range` over the `n` frames from `f` on: all of those are free then,
  -- and no others that were not.
  free_frames_from-Loads :
      (n f : ℕ) (s : Pmm)
      → f + n ≤ s.bits
      → Booting s
      → FreeOnly P s
      → ((j : ℕ) → f ≤ j → j < f + n → P j)
      → Loads s (free_frames_from n f s)
        × FreeOnly P (free_frames_from n f s)
        × ((j : ℕ) → f ≤ j → j < f + n → bit_tst (free_frames_from n f s).bitmap j ≡ false)
  unfolding free_frames_from
  free_frames_from-Loads zero f s h b only all =
      (Loads-refl s b, only, (λ j lo hi. absurd (omega arith)))
  free_frames_from-Loads (suc n) f s h b only all =
      let one = release_frame-Loads s f (omega arith) b in
      let rest =
        free_frames_from-Loads n (f + 1) (release_frame s f) (omega (arith, bits-release_frame s f))
          one.booting
          (release_frame-FreeOnly P s f (omega arith) b (all f (omega arith) (omega arith)) only)
          (λ j lo hi. all j (omega arith) (omega arith)) in
      (
        Loads-trans one (rest.0),
        rest.1,
        (λ j lo hi. elim (ℕ_discrete f j) [
          | yes e ↦ (rest.0).keeps j (ground (arith, bit_tst-release_frame s f j (omega arith) b))
          | no ne ↦ rest.2 j (omega arith) (omega arith)
        ]),
      )

-- Frame `f` lies wholly in an available region of the map and at or above `reserved_end`.
abbrev pub Covers : ℕ → MmapEntry → ℕ → Type 0
Covers reserved_end e f =
    (is_available e ≡ true)
    × (reserved_end ≤ f * 4096)
    × (e.addr ≤ f * 4096)
    × ((f + 1) * 4096 ≤ e.addr + e.len)

abbrev pub SomeCovers : ℕ → List MmapEntry → ℕ → Type 0
SomeCovers reserved_end [] f = ⊥
SomeCovers reserved_end (e ∷ es) f = Covers reserved_end e f ⊎ SomeCovers reserved_end es f

-- Each available region ends below 2^32, where the code's addresses end, and none starts in the last page
-- below that, where rounding its start up to a page would wrap round to 0.
abbrev pub LiesBelowTop : List MmapEntry → Type 0
LiesBelowTop [] = Unit {0}
LiesBelowTop (e ∷ es) =
    ((is_available e ≡ true) → (e.addr ≤ 0xffff_f000) × (e.addr + e.len < 2 ^ 32)) × LiesBelowTop es

module _ (P : ℕ → Type 0) (reserved_end : ℕ) (low : reserved_end ≤ 0xffff_f000) where
  -- What a step does for the entry `e`: it frees covered frames only, and all of those.
  abbrev pub Frees : (ℕ → Type 0) → Pmm → Pmm → Type 0
  Frees Q s t = Loads s t × FreeOnly P t × ((f : ℕ) → f < s.bits → Q f → bit_tst t.bitmap f ≡ false)

  range-Frees :
      (s : Pmm) (start stop : ℕ)
      → Booting s
      → FreeOnly P s
      → start ≤ 0xffff_f000
      → stop < 2 ^ 32
      → start < stop
      → ((f : ℕ) → start ≤ f * 4096 → (f + 1) * 4096 ≤ stop → P f)
      → Frees (λ f. (start ≤ f * 4096) × ((f + 1) * 4096 ≤ stop)) s (bitmap_free_range s start stop)
  unfolding bitmap_free_range
  range-Frees s start stop b only hs ht lt all =
      let first = align_up start 4096 / 4096 % 2 ^ 32 in
      let last = stop / 4096 % 2 ^ 32 in
      let last' = if ltb s.bits last then s.bits else last in
      let open_range : leb stop start ≡ false = ground arith in
      rw open_range (elim (dec_le first last') [
        | yes p ↦
            let loop =
              free_frames_from-Loads P (last' - first) first s (ground arith) b only
                (λ j lo hi. all j (omega arith) (ground arith)) in
            (loop.0, loop.1, (λ f hf q. loop.2 f (ground arith) (ground arith)))
        | no np ↦
            let none_left : last' - first ≡ 0 = omega arith in
            rw none_left (Loads-refl s b, only, (λ f hf q. absurd (ground arith)))
      ])

  -- The bounds that `free_entry` gives to `bitmap_free_range` cover what `Covers` says.
  free_entry-Frees :
      (s : Pmm) (e : MmapEntry)
      → Booting s
      → FreeOnly P s
      → ((is_available e ≡ true) → (e.addr ≤ 0xffff_f000) × (e.addr + e.len < 2 ^ 32))
      → ((f : ℕ) → Covers reserved_end e f → P f)
      → Frees (Covers reserved_end e) s (free_entry reserved_end e s)
  unfolding free_entry
  free_entry-Frees s e b only high all =
      let lo = e.addr % 2 ^ 32 in
      let t = (e.addr + e.len) % 2 ^ 64 % 2 ^ 32 in
      let fs = if ltb lo reserved_end then reserved_end else lo in
      elim (Bool-cases (is_available e)) [
        | inr no_ram ↦ rw no_ram (Loads-refl s b, only, (λ f hf q. let qa = q.0 in cc))
        | inl ram ↦ elim (Bool-cases (ltb reserved_end t && ltb fs t)) [
          | inr empty ↦ rw (ram, empty) (Loads-refl s b, only, (λ f hf q. ground arith))
          | inl some_range ↦
              let h = high ram in
              let is_lo : lo ≡ e.addr = omega (arith, h) in
              let is_t : t ≡ e.addr + e.len = omega (arith, h) in
              let freed =
                range-Frees s fs t b only (ground arith) (omega arith) (ground arith) (λ f x y.
                  all f (ram, ground arith, ground (arith, is_lo, x), omega (arith, y, is_t))) in
              rw (ram, some_range)
                (
                  freed.0,
                  freed.1,
                  (λ f hf q.
                      freed.2 f hf (ground (arith, is_lo, q.1, q.2), omega (arith, q.3, is_t))),
                )
        ]
      ]

  pub free_entries-Frees :
      (es : List MmapEntry) (s : Pmm)
      → Booting s
      → FreeOnly P s
      → LiesBelowTop es
      → ((f : ℕ) → SomeCovers reserved_end es f → P f)
      → Frees (SomeCovers reserved_end es) s (free_entries reserved_end es s)
  unfolding free_entries
  free_entries-Frees [] s b only high all = (Loads-refl s b, only, (λ f hf q. absurd q))
  free_entries-Frees (e ∷ es) s b only high all =
      let one = free_entry-Frees s e b only high.0 (λ f q. all f (inl q)) in
      let rest =
        free_entries-Frees es (free_entry reserved_end e s) (one.0).booting (one.1) high.1
          (λ f q. all f (inr q)) in
      (
        Loads-trans (one.0) (rest.0),
        rest.1,
        (λ f hf q. elim q [
          | inl here ↦ (rest.0).keeps f (one.2 f hf here)
          | inr later ↦ rest.2 f (omega (arith, (one.0).same_bits)) later
        ]),
      )
