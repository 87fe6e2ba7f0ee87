-- ===== src/Pmm/Refcount.antt =====
-- The reference counts of kernel/pmm.c: what each operation does to the count of every frame.
use deanos.Prelude.{
  ℕ, ◌+◌, ◌-◌, ◌≤◌, ◌≡◌, ap, ◌∙◌, sym, true, false, List, arith, if◌then◌else◌, ◌==◌, leb, ltb, inl,
  inr, Bool-cases, length, get_or, set, get_or-set_self, get_or-set_ne, set-get_or, get_or-out,
  set-out,
}
use native.Mathlib.Decide.{ℕ_discrete, dec_lt}
use deanos.Pmm.{
  Pmm, bit_tst, release_frame, phys_free_frame, pmm_frame_ref, pmm_frame_unref, pmm_frame_refcount,
  addr_to_frame, frame_valid,
}
use deanos.Pmm.Invariant.{IsValid, frame_valid-lt, pmm_frame_ref-IsValid, pmm_frame_unref-IsValid}
use deanos.Pmm.Alloc.{frame_valid_of_lt}

-- A count after one more reference: a frame not in use stays so, and the count stops at 0xffff.
abbrev pub counted_up : ℕ → ℕ
counted_up c = if c == 0 then 0 else if c == 0xffff then c else c + 1

module _ (s : Pmm) (v : IsValid s) where
  -- The entry of a frame that is out of range or free is 0.
  entry_of_invalid : (f : ℕ) → frame_valid s f ≡ false → get_or s.refcounts f 0 ≡ 0
  entry_of_invalid f bad = elim (dec_lt f s.bits) [
    | yes p ↦ let good = frame_valid_of_lt s f v p in cc
    | no p ↦ get_or-out s.refcounts f 0 (omega (arith, v.counts))
  ]

  entry_of_free :
      (f : ℕ) → frame_valid s f ≡ true → bit_tst s.bitmap f ≡ false → get_or s.refcounts f 0 ≡ 0
  entry_of_free f good free = (v.fits f (frame_valid-lt s f good)).2 free

  -- A frame's count lowered by one where it is 0 changes nothing.
  set-pred-zero :
      (f : ℕ)
      → get_or s.refcounts f 0 ≡ 0
      → s.refcounts ≡ set s.refcounts f (get_or s.refcounts f 0 - 1)
  set-pred-zero f e =
      let same : get_or s.refcounts f 0 - 1 ≡ get_or s.refcounts f 0 = omega arith in
      sym (ap (λ (c : ℕ). set s.refcounts f c) same ∙ set-get_or s.refcounts f 0)

  -- The reference count of an address is the entry of its frame, in range or not.
  pub refcount-entry : (a : ℕ) → pmm_frame_refcount s a ≡ get_or s.refcounts (addr_to_frame a) 0
  unfolding pmm_frame_refcount
  refcount-entry a = elim (Bool-cases (frame_valid s (addr_to_frame a))) [
    | inr bad ↦ rw bad (sym (entry_of_invalid (addr_to_frame a) bad))
    | inl good ↦ elim (Bool-cases (bit_tst s.bitmap (addr_to_frame a))) [
      | inl used ↦ rw (good, used)
      | inr free ↦ rw (good, free) (sym (entry_of_free (addr_to_frame a) good free))
    ]
  ]

  free-refcounts : (a : ℕ) → (phys_free_frame s a).refcounts ≡ set s.refcounts (addr_to_frame a) 0
  unfolding phys_free_frame release_frame
  free-refcounts a = elim (Bool-cases (leb s.bits (addr_to_frame a))) [
    | inl out ↦ rw out (sym (set-out s.refcounts (addr_to_frame a) 0 (ground (arith, v.counts))))
    | inr in_range ↦ elim (Bool-cases (bit_tst s.bitmap (addr_to_frame a))) [
      | inl used ↦ rw (in_range, used)
      | inr free ↦
          let none_left = (v.fits (addr_to_frame a) (ground arith)).2 free in
          rw (in_range, free)
            (sym (
              ap (λ (c : ℕ). set s.refcounts (addr_to_frame a) c) (sym none_left)
              ∙ set-get_or s.refcounts (addr_to_frame a) 0))
    ]
  ]

  unref-refcounts :
      (a : ℕ)
      → (pmm_frame_unref s a).refcounts
        ≡ set s.refcounts (addr_to_frame a) (get_or s.refcounts (addr_to_frame a) 0 - 1)
  unfolding pmm_frame_unref
  unref-refcounts a = elim (Bool-cases (frame_valid s (addr_to_frame a))) [
    | inr bad ↦ rw bad (set-pred-zero (addr_to_frame a) (entry_of_invalid (addr_to_frame a) bad))
    | inl good ↦ elim (Bool-cases (bit_tst s.bitmap (addr_to_frame a))) [
      | inr free ↦
          rw (good, free)
            (set-pred-zero (addr_to_frame a) (entry_of_free (addr_to_frame a) good free))
      | inl used ↦ elim (Bool-cases (ltb 1 (get_or s.refcounts (addr_to_frame a) 0))) [
        | inr last ↦
            rw (good, used, last)
              (free-refcounts a
                ∙ ap (λ (c : ℕ). set s.refcounts (addr_to_frame a) c) (ground arith))
        | inl shared ↦ rw (good, used, shared)
      ]
    ]
  ]

  -- What `pmm_frame_ref` makes of a count: one more, but 0 for a frame not in use and at most
  -- 0xffff.
  ref-refcounts :
      (a : ℕ)
      → (pmm_frame_ref s a).refcounts
        ≡ set s.refcounts (addr_to_frame a) (counted_up (get_or s.refcounts (addr_to_frame a) 0))
  unfolding pmm_frame_ref
  ref-refcounts a = elim (Bool-cases (frame_valid s (addr_to_frame a))) [
    | inr bad ↦ rw bad (same (entry_of_invalid (addr_to_frame a) bad))
    | inl good ↦ elim (Bool-cases (bit_tst s.bitmap (addr_to_frame a))) [
      | inr free ↦ rw (good, free) (same (entry_of_free (addr_to_frame a) good free))
      | inl used ↦
          let fit = v.fits (addr_to_frame a) (frame_valid-lt s (addr_to_frame a) good) in
          let lim = fit.0 in
          let pos = fit.1 used in
          elim (Bool-cases (get_or s.refcounts (addr_to_frame a) 0 == 0xffff)) [
            | inl full ↦
                rw (good, used, full)
                  (sym (
                    ap (λ (c : ℕ). set s.refcounts (addr_to_frame a) c) (ground arith)
                    ∙ set-get_or s.refcounts (addr_to_frame a) 0))
            | inr room ↦
                rw (good, used, room)
                  (ap (λ (c : ℕ). set s.refcounts (addr_to_frame a) c) (ground arith))
          ]
    ]
  ]
    where
      same :
          get_or s.refcounts (addr_to_frame a) 0 ≡ 0
          → s.refcounts
            ≡ set s.refcounts
                (addr_to_frame a)
                (counted_up (get_or s.refcounts (addr_to_frame a) 0))
      same e = sym (
          ap (λ (c : ℕ). set s.refcounts (addr_to_frame a) c) (ground arith)
          ∙ set-get_or s.refcounts (addr_to_frame a) 0)

-- The count of frame `f` where the entry of frame `g` was given `c`.
get_or-set-if :
    (xs : List ℕ) (g f c : ℕ)
    → (length xs ≤ g → c ≡ 0)
    → get_or (set xs g c) f 0 ≡ (if g == f then c else get_or xs f 0)
get_or-set-if xs g f c out = elim (ℕ_discrete g f) [
  | no ne ↦ ground (arith, get_or-set_ne xs g f c 0 ne)
  | yes e ↦ elim (dec_lt g (length xs)) [
    | yes p ↦ ground (arith, get_or-set_self xs g c 0 p, ap (λ (j : ℕ). get_or (set xs g c) j 0) e)
    | no p ↦
        ground
          (arith, out (omega arith), set-out xs g c (omega arith), get_or-out xs f 0 (omega arith))
  ]
]

module _ (s : Pmm) (v : IsValid s) (a b : ℕ) where
  entry_of_out : length s.refcounts ≤ addr_to_frame a → get_or s.refcounts (addr_to_frame a) 0 ≡ 0
  entry_of_out h = get_or-out s.refcounts (addr_to_frame a) 0 h

  -- Giving up a reference lowers the count of that frame by one, and of no other.
  refcount-unref : pmm_frame_refcount (pmm_frame_unref s a) b ≡ (
      if addr_to_frame a == addr_to_frame b
      then pmm_frame_refcount s b - 1
      else pmm_frame_refcount s b)
  refcount-unref = ground (
    arith,
    refcount-entry (pmm_frame_unref s a) (pmm_frame_unref-IsValid s a v) b,
    refcount-entry s v b,
    unref-refcounts s v a,
    entry_of_out,
    get_or-set-if s.refcounts (addr_to_frame a) (addr_to_frame b)
        (get_or s.refcounts (addr_to_frame a) 0 - 1) (λ h. omega (arith, entry_of_out h)),
  )

  -- Taking a reference raises the count of that frame by one, and of no other.
  refcount-ref : pmm_frame_refcount (pmm_frame_ref s a) b ≡ (
      if addr_to_frame a == addr_to_frame b
      then counted_up (pmm_frame_refcount s b)
      else pmm_frame_refcount s b)
  refcount-ref = ground (
    arith,
    refcount-entry (pmm_frame_ref s a) (pmm_frame_ref-IsValid s a v) b,
    refcount-entry s v b,
    ref-refcounts s v a,
    entry_of_out,
    get_or-set-if s.refcounts (addr_to_frame a) (addr_to_frame b)
        (counted_up (get_or s.refcounts (addr_to_frame a) 0)) (λ h. ground (arith, entry_of_out h)),
  )

  -- On a valid state, giving up a reference lowers the count of that frame by one, taking one raises it
  -- by one unless it is 0 or 0xffff, and no count of another frame changes.
  pub refcount_changes :
      (pmm_frame_refcount (pmm_frame_unref s a) b ≡ (
        if addr_to_frame a == addr_to_frame b
        then pmm_frame_refcount s b - 1
        else pmm_frame_refcount s b))
      × (pmm_frame_refcount (pmm_frame_ref s a) b ≡ (
          if addr_to_frame a == addr_to_frame b
          then counted_up (pmm_frame_refcount s b)
          else pmm_frame_refcount s b))
  refcount_changes = (refcount-unref, refcount-ref)
