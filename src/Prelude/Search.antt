-- ===== src/Prelude/Search.antt =====
-- The first index at which a test holds, as the loops over a table look for it.
use Prim.Native.Nat.{ℕ, zero, suc, ◌<◌}
use mathlib.Core.Path.{◌≡◌}
use mathlib.Core.Logic.{inl, inr}
use mathlib.Core.Bool.{Bool, true, false}
use mathlib.Core.Option.{Option, none, some}
use mathlib.Core.List.{List, [], ◌∷◌}
use native.Mathlib.Omega.{arith}
use deanos.Prelude.Tests.{if◌then◌else◌, Bool-cases, Option-cases}
use deanos.Prelude.Lists.{length, get_or}

abbrev pub option_suc : Option ℕ → Option ℕ
option_suc none = none
option_suc (some i) = some (suc i)

module _ {ℓ} {A : Type ℓ} where
  unfoldable pub find_first : (A → Bool) → List A → Option ℕ
  find_first p [] = none
  find_first p (x ∷ xs) = let rest = option_suc (find_first p xs) in if p x then some 0 else rest

  -- What `find_first` says: `d` is any default for a read.
  pub record FoundFirst (p : A → Bool) (xs : List A) (d : A) (i : ℕ) : Type 0 where
    pub within : i < length xs
    pub holds : p (get_or xs i d) ≡ true
    pub earlier : (j : ℕ) → j < i → p (get_or xs j d) ≡ false

  pub find_first-some :
      (p : A → Bool) (xs : List A) (d : A) (i : ℕ) → find_first p xs ≡ some i → FoundFirst p xs d i
  unfolding find_first
  find_first-some p [] d i e = cc
  find_first-some p (x ∷ xs) d zero e = elim (Bool-cases (p x)) [
    | inl here ↦ record {
      within = omega arith;
      holds = here;
      earlier = λ j h. absurd (omega arith);
    }
    | inr later ↦
        let none_left : option_suc (find_first p xs) ≡ some 0 = rw later at e in
        absurd (elim (Option-cases (find_first p xs)) [
          | inl none_found ↦ cc (rw none_found at none_left)
          | inr (i, found) ↦ cc (rw found at none_left)
        ])
  ]
  find_first-some p (x ∷ xs) d (suc i) e = elim (Bool-cases (p x)) [
    | inl here ↦ absurd (cc (rw here at e))
    | inr later ↦
        let rest : option_suc (find_first p xs) ≡ some (suc i) = rw later at e in
        elim (Option-cases (find_first p xs)) [
          | inl none_found ↦ absurd (cc (rw none_found at rest))
          | inr (k, found) ↦
              let there = find_first-some p xs d k found in
              let same : k ≡ i = ground (arith, rw found at rest) in
              record {
                within = omega (arith, there.within);
                holds = rw (← same) there.holds;
                earlier = λ j. elim j as (λ m. m < suc i → p (get_or (x ∷ xs) m d) ≡ false) [
                  | zero ↦ λ h. later
                  | suc m ↦ λ h. there.earlier m (omega arith)
                ];
              }
        ]
  ]

  pub find_first-none :
      (p : A → Bool) (xs : List A) (d : A)
      → find_first p xs ≡ none
      → (j : ℕ) → j < length xs
      → p (get_or xs j d) ≡ false
  unfolding find_first
  find_first-none p [] d e j h = absurd (omega arith)
  find_first-none p (x ∷ xs) d e zero h = elim (Bool-cases (p x)) [
    | inl here ↦ absurd (cc (rw here at e))
    | inr later ↦ later
  ]
  find_first-none p (x ∷ xs) d e (suc j) h = elim (Bool-cases (p x)) [
    | inl here ↦ absurd (cc (rw here at e))
    | inr later ↦
        let rest : option_suc (find_first p xs) ≡ none = rw later at e in
        elim (Option-cases (find_first p xs)) [
          | inl none_found ↦ find_first-none p xs d none_found j (omega arith)
          | inr (k, found) ↦ absurd (cc (rw found at rest))
        ]
  ]
