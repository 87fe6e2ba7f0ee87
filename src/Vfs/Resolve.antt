-- ===== src/Vfs/Resolve.antt =====
-- `vfs_normalize_path` of kernel/vfs.c resolves the names of a path one after another.
use deanos.Vfs.{Name, is_empty, is_dot, is_dot_dot, name_max}
use deanos.Prelude.{
  zero, ℕ, List, length, ◌≡◌, ◌≤◌, some, true, ◌+◌, ◌∷◌, ◌<◌, sym, arith, suc, ◌∙◌, inl, [], inr,
  refl, false, Bool-cases, leb, drop,
}
use deanos.Vfs.Path.{walk, skip_slashes, take_name}
use deanos.Vfs.Stack.{path_back, all_clean, go_down-path_back, path_back-length, go_up-WentUp}
use deanos.Vfs.Split.{
  at_slash, resolve, all_short, split_on_slash, skip_slashes-resolve, skip_slashes-starts,
  scan-Scanned, next_name-is_empty, next_name-length,
}

walk-empty :
    (input : Name) (stack : List Name)
    → is_empty (skip_slashes input) ≡ true
    → resolve stack (split_on_slash input) ≡ stack
walk-empty input stack e = sym (skip_slashes-resolve input stack) ∙ none_left (skip_slashes input) e
  where
    none_left : (cs : Name) → is_empty cs ≡ true → resolve stack (split_on_slash cs) ≡ stack
    none_left [] e = refl
    none_left (c ∷ cs) e = cc

-- A state of the loop: names that can stand in a path, an input at a slash, and room for all of it.
pub record Walking (fuel out_size : ℕ) (input : Name) (stack : List Name) : Type 0 where
  pub enough : length input ≤ fuel
  pub at : at_slash input ≡ true
  pub clean : all_clean stack ≡ true
  pub short : all_short (split_on_slash input) ≡ true
  pub room : length (path_back stack) + length input + 1 < out_size

pub walk-resolve :
    (fuel out_size : ℕ) (input : Name) (stack : List Name)
    → Walking fuel out_size input stack
    → walk fuel out_size input (path_back stack)
      ≡ some (path_back (resolve stack (split_on_slash input)))
unfolding walk
walk-resolve zero out_size [] stack w = refl
walk-resolve zero out_size (c ∷ cs) stack w = absurd (omega (arith, w.enough))
walk-resolve (suc fuel) out_size input stack w = elim (skip_slashes-starts input) [
  | inl empty ↦ rw (empty, walk-empty input stack empty) refl
  | inr (other, no_slash) ↦
      let name = (take_name (skip_slashes input)).0 in
      let rest = (take_name (skip_slashes input)).1 in
      let scanned = scan-Scanned input in
      let named : is_empty name ≡ false = next_name-is_empty input other no_slash in
      let shorter = next_name-length input w.at other in
      let short = scanned.short w.short in
      let next : (stack' : List Name)
          → all_clean stack' ≡ true
          → length (path_back stack') ≤ length (path_back stack) + length name + 1
          → walk fuel out_size rest (path_back stack')
            ≡ some (path_back (resolve stack' (split_on_slash rest))) =
        λ stack' clean grows. walk-resolve fuel out_size rest stack' (record {
          enough = omega (arith, w.enough);
          at = scanned.left_at_slash;
          clean = clean;
          short = short.1;
          room = omega (arith, w.room);
        }) in
      rw (other, scanned.resolved stack, named)
        (elim (Bool-cases (is_dot name)) [
          | inl here ↦ rw here (next stack w.clean (omega arith))
          | inr name_not_dot ↦ elim (Bool-cases (is_dot_dot name)) [
            | inl up ↦
                let gone = go_up-WentUp stack w.clean in
                rw (name_not_dot, up, gone.above)
                  (next (drop 1 stack) gone.clean (omega (arith, gone.no_longer)))
            | inr plain ↦
                let fits : leb name_max (length name) ≡ false = ground (arith, short.0) in
                let room : leb out_size (length (path_back stack) + length name + 1) ≡ false =
                  ground (arith, w.room, shorter) in
                let clean : all_clean (name ∷ stack) ≡ true =
                  ground (arith, named, scanned.clean, w.clean) in
                rw (name_not_dot, plain, fits, room, go_down-path_back name stack w.clean)
                  (next (name ∷ stack) clean (path_back-length name stack).1)
          ]
        ])
]
