-- ===== src/Vfs/Split.antt =====
-- The names of a path: an independent reading of it, and how the scan of `vfs_normalize_path` of
-- kernel/vfs.c goes through them.
use deanos.Vfs.Path.{skip_slashes, take_name}
use deanos.Prelude.{
  List, ℕ, ◌≡◌, if◌then◌else◌, ◌∷◌, length, Bool, sym, ◌∙◌, ◌+◌, true, ◌≤◌, ◌||◌, ◌==◌, [], false,
  Bool-cases, refl, arith, ap, ◌<◌, ◌⊎◌, ltb, inl, drop, ◌&&◌, inr,
}
use deanos.Vfs.{Name, is_empty, has_slash, is_dot, slash, name_max, is_dot_dot}

abbrev pub cons_head : ℕ → List Name → List Name
cons_head c [] = (c ∷ []) ∷ []
cons_head c (n ∷ ns) = (c ∷ n) ∷ ns

-- The pieces between the slashes of a path, empty ones included.
abbrev pub split_on_slash : Name → List Name
split_on_slash [] = [] ∷ []
split_on_slash (c ∷ cs) =
    let rest = split_on_slash cs in if c == slash then [] ∷ rest else cons_head c rest

-- The names on the way down from the root, the last one first, after one more piece of a path.
abbrev pub step_to : List Name → Name → List Name
step_to stack piece =
    if is_empty piece || is_dot piece
    then stack
    else if is_dot_dot piece
    then drop 1 stack
    else piece ∷ stack

abbrev pub resolve : List Name → List Name → List Name
resolve stack [] = stack
resolve stack (n ∷ ns) = resolve (step_to stack n) ns

abbrev pub all_short : List Name → Bool
all_short [] = true
all_short (n ∷ ns) = ltb (length n) name_max && all_short ns

abbrev pub at_slash : Name → Bool
at_slash [] = true
at_slash (c ∷ cs) = c == slash

-- The pieces behind the first one.
abbrev pub behind : Name → List Name
behind [] = []
behind (c ∷ cs) = split_on_slash cs

pub take_name-split : (cs : Name) → split_on_slash cs ≡ (take_name cs).0 ∷ behind (take_name cs).1
unfolding take_name
take_name-split [] = refl
take_name-split (c ∷ cs) = elim (Bool-cases (c == slash)) [
  | inl here ↦ rw here refl
  | inr other ↦ rw (other, take_name-split cs) refl
]

take_name-at_slash : (cs : Name) → at_slash (take_name cs).1 ≡ true
unfolding take_name
take_name-at_slash [] = refl
take_name-at_slash (c ∷ cs) = elim (Bool-cases (c == slash)) [
  | inl here ↦ rw here here
  | inr other ↦ rw other (take_name-at_slash cs)
]

take_name-has_slash : (cs : Name) → has_slash (take_name cs).0 ≡ false
unfolding take_name
take_name-has_slash [] = refl
take_name-has_slash (c ∷ cs) = elim (Bool-cases (c == slash)) [
  | inl here ↦ rw here refl
  | inr other ↦ rw (other, other) (take_name-has_slash cs)
]

take_name-length : (cs : Name) → length (take_name cs).0 + length (take_name cs).1 ≡ length cs
unfolding take_name
take_name-length [] = refl
take_name-length (c ∷ cs) = elim (Bool-cases (c == slash)) [
  | inl here ↦ rw here (omega arith)
  | inr other ↦ rw other (omega (arith, take_name-length cs))
]

-- At a slash the first piece is empty, and passing over it changes nothing.
behind-resolve :
    (cs : Name) (stack : List Name)
    → at_slash cs ≡ true
    → resolve stack (behind cs) ≡ resolve stack (split_on_slash cs)
behind-resolve [] stack e = refl
behind-resolve (c ∷ cs) stack e = rw e refl

behind-all_short :
    (cs : Name) → at_slash cs ≡ true → all_short (behind cs) ≡ all_short (split_on_slash cs)
behind-all_short [] e = refl
behind-all_short (c ∷ cs) e = rw e refl

pub skip_slashes-resolve :
    (cs : Name) (stack : List Name)
    → resolve stack (split_on_slash (skip_slashes cs)) ≡ resolve stack (split_on_slash cs)
unfolding skip_slashes
skip_slashes-resolve [] stack = refl
skip_slashes-resolve (c ∷ cs) stack = elim (Bool-cases (c == slash)) [
  | inl here ↦ rw here (skip_slashes-resolve cs stack)
  | inr other ↦ rw (other, other) refl
]

skip_slashes-all_short :
    (cs : Name) → all_short (split_on_slash (skip_slashes cs)) ≡ all_short (split_on_slash cs)
unfolding skip_slashes
skip_slashes-all_short [] = refl
skip_slashes-all_short (c ∷ cs) = elim (Bool-cases (c == slash)) [
  | inl here ↦ rw here (skip_slashes-all_short cs)
  | inr other ↦ rw (other, other) refl
]

-- What is left behind the slashes starts with a name, unless nothing is left.
pub skip_slashes-starts :
    (cs : Name)
    → (is_empty (skip_slashes cs) ≡ true)
      ⊎ ((is_empty (skip_slashes cs) ≡ false) × (at_slash (skip_slashes cs) ≡ false))
unfolding skip_slashes
skip_slashes-starts [] = inl refl
skip_slashes-starts (c ∷ cs) = elim (Bool-cases (c == slash)) [
  | inl here ↦ rw here (skip_slashes-starts cs)
  | inr other ↦ rw other (inr (refl, other))
]

skip_slashes-length : (cs : Name) → length (skip_slashes cs) ≤ length cs
unfolding skip_slashes
skip_slashes-length [] = omega arith
skip_slashes-length (c ∷ cs) = elim (Bool-cases (c == slash)) [
  | inl here ↦ rw here (omega (arith, skip_slashes-length cs))
  | inr other ↦ rw other (omega arith)
]

-- Behind a slash, the name that comes next is shorter than the input by one byte at least.
skip_slashes-less :
    (cs : Name)
    → at_slash cs ≡ true
    → is_empty (skip_slashes cs) ≡ false
    → length (skip_slashes cs) < length cs
unfolding skip_slashes
skip_slashes-less [] at e = cc
skip_slashes-less (c ∷ cs) at e = rw at (omega (arith, skip_slashes-length cs))

take_name-is_empty :
    (cs : Name) → is_empty cs ≡ false → at_slash cs ≡ false → is_empty (take_name cs).0 ≡ false
unfolding take_name
take_name-is_empty [] e other = cc
take_name-is_empty (c ∷ cs) e other = rw other refl

pub next_name-is_empty :
    (cs : Name)
    → is_empty (skip_slashes cs) ≡ false
    → at_slash (skip_slashes cs) ≡ false
    → is_empty (take_name (skip_slashes cs)).0 ≡ false
next_name-is_empty cs e other = take_name-is_empty (skip_slashes cs) e other

pub next_name-length :
    (cs : Name)
    → at_slash cs ≡ true
    → is_empty (skip_slashes cs) ≡ false
    → length (take_name (skip_slashes cs)).0 + length (take_name (skip_slashes cs)).1 < length cs
next_name-length cs at e =
    omega (arith, take_name-length (skip_slashes cs), skip_slashes-less cs at e)

-- One round of the scan, from the input to the name and what follows it.
pub record Scanned (cs : Name) : Type 0 where
  pub clean : has_slash (take_name (skip_slashes cs)).0 ≡ false
  pub left_at_slash : at_slash (take_name (skip_slashes cs)).1 ≡ true
  pub resolved :
      (stack : List Name)
      → resolve stack (split_on_slash cs)
        ≡ resolve
            (step_to stack (take_name (skip_slashes cs)).0)
            (split_on_slash (take_name (skip_slashes cs)).1)
  pub short :
      all_short (split_on_slash cs) ≡ true
      → (length (take_name (skip_slashes cs)).0 < name_max)
        × (all_short (split_on_slash (take_name (skip_slashes cs)).1) ≡ true)

pub scan-Scanned : (cs : Name) → Scanned cs
scan-Scanned cs =
    let input = skip_slashes cs in
    record {
      clean = take_name-has_slash input;
      left_at_slash = take_name-at_slash input;
      resolved = λ stack.
          sym (skip_slashes-resolve cs stack)
          ∙ ap (resolve stack) (take_name-split input)
          ∙ behind-resolve (take_name input).1 (step_to stack (take_name input).0)
              (take_name-at_slash input);
      short = λ h.
          let all : all_short ((take_name input).0 ∷ behind (take_name input).1) ≡ true =
            ap all_short (sym (take_name-split input)) ∙ skip_slashes-all_short cs ∙ h in
          (
            ground arith,
            sym (behind-all_short (take_name input).1 (take_name-at_slash input)) ∙ ground arith,
          );
    }
