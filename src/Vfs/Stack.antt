-- ===== src/Vfs/Stack.antt =====
-- The path under construction of `vfs_normalize_path` of kernel/vfs.c is a stack of names: `..` takes
-- the last one off, and a name is put on it.
use deanos.Prelude.{
  ℕ, List, ◌≤◌, length, ◌≡◌, ◌∷◌, reverse, Bool, true, ◌++◌, [], false, ◌||◌, ◌∙◌, ◌==◌, refl, not,
  arith, ap, ◌&&◌, length-append, suc, ◌+◌, drop,
}
use deanos.Vfs.Path.{strip_name, go_down, go_up, strip_slash, with_slash}
use deanos.Vfs.{Name, slash, has_slash, is_empty}
use mathlib.Core.List

-- The path of the names on the stack, the last one first, from its last byte to its first.
abbrev pub body : List Name → Name
body [] = []
body (n ∷ ns) = reverse n ++ (slash ∷ body ns)

abbrev pub path_back : List Name → Name
path_back [] = slash ∷ []
path_back (n ∷ ns) = body (n ∷ ns)

-- The path of the names on the stack.
abbrev pub path_of : List Name → Name
path_of stack = reverse (path_back stack)

-- The names can stand in a path.
abbrev pub all_clean : List Name → Bool
all_clean [] = true
all_clean (n ∷ ns) = not (is_empty n) && (not (has_slash n) && all_clean ns)

has_slash-append : (xs ys : Name) → has_slash (xs ++ ys) ≡ (has_slash xs || has_slash ys)
has_slash-append [] ys = refl
has_slash-append (x ∷ xs) ys = ground (arith, has_slash-append xs ys)

has_slash-reverse : (xs : Name) → has_slash (reverse xs) ≡ has_slash xs
has_slash-reverse [] = refl
has_slash-reverse (x ∷ xs) =
    rw (List.reverse-cons x xs, has_slash-append (reverse xs) (x ∷ []), has_slash-reverse xs)
      (ground arith)

length-reverse : (xs : Name) → length (reverse xs) ≡ length xs
length-reverse [] = refl
length-reverse (x ∷ xs) =
    rw (List.reverse-cons x xs, length-append (reverse xs) (x ∷ []), length-reverse xs)
      (omega arith)

is_empty-length : (xs : Name) → is_empty xs ≡ false → 1 ≤ length xs
is_empty-length [] e = cc
is_empty-length (x ∷ xs) e = omega arith

-- `..` in front of the last slash.
strip_name-slash : (xs r : Name) → has_slash xs ≡ false → strip_name (xs ++ (slash ∷ r)) ≡ slash ∷ r
unfolding strip_name
strip_name-slash [] [] e = refl
strip_name-slash [] (d ∷ r) e = refl
strip_name-slash (x ∷ []) r e =
    let other : (x == slash) ≡ false = ground (arith, e) in rw other (strip_name-slash [] r refl)
strip_name-slash (x ∷ y ∷ xs) r e =
    let other : (x == slash) ≡ false = ground (arith, e) in
    let rest : has_slash (y ∷ xs) ≡ false = ground (arith, e) in
    rw other (strip_name-slash (y ∷ xs) r rest)

strip_slash-cons : (c : ℕ) (xs r : Name) → strip_slash (c ∷ (xs ++ (slash ∷ r))) ≡ xs ++ (slash ∷ r)
strip_slash-cons c [] r = refl
strip_slash-cons c (x ∷ xs) r = refl

go_up-path_back :
    (n : Name) (ns : List Name) → has_slash n ≡ false → go_up (path_back (n ∷ ns)) ≡ path_back ns
unfolding go_up
go_up-path_back n [] e =
    let e' : has_slash (reverse n) ≡ false = has_slash-reverse n ∙ e in
    ap strip_slash (strip_name-slash (reverse n) [] e')
go_up-path_back n (m ∷ ns) e =
    let e' : has_slash (reverse n) ≡ false = has_slash-reverse n ∙ e in
    ap strip_slash (strip_name-slash (reverse n) (body (m ∷ ns)) e')
    ∙ strip_slash-cons slash (reverse m) (body ns)

with_slash-long : (out : Name) → 2 ≤ length out → with_slash out ≡ slash ∷ out
with_slash-long [] h = absurd (omega arith)
with_slash-long (c ∷ []) h = absurd (omega arith)
with_slash-long (c ∷ d ∷ out) h = refl

pub go_down-path_back :
    (name : Name) (ns : List Name)
    → all_clean ns ≡ true
    → go_down name (path_back ns) ≡ path_back (name ∷ ns)
unfolding go_down
go_down-path_back name [] h = refl
go_down-path_back name (m ∷ ns) h =
    let some_byte : 1 ≤ length m = is_empty-length m (ground (arith, h)) in
    ap (λ (out : Name). reverse name ++ out)
      (with_slash-long (body (m ∷ ns))
        (rw (length-append (reverse m) (slash ∷ body ns), length-reverse m) (omega arith)))

body-length :
    (ns : List Name)
    → (length (body ns) ≤ length (path_back ns)) × (length (path_back ns) ≤ suc (length (body ns)))
body-length [] = (omega arith, omega arith)
body-length (n ∷ ns) = (omega arith, omega arith)

-- A name makes the path longer, by a slash and itself at most.
pub path_back-length :
    (n : Name) (ns : List Name)
    → (length (path_back ns) ≤ length (path_back (n ∷ ns)))
      × (length (path_back (n ∷ ns)) ≤ length (path_back ns) + length n + 1)
path_back-length n ns =
    let split = length-append (reverse n) (slash ∷ body ns) in
    let same = length-reverse n in let near = body-length ns in (omega arith, omega arith)

-- `..` takes the last name off, and does nothing at the root.
pub record WentUp (stack : List Name) : Type 0 where
  pub above : go_up (path_back stack) ≡ path_back (drop 1 stack)
  pub clean : all_clean (drop 1 stack) ≡ true
  pub no_longer : length (path_back (drop 1 stack)) ≤ length (path_back stack)

pub go_up-WentUp : (stack : List Name) → all_clean stack ≡ true → WentUp stack
unfolding go_up strip_name
go_up-WentUp [] h = record { above = refl; clean = refl; no_longer = omega arith }
go_up-WentUp (n ∷ ns) h = record {
  above = go_up-path_back n ns (ground (arith, h));
  clean = ground (arith, h);
  no_longer = (path_back-length n ns).0;
}
