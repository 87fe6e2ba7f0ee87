-- ===== src/Vfs/Start.antt =====
-- `vfs_normalize_path` of kernel/vfs.c: the path that it starts from, and what it gives.
use mathlib.Core.List
use deanos.Prelude.{
  ℕ, List, ◌∷◌, Option, ◌≡◌, if◌then◌else◌, Bool-cases, length, ◌++◌, [], some, inl, true, ◌≤◌,
  ◌==◌, ap, ◌+◌, ◌&&◌, take, inr, refl, ◌<◌, ◌∙◌, arith, sym, suc, zero, length-append, false, ltb,
}
use deanos.Vfs.Path.{start_path, ends_with_slash, is_absolute, vfs_normalize_path}
use deanos.Vfs.{Name, slash, path_max}
use deanos.Vfs.Split.{resolve, split_on_slash, all_short, at_slash, step_to, take_name-split}
use deanos.Vfs.Stack.{path_of}
use deanos.Vfs.Resolve.{walk-resolve}

split_on_slash-append :
    (xs ys : Name) → split_on_slash (xs ++ (slash ∷ ys)) ≡ split_on_slash xs ++ split_on_slash ys
split_on_slash-append [] ys = refl
split_on_slash-append (x ∷ xs) ys = elim (Bool-cases (x == slash)) [
  | inl here ↦ rw here (ap (λ (ns : List Name). [] ∷ ns) (split_on_slash-append xs ys))
  | inr other ↦ rw (other, split_on_slash-append xs ys, take_name-split xs) refl
]

resolve-append :
    (stack ns ms : List Name) → resolve stack (ns ++ ms) ≡ resolve (resolve stack ns) ms
resolve-append stack [] ms = refl
resolve-append stack (n ∷ ns) ms = resolve-append (step_to stack n) ns ms

all_short-append : (ns ms : List Name) → all_short (ns ++ ms) ≡ (all_short ns && all_short ms)
all_short-append [] ms = refl
all_short-append (n ∷ ns) ms = ground (arith, all_short-append ns ms)

-- A start of a path with a slash behind it, for the working directory `base`.
record Start (base start : Name) : Type 0 where
  dir : Name
  parts : start ≡ dir ++ (slash ∷ [])
  same :
      (stack : List Name) → resolve stack (split_on_slash dir) ≡ resolve stack (split_on_slash base)
  short : all_short (split_on_slash dir) ≡ all_short (split_on_slash base)

-- The start of a relative path.
abbrev start_of : Name → Name
start_of base = if ends_with_slash base then base else base ++ (slash ∷ [])

cut_slash :
    (base : Name) → ends_with_slash base ≡ true → (dir : Name) × (base ≡ dir ++ (slash ∷ []))
cut_slash [] e = cc
cut_slash (c ∷ []) e = ([], ap (λ (b : ℕ). b ∷ []) (ground (arith, e)))
cut_slash (c ∷ d ∷ cs) e =
    let (dir, parts) = cut_slash (d ∷ cs) e in (c ∷ dir, ap (λ (l : Name). c ∷ l) parts)

start_of-Start : (base : Name) → Start base (start_of base)
start_of-Start base = elim (Bool-cases (ends_with_slash base)) [
  | inl ends ↦
      let (dir, parts) = cut_slash base ends in
      let split : split_on_slash base ≡ split_on_slash dir ++ split_on_slash [] =
        ap split_on_slash parts ∙ split_on_slash-append dir [] in
      rw ends (record {
        dir = dir;
        parts = parts;
        same = λ stack.
            sym (ap (resolve stack) split ∙ resolve-append stack (split_on_slash dir) ([] ∷ []));
        short =
            sym
              (ap all_short split ∙ all_short-append (split_on_slash dir) ([] ∷ []) ∙ ground arith);
      })
  | inr unended ↦
      rw unended (record { dir = base; parts = refl; same = λ stack. refl; short = refl })
]

-- The names of a path, seen from the working directory `cwd`.
abbrev pub resolve_path : (cwd path : Name) → List Name
resolve_path cwd path =
    if is_absolute path
    then resolve [] (split_on_slash path)
    else resolve (resolve [] (split_on_slash cwd)) (split_on_slash path)

-- What the loop is started on.
record Started (cwd path : Name) (started : Option Name) : Type 0 where
  input : Name
  is_input : started ≡ some input
  at : at_slash input ≡ true
  short : all_short (split_on_slash input) ≡ true
  names : resolve [] (split_on_slash input) ≡ resolve_path cwd path
  size : length input ≤ length cwd + length path + 1

-- The hypotheses on a working directory and a path: names below 64 bytes, and both fit 256 bytes.
pub record IsFitting (cwd path : Name) (out_size : ℕ) : Type 0 where
  pub from_root : is_absolute cwd ≡ true
  pub short_cwd : all_short (split_on_slash cwd) ≡ true
  pub short_path : all_short (split_on_slash path) ≡ true
  pub room : length cwd + length path + 3 < out_size
  pub size : out_size ≤ path_max

take-all : (n : ℕ) (xs : Name) → length xs ≤ n → take n xs ≡ xs
take-all zero [] h = refl
take-all zero (x ∷ xs) h = absurd (omega arith)
take-all (suc n) [] h = refl
take-all (suc n) (x ∷ xs) h = ap (λ (l : Name). x ∷ l) (take-all n xs (omega arith))

absolute-at_slash : (xs : Name) → is_absolute xs ≡ true → at_slash xs ≡ true
absolute-at_slash [] e = refl
absolute-at_slash (x ∷ xs) e = e

-- An absolute path is taken as it is.
taken-Started :
    (cwd path src : Name)
    → is_absolute src ≡ true
    → length src ≤ 255
    → all_short (split_on_slash src) ≡ true
    → resolve [] (split_on_slash src) ≡ resolve_path cwd path
    → length src ≤ length cwd + length path + 1
    → Started cwd path (some (take 255 src))
taken-Started cwd path src abs fits short names size = rw (take-all 255 src fits) (record {
  input = src;
  is_input = refl;
  at = absolute-at_slash src abs;
  short = short;
  names = names;
  size = size;
})

start_of-head :
    (c : ℕ) (cs path : Name)
    → (c == slash) ≡ true
    → (at_slash (start_of (c ∷ cs) ++ path) ≡ true)
      × (length (start_of (c ∷ cs)) ≤ length (c ∷ cs) + 1)
start_of-head c cs path e = elim (Bool-cases (ends_with_slash (c ∷ cs))) [
  | inl ends ↦ rw ends (e, omega arith)
  | inr unended ↦ rw unended (e, omega (arith, length-append cs (slash ∷ [])))
]

-- A relative one stands behind the working directory.
behind-Started :
    (c : ℕ) (cs path : Name)
    → (c == slash) ≡ true
    → is_absolute path ≡ false
    → all_short (split_on_slash (c ∷ cs)) ≡ true
    → all_short (split_on_slash path) ≡ true
    → Started (c ∷ cs) path (some (start_of (c ∷ cs) ++ path))
behind-Started c cs path e relative short_cwd short_path =
    let s = start_of-Start (c ∷ cs) in
    let whole : start_of (c ∷ cs) ++ path ≡ s.dir ++ (slash ∷ path) =
      ap (λ (l : Name). l ++ path) s.parts ∙ List.append_assoc s.dir (slash ∷ []) path in
    let split = ap split_on_slash whole ∙ split_on_slash-append s.dir path in
    record {
      input = start_of (c ∷ cs) ++ path;
      is_input = refl;
      at = (start_of-head c cs path e).0;
      short =
          ap all_short split
          ∙ all_short-append (split_on_slash s.dir) (split_on_slash path)
          ∙ ground (arith, s.short, short_cwd, short_path);
      names = rw relative (
          ap (resolve []) split
          ∙ resolve-append [] (split_on_slash s.dir) (split_on_slash path)
          ∙ ap (λ (stack : List Name). resolve stack (split_on_slash path)) (s.same []));
      size = omega (arith, length-append (start_of (c ∷ cs)) path, (start_of-head c cs path e).1);
    }

start_path-Started :
    (cwd path : Name) (out_size : ℕ)
    → IsFitting cwd path out_size
    → Started cwd path (start_path cwd path)
unfolding start_path
start_path-Started [] path out_size fit = absurd (cc fit.from_root)
start_path-Started (c ∷ cs) [] out_size fit = rw fit.from_root (
    taken-Started (c ∷ cs) [] (c ∷ cs) fit.from_root (omega (arith, fit.room, fit.size))
      fit.short_cwd refl (omega arith))
start_path-Started (c ∷ cs) (d ∷ ds) out_size fit = elim (Bool-cases (d == slash)) [
  | inl absolute ↦ rw absolute (
      taken-Started (c ∷ cs) (d ∷ ds) (d ∷ ds) absolute (omega (arith, fit.room, fit.size))
        fit.short_path (rw absolute refl) (omega arith))
  | inr relative ↦
      let fits : ltb path_max (length (c ∷ cs) + 1 + length (d ∷ ds) + 1) ≡ false =
        ground (arith, fit.room, fit.size) in
      rw (relative, fit.from_root, fits)
        (behind-Started c cs (d ∷ ds) fit.from_root relative fit.short_cwd fit.short_path)
]

-- For an absolute working directory and a path whose names are below 64 bytes, which together leave
-- room for four bytes in a result of at most 256, the normal form of the path is the path of the names
-- that the pieces of the working directory and then those of the path lead to, or those of the path
-- alone where it is absolute: empty pieces and `.` stay, `..` takes the last name off.
pub vfs_normalize_path-resolves :
    (cwd path : Name) (out_size : ℕ)
    → IsFitting cwd path out_size
    → vfs_normalize_path cwd path out_size ≡ some (path_of (resolve_path cwd path))
unfolding vfs_normalize_path
vfs_normalize_path-resolves cwd path out_size fit =
    let s = start_path-Started cwd path out_size fit in
    let large : ltb out_size 2 ≡ false = ground (arith, fit.room) in
    let walked = walk-resolve (length s.input) out_size s.input [] (record {
      enough = omega arith;
      at = s.at;
      clean = refl;
      short = s.short;
      room = omega (arith, s.size, fit.room);
    }) in
    rw (vfs_normalize_path, s.is_input, large, walked, s.names) refl
