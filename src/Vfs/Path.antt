-- ===== src/Vfs/Path.antt =====
-- `vfs_normalize_path` of kernel/vfs.c. The path under construction is kept from its last byte to its
-- first, so that its end is at hand.
use deanos.Vfs.{Name, slash, is_empty, is_dot, is_dot_dot, path_max, name_max}
use deanos.Prelude.{
  ℕ, Bool, ◌∷◌, reverse, Option, some, none, ◌++◌, if◌then◌else◌, false, ◌==◌, suc, length, [], ltb,
  take, leb, ◌-◌, ◌+◌, zero,
}

-- The bytes up to the next slash, and what follows them.
unfoldable pub take_name : Name → Name × Name
take_name [] = ([], [])
take_name (c ∷ cs) =
    let (name, rest) = take_name cs in if c == slash then ([], c ∷ cs) else (c ∷ name, rest)

unfoldable pub skip_slashes : Name → Name
skip_slashes [] = []
skip_slashes (c ∷ cs) = let rest = skip_slashes cs in if c == slash then rest else c ∷ cs

-- `while (out_len > 1 && out[out_len - 1] != '/') out_len--;`
unfoldable pub strip_name : Name → Name
strip_name [] = []
strip_name (c ∷ []) = c ∷ []
strip_name (c ∷ d ∷ out) =
    let rest = strip_name (d ∷ out) in if c == slash then c ∷ d ∷ out else rest

-- `if (out_len > 1) out_len--;`
abbrev pub strip_slash : Name → Name
strip_slash (c ∷ d ∷ out) = d ∷ out
strip_slash out = out

-- A `..`, where `out_len > 1`, and else nothing changes either.
unfoldable pub go_up : Name → Name
unfolding strip_name
go_up out = strip_slash (strip_name out)

-- `if (out_len > 1) out[out_len++] = '/';` and the name.
abbrev pub with_slash : Name → Name
with_slash (c ∷ d ∷ out) = slash ∷ c ∷ d ∷ out
with_slash out = out

unfoldable pub go_down : Name → Name → Name
go_down name out = reverse name ++ with_slash out

-- The loop over the components; each round takes at least one byte off the input. `none` is -1.
unfoldable pub walk : ℕ → ℕ → Name → Name → Option Name
unfolding take_name skip_slashes go_up go_down
walk zero out_size input out = some out
walk (suc fuel) out_size input out =
    let (name, rest) = take_name (skip_slashes input) in
    let stay = walk fuel out_size rest out in
    let up = walk fuel out_size rest (go_up out) in
    let down = walk fuel out_size rest (go_down name out) in
    if is_empty (skip_slashes input)
    then some out
    else if is_dot name
    then stay
    else if is_dot_dot name
    then up
    else if leb name_max (length name)
    then none
    else if leb out_size (length out + length name + 1)
    then none
    else down

abbrev pub is_absolute : Name → Bool
is_absolute [] = false
is_absolute (c ∷ cs) = c == slash

-- `base` with a slash at its end.
abbrev pub ends_with_slash : Name → Bool
ends_with_slash [] = false
ends_with_slash (c ∷ []) = c == slash
ends_with_slash (c ∷ d ∷ cs) = ends_with_slash (d ∷ cs)

-- `input`: an absolute path, cut off at its 255th byte, or a relative one behind the working directory.
unfoldable pub start_path : (cwd path : Name) → Option Name
start_path cwd path =
    let src = if is_empty path then (if is_empty cwd then slash ∷ [] else cwd) else path in
    let base = if is_absolute cwd then cwd else slash ∷ [] in
    let base' = if ends_with_slash base then base else base ++ (slash ∷ []) in
    if is_absolute src
    then some (take (path_max - 1) src)
    else if ltb path_max (length base + 1 + length src + 1)
    then none
    else some (base' ++ src)

-- NULL paths are the empty path.
unfoldable pub vfs_normalize_path : (cwd path : Name) → (out_size : ℕ) → Option Name
unfolding start_path walk
vfs_normalize_path cwd path out_size = elim (start_path cwd path) [
  | none ↦ none
  | some input ↦
      let walked = walk (length input) out_size input (slash ∷ []) in
      if ltb out_size 2
      then none
      else elim walked as (λ _. Option Name) [ none ↦ none | some out ↦ some (reverse out) ]
]
