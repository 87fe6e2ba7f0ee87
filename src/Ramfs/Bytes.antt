-- ===== src/Ramfs/Bytes.antt =====
-- A file of kernel/ramfs.c as a function from offsets to bytes: reading and writing.
use deanos.Ramfs.{put_bytes, File, vfs_max_file}
use deanos.Prelude.{
  ◌≤◌, ℕ, List, ◌+◌, if◌then◌else◌, ◌<◌, length, ◌⊎◌, ◌≡◌, get_or, ltb, ◌-◌, ◌∷◌, arith, set,
  Bool-cases, suc, ◌==◌, ◌∙◌, inl, length-set, get_or-set_ne, ap, inr, [], get_or-set_self, refl,
  sym,
}

-- What a reader sees at an offset.
abbrev pub view : File → ℕ → ℕ
view f i = if ltb i f.size then get_or f.content i 0 else 0

-- The data covers the size, is zero behind it, and has no capacity below 256 but 0.
pub record IsStored (f : File) : Type 0 where
  pub covered : f.size ≤ length f.content
  pub limited : length f.content ≤ vfs_max_file
  pub grown : (length f.content ≡ 0) ⊎ (256 ≤ length f.content)
  pub clean : (i : ℕ) → f.size ≤ i → get_or f.content i 0 ≡ 0

-- A reader sees the data.
pub view-stored : (f : File) → IsStored f → (i : ℕ) → view f i ≡ get_or f.content i 0
view-stored f stored i = elim (Bool-cases (ltb i f.size)) [
  | inl within ↦ rw within refl
  | inr out ↦ rw out (sym (stored.clean i (ground (arith, out))))
]

pub length-put_bytes :
    (block : List ℕ) (offset : ℕ) (bs : List ℕ) → length (put_bytes block offset bs) ≡ length block
unfolding put_bytes
length-put_bytes block offset [] = refl
length-put_bytes block offset (b ∷ bs) =
    length-put_bytes (set block offset b) (offset + 1) bs ∙ length-set block offset b

pub put_bytes-outside :
    (block : List ℕ) (offset : ℕ) (bs : List ℕ) (i : ℕ)
    → (i < offset) ⊎ (offset + length bs ≤ i)
    → get_or (put_bytes block offset bs) i 0 ≡ get_or block i 0
unfolding put_bytes
put_bytes-outside block offset [] i away = refl
put_bytes-outside block offset (b ∷ bs) i away =
    put_bytes-outside (set block offset b) (offset + 1) bs i (ground arith)
    ∙ get_or-set_ne block offset i b 0 (ground arith)

pub put_bytes-inside :
    (block : List ℕ) (offset : ℕ) (bs : List ℕ) (i : ℕ)
    → offset + length bs ≤ length block
    → offset ≤ i
    → i < offset + length bs
    → get_or (put_bytes block offset bs) i 0 ≡ get_or bs (i - offset) 0
unfolding put_bytes
put_bytes-inside block offset [] i fits le lt = absurd (omega arith)
put_bytes-inside block offset (b ∷ bs) i fits le lt = elim (Bool-cases (i == offset)) [
  | inl here ↦
      let same : i ≡ offset = ground (arith, here) in
      let first : i - offset ≡ 0 = omega arith in
      put_bytes-outside (set block offset b) (offset + 1) bs i (inl (omega arith))
      ∙ ap (λ (k : ℕ). get_or (set block offset b) k 0) same
      ∙ get_or-set_self block offset b 0 (omega arith)
      ∙ rw first refl
  | inr later ↦
      let next : i - offset ≡ suc (i - (offset + 1)) = ground (arith, later) in
      let fits' : offset + 1 + length bs ≤ length (set block offset b) =
        omega (arith, length-set block offset b) in
      put_bytes-inside (set block offset b) (offset + 1) bs i fits' (ground (arith, later))
        (omega arith)
      ∙ rw next refl
]
