-- ===== src/Ramfs/Directory/Names.antt =====
-- The names of a directory of kernel/ramfs.c are distinct, and each operation by name does what it says.
use deanos.Prelude.{
  Option, List, Bool, ◌≡◌, ◌++◌, true, false, some, length, ◌∷◌, not, [], arith, none,
  if◌then◌else◌, ap₂, refl, ◌&&◌, Bool-cases, ℕ, inl, inr, ◌∙◌, suc,
}
use deanos.Ramfs.Directory.{find_child, same_name, Child, unlink_child, is_busy, put_first}
use deanos.Vfs.{Name}

pub same_name-eq : (a b : Name) → same_name a b ≡ true → a ≡ b
same_name-eq [] [] e = refl
same_name-eq [] (d ∷ ds) e = cc
same_name-eq (c ∷ cs) [] e = cc
same_name-eq (c ∷ cs) (d ∷ ds) e =
    ap₂ (λ (x : ℕ) (l : Name). x ∷ l) (ground (arith, e)) (same_name-eq cs ds (ground (arith, e)))

pub same_name_refl : (a : Name) → same_name a a ≡ true
same_name_refl [] = refl
same_name_refl (c ∷ cs) = ground (arith, same_name_refl cs)

abbrev pub is_some {ℓ} : {A : Type ℓ} → Option A → Bool
is_some none = false
is_some (some a) = true

-- No two children have one name.
abbrev pub all_distinct : List Child → Bool
all_distinct [] = true
all_distinct (c ∷ cs) = not (is_some (find_child cs c.name)) && all_distinct cs

-- What a lookup gives after a child was put at the end.
pub find_child-append :
    (cs : List Child) (new : Child) (name : Name)
    → find_child (cs ++ (new ∷ [])) name ≡ elim (find_child cs name) as (λ _. Option Child) [
      | some c ↦ some c
      | none ↦ if same_name new.name name then some new else none
    ]
unfolding find_child
find_child-append [] new name = refl
find_child-append (c ∷ cs) new name = elim (Bool-cases (same_name c.name name)) [
  | inl here ↦ rw here refl
  | inr other ↦ rw other (find_child-append cs new name)
]

pub find_child-append_other :
    (cs : List Child) (new : Child) (name : Name)
    → same_name new.name name ≡ false
    → find_child (cs ++ (new ∷ [])) name ≡ find_child cs name
unfolding find_child
find_child-append_other [] new name apart = rw apart refl
find_child-append_other (c ∷ cs) new name apart = elim (Bool-cases (same_name c.name name)) [
  | inl here ↦ rw here refl
  | inr other ↦ rw other (find_child-append_other cs new name apart)
]

same_name_comm : (a b : Name) → same_name a b ≡ same_name b a
same_name_comm [] [] = refl
same_name_comm [] (d ∷ ds) = refl
same_name_comm (c ∷ cs) [] = refl
same_name_comm (c ∷ cs) (d ∷ ds) = ground (arith, same_name_comm cs ds)

is_some-none {ℓ} : {A : Type ℓ} (o : Option A) → is_some o ≡ false → o ≡ none
is_some-none none e = refl
is_some-none (some a) e = cc

-- What stands in front of the others is no longer among them.
pub head_alone :
    (c : Child) (cs : List Child)
    → all_distinct (c ∷ cs) ≡ true
    → (find_child cs c.name ≡ none) × (all_distinct cs ≡ true)
head_alone c cs e = (is_some-none (find_child cs c.name) (ground (arith, e)), ground (arith, e))

pub all_distinct-append :
    (cs : List Child) (new : Child)
    → all_distinct cs ≡ true
    → find_child cs new.name ≡ none
    → all_distinct (cs ++ (new ∷ [])) ≡ true
unfolding find_child
all_distinct-append [] new e absent = refl
all_distinct-append (c ∷ cs) new e absent = elim (Bool-cases (same_name c.name new.name)) [
  | inl here ↦ cc (rw here at absent)
  | inr other ↦
      let alone = head_alone c cs e in
      let other' : same_name new.name c.name ≡ false = same_name_comm new.name c.name ∙ other in
      let rest : all_distinct (cs ++ (new ∷ [])) ≡ true =
        all_distinct-append cs new alone.1 (rw other at absent) in
      let gone : find_child (cs ++ (new ∷ [])) c.name ≡ none =
        find_child-append cs new c.name ∙ rw (alone.0, other') refl in
      rw (gone, rest) refl
]

-- What taking a name out of a list of children can come to.
pub data Unlinked (cs : List Child) (name : Name) : Option (List Child) → Type 0 where
  absent : find_child cs name ≡ none → Unlinked cs name none
  busy : (c : Child) → find_child cs name ≡ some c → is_busy c ≡ true → Unlinked cs name none
  removed :
      (cs' : List Child)
      → find_child cs' name ≡ none
      → ((n : Name) → same_name name n ≡ false → find_child cs' n ≡ find_child cs n)
      → all_distinct cs' ≡ true
      → length cs ≡ suc (length cs')
      → Unlinked cs name (some cs')

put_first-Unlinked :
    (c : Child) (cs : List Child) (name : Name) (o : Option (List Child))
    → all_distinct (c ∷ cs) ≡ true
    → same_name c.name name ≡ false
    → Unlinked cs name o
    → Unlinked (c ∷ cs) name (put_first c o)
unfolding find_child
put_first-Unlinked c cs name o e other (absent none_there) = absent (rw other none_there)
put_first-Unlinked c cs name o e other (busy b found full) = busy b (rw other found) full
put_first-Unlinked c cs name o e other (removed cs' gone kept distinct shorter) =
    let other' : same_name name c.name ≡ false = same_name_comm name c.name ∙ other in
    removed (c ∷ cs') (rw other gone)
      (λ n apart. elim (Bool-cases (same_name c.name n)) [
        | inl here ↦ rw here refl
        | inr away ↦ rw away (kept n apart)
      ])
      (rw (kept c.name other', (head_alone c cs e).0, distinct) refl) (omega arith)

pub unlink_child-Unlinked :
    (cs : List Child) (name : Name)
    → all_distinct cs ≡ true
    → Unlinked cs name (unlink_child cs name)
unfolding unlink_child find_child
unlink_child-Unlinked [] name e = absent refl
unlink_child-Unlinked (c ∷ cs) name e = elim (Bool-cases (same_name c.name name)) [
  | inl here ↦
      let alone = head_alone c cs e in
      let same = same_name-eq c.name name here in
      elim (Bool-cases (is_busy c)) [
        | inl full ↦ rw (here, full) (busy c (rw here refl) full)
        | inr free ↦
            rw (here, free)
              (removed cs (rw (← same) alone.0)
                (λ n apart.
                  let apart' : same_name c.name n ≡ false = rw same apart in rw apart' refl)
                alone.1 refl)
      ]
  | inr other ↦ rw other (
      put_first-Unlinked c cs name (unlink_child cs name) e other
        (unlink_child-Unlinked cs name (head_alone c cs e).1))
]
