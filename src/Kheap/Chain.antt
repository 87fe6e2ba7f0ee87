-- ===== src/Kheap/Chain.antt =====
-- The free list of kernel/kheap.c: the links in the memory lead through a list of headers.
use deanos.Kheap.{Words}
use deanos.Prelude.{
  List, ℕ, ◌≢◌, ◌≡◌, ◌∷◌, ◌++◌, ◌≤◌, ◌⊎◌, ◌%◌, ◌+◌, if◌then◌else◌, [], inl, ◌==◌, arith, ◌∙◌, inr,
  refl, ap, sym,
}

-- From `cur` the links lead through the nodes of the headers `hs`, the first one's `prev` being `p`.
abbrev pub Chain : Words → (p cur : ℕ) → List ℕ → Type 0
Chain m p cur [] = cur ≡ 0
Chain m p cur (h ∷ hs) = (cur ≡ h + 4) × (m (h + 4) ≡ p) × Chain m (h + 4) (m (h + 8)) hs

abbrev pub occurs : ℕ → List ℕ → ℕ
occurs h [] = 0
occurs h (x ∷ xs) = (if x == h then 1 else 0) + occurs h xs

pub occurs-append : (h : ℕ) (xs ys : List ℕ) → occurs h (xs ++ ys) ≡ occurs h xs + occurs h ys
occurs-append h [] ys = omega arith
occurs-append h (x ∷ xs) ys = omega (arith, occurs-append h xs ys)

pub Chain-frame :
    (m m' : Words) (p cur : ℕ) (hs : List ℕ)
    → Chain m p cur hs
    → ((h : ℕ) → 1 ≤ occurs h hs → (m' (h + 4) ≡ m (h + 4)) × (m' (h + 8) ≡ m (h + 8)))
    → Chain m' p cur hs
Chain-frame m m' p cur [] c same = c
Chain-frame m m' p cur (h ∷ hs) c same =
    let here = same h (ground arith) in
    (
      c.0,
      here.0 ∙ c.1,
      rw (here.1)
          (Chain-frame m m' (h + 4) (m (h + 8)) hs c.2 (λ g one. same g (ground (arith, one)))),
    )

-- What stands before and behind a place in the list, as links.
abbrev pub link_before : ℕ → List ℕ → ℕ
link_before p [] = p
link_before p (x ∷ xs) = link_before (x + 4) xs

abbrev pub link_behind : List ℕ → ℕ
link_behind [] = 0
link_behind (y ∷ ys) = y + 4

Chain-head : (m : Words) (p cur : ℕ) (hs : List ℕ) → Chain m p cur hs → cur ≡ link_behind hs
Chain-head m p cur [] c = c
Chain-head m p cur (h ∷ hs) c = c.0

pub Chain-links :
    (m : Words) (p cur h : ℕ) (xs ys : List ℕ)
    → Chain m p cur (xs ++ (h ∷ ys))
    → (m (h + 4) ≡ link_before p xs) × (m (h + 8) ≡ link_behind ys)
Chain-links m p cur h [] ys c = (c.1, Chain-head m (h + 4) (m (h + 8)) ys c.2)
Chain-links m p cur h (x ∷ xs) ys c = Chain-links m (x + 4) (m (x + 8)) h xs ys c.2

-- The link before a place is the given one or that of an element.
pub link_before-cases :
    (p : ℕ) (xs : List ℕ)
    → ((xs ≡ []) × (link_before p xs ≡ p))
      ⊎ ((l : ℕ) × (link_before p xs ≡ l + 4) × (1 ≤ occurs l xs))
link_before-cases p [] = inl (refl, refl)
link_before-cases p (x ∷ xs) = elim (link_before-cases (x + 4) xs) [
  | inl (nothing, e) ↦ inr (x, e, ground arith)
  | inr (l, e, one) ↦ inr (l, e, ground (arith, one))
]

-- The memory after the link before a place and the link behind it were joined.
pub record Joined (m m' : Words) (prev next : ℕ) : Type 0 where
  pub forward : prev ≢ 0 → m' (prev + 4) ≡ next
  pub backward : next ≢ 0 → m' next ≡ prev
  pub others : (w : ℕ) → (prev ≡ 0) ⊎ (w ≢ prev + 4) → (next ≡ 0) ⊎ (w ≢ next) → m' w ≡ m w

-- All headers are multiples of 8 and not 0, and each stands in the list once.
abbrev pub Proper : List ℕ → Type 0
Proper hs = (h : ℕ) → 1 ≤ occurs h hs → (h % 8 ≡ 0) × (1 ≤ h) × (occurs h hs ≡ 1)

-- The link is 0 or that of a header that is not in the list.
abbrev pub IsOutside : ℕ → List ℕ → Type 0
IsOutside p hs = (p ≡ 0) ⊎ ((l : ℕ) × (p ≡ l + 4) × (l % 8 ≡ 0) × (occurs l hs ≡ 0))

-- The rest of a list, behind an element whose link is `prev`.
join_behind :
    (m m' : Words) (prev h next : ℕ) (ys : List ℕ)
    → Joined m m' prev next
    → IsOutside prev ys
    → Proper ys
    → next ≡ link_behind ys
    → Chain m (h + 4) next ys
    → Chain m' prev next ys
join_behind m m' prev h next [] j before proper e c = c
join_behind m m' prev h next (y ∷ ys) j before proper e c =
    let y_proper = proper y (ground arith) in
    let next_y : next ≡ y + 4 = e in
    let apart : (g : ℕ) → 1 ≤ occurs g (y ∷ ys) → (prev ≡ 0) ⊎ (g + 8 ≢ prev + 4) = λ g one.
      elim before [
        | inl none_before ↦ inl none_before
        | inr (l, is_l, aligned, gone) ↦ inr (λ same.
            let g_l : g ≡ l = omega arith in
            let gone' : occurs g (y ∷ ys) ≡ 0 = ap (λ (k : ℕ). occurs k (y ∷ ys)) g_l ∙ gone in
            absurd (omega arith))
      ] in
    let apart' : (g : ℕ) → 1 ≤ occurs g (y ∷ ys) → (prev ≡ 0) ⊎ (g + 4 ≢ prev + 4) = λ g one.
      elim before [
        | inl none_before ↦ inl none_before
        | inr (l, is_l, aligned, gone) ↦
            let g_proper = proper g one in inr (λ same. absurd (omega (arith, g_proper.0)))
      ] in
    let last : m' (y + 8) ≡ m (y + 8) =
      j.others (y + 8) (apart y (ground arith)) (inr (λ same. absurd (omega arith))) in
    (
      next_y,
      ap m' (sym next_y) ∙ j.backward (λ zero_next. absurd (omega arith)),
      rw last (
          Chain-frame m m' (y + 4) (m (y + 8)) ys c.2 (λ g one.
            let in_all : 1 ≤ occurs g (y ∷ ys) = omega (arith, one) in
            let g_proper = proper g in_all in
            let g_not_y : g ≢ y = λ same.
              let twice : 1 ≤ occurs y ys = rw same at one in
              absurd (ground (arith, twice, y_proper.2)) in
            (
              j.others (g + 4) (apart' g in_all) (inr (λ same. g_not_y (omega arith))),
              j.others (g + 8) (apart g in_all)
                  (inr (λ same. absurd (omega (arith, g_proper.0, y_proper.0)))),
            ))),
    )

-- The first link after an element was taken out behind `xs`.
abbrev pub head_after : (cur next : ℕ) → List ℕ → ℕ
head_after cur next [] = next
head_after cur next (x ∷ xs) = cur

-- The element in front keeps its links, but for the one to the element that was taken out.
front_links :
    (m m' : Words) (prev next x : ℕ) (xs ys : List ℕ)
    → Joined m m' prev next
    → prev ≡ link_before (x + 4) xs
    → next ≡ link_behind ys
    → x % 8 ≡ 0
    → ((g : ℕ) → 1 ≤ occurs g xs → (g % 8 ≡ 0) × (g ≢ x))
    → ((g : ℕ) → 1 ≤ occurs g ys → (g % 8 ≡ 0) × (g ≢ x))
    → (m' (x + 4) ≡ m (x + 4)) × (m' (x + 8) ≡ head_after (m (x + 8)) next xs)
front_links m m' prev next x xs ys j is_prev is_next aligned left right =
    let next_apart : (x + 4 ≢ next) × (x + 8 ≢ next) = next_cases ys is_next right in
    elim (link_before-cases (x + 4) xs) [
      | inl (nothing, e) ↦
          let is_x : prev + 4 ≡ x + 8 = omega arith in
          (
            j.others (x + 4) (inr (λ same. absurd (omega arith))) (inr next_apart.0),
            rw nothing (ap m' (sym is_x) ∙ j.forward (λ zero_prev. absurd (omega arith))),
          )
      | inr (l, e, one) ↦
          let l_left = left l one in
          (
            j.others (x + 4) (inr (λ same. absurd (omega (arith, l_left.0)))) (inr next_apart.0),
            j.others (x + 8) (inr (λ same. l_left.1 (omega arith))) (inr next_apart.1)
                ∙ kept l xs one,
          )
    ]
  where
    next_cases :
        (zs : List ℕ)
        → next ≡ link_behind zs
        → ((g : ℕ) → 1 ≤ occurs g zs → (g % 8 ≡ 0) × (g ≢ x))
        → (x + 4 ≢ next) × (x + 8 ≢ next)
    next_cases [] e apart = ((λ same. absurd (omega arith)), (λ same. absurd (omega arith)))
    next_cases (y ∷ zs) e apart =
        let y_apart = apart y (ground arith) in
        ((λ same. y_apart.1 (omega arith)), (λ same. absurd (omega (arith, y_apart.0))))

    kept : (l : ℕ) (zs : List ℕ) → 1 ≤ occurs l zs → m (x + 8) ≡ head_after (m (x + 8)) next zs
    kept l [] one = absurd (omega arith)
    kept l (z ∷ zs) one = refl

tail-Proper : (x : ℕ) (hs : List ℕ) → Proper (x ∷ hs) → Proper hs
tail-Proper x hs proper h one =
    let whole = proper h (omega (arith, one)) in (whole.0, whole.1, omega (arith, whole.2, one))

-- The others of a list are not its first element.
others-apart : (x g : ℕ) (hs : List ℕ) → Proper (x ∷ hs) → 1 ≤ occurs g hs → (g % 8 ≡ 0) × (g ≢ x)
others-apart x g hs proper one =
    let whole = proper g (omega (arith, one)) in
    (whole.0, λ same. absurd (ground (arith, whole.2, one, same)))

-- Joining the links around an element takes it out of the chain.
pub Chain-Joined :
    (m m' : Words) (p cur prev h next : ℕ) (xs ys : List ℕ)
    → Joined m m' prev next
    → prev ≡ link_before p xs
    → next ≡ link_behind ys
    → Proper (xs ++ (h ∷ ys))
    → IsOutside p (xs ++ (h ∷ ys))
    → Chain m p cur (xs ++ (h ∷ ys))
    → Chain m' p (head_after cur next xs) (xs ++ ys)
Chain-Joined m m' p cur prev h next [] ys j is_prev is_next proper outside c =
    let links = Chain-links m p cur h [] ys c in
    let before : IsOutside prev ys = elim outside [
      | inl nothing ↦ inl (is_prev ∙ nothing)
      | inr (l, e, aligned, gone) ↦ inr (l, is_prev ∙ e, aligned, omega (arith, gone))
    ] in
    rw (← is_prev) (
      join_behind m m' prev h next ys j before (tail-Proper h ys proper) is_next
        (rw (is_next ∙ sym links.1) c.2))
Chain-Joined m m' p cur prev h next (x ∷ xs) ys j is_prev is_next proper outside c =
    let x_proper = proper x (ground arith) in
    let rest = xs ++ (h ∷ ys) in
    let whole = λ (g : ℕ). occurs-append g xs (h ∷ ys) in
    let links =
      front_links m m' prev next x xs ys j is_prev is_next x_proper.0
        (λ g one. others-apart x g rest proper (omega (arith, one, whole g)))
        (λ g one. others-apart x g rest proper (omega (arith, one, whole g))) in
    (
      c.0,
      links.0 ∙ c.1,
      rw links.1 (
          Chain-Joined m m' (x + 4) (m (x + 8)) prev h next xs ys j is_prev is_next
            (tail-Proper x rest proper) (inr (x, refl, x_proper.0, ground (arith, x_proper.2)))
            c.2),
    )
