-- ===== src/Kheap/Remove.antt =====
-- A free block leaves the free list of kernel/kheap.c.
use deanos.Kheap.{free_list_remove, Heap, Words, store}
use deanos.Prelude.{
  ℕ, List, ◌≡◌, ◌≤◌, ◌+◌, ◌++◌, ◌≢◌, ◌⊎◌, ◌∷◌, arith, false, Bool-cases, ◌%◌, ◌==◌, if◌then◌else◌,
  inl, [], ap, inr, ◌∙◌, refl, true,
}
use deanos.Kheap.Blocks.{Block, in_free}
use deanos.Kheap.Chain.{
  occurs, Joined, link_before-cases, occurs-append, link_behind, link_before, Proper, Chain-links,
  Chain, head_after, Chain-Joined,
}
use deanos.Kheap.Valid.{IsHeap, listed-Proper, listed-free, Tiles-links, free_at-in_free}

-- The memory outside of the free blocks stays.
abbrev pub Spares : (a : ℕ) → List Block → Words → Words → Type 0
Spares a bs m m' = (w : ℕ) → in_free a bs w ≡ false → m' w ≡ m w

-- `h` stands in the list.
record Found (h : ℕ) (hs : List ℕ) : Type 0 where
  left : List ℕ
  right : List ℕ
  parts : hs ≡ left ++ (h ∷ right)

occurs-Found : (h : ℕ) (hs : List ℕ) → 1 ≤ occurs h hs → Found h hs
occurs-Found h [] one = absurd (omega arith)
occurs-Found h (x ∷ xs) one = elim (Bool-cases (x == h)) [
  | inl here ↦
      let same : x ≡ h = ground (arith, here) in
      record { left = []; right = xs; parts = ap (λ (k : ℕ). k ∷ xs) same }
  | inr other ↦
      let rest = occurs-Found h xs (ground (arith, other)) in
      record {
        left = x ∷ rest.left;
        right = rest.right;
        parts = ap (λ (l : List ℕ). x ∷ l) rest.parts;
      }
]

pub store_self : (m : Words) (a v w : ℕ) → w ≡ a → store m a v w ≡ v
store_self m a v w e = ground (arith, e)

pub store_ne : (m : Words) (a v w : ℕ) → w ≢ a → store m a v w ≡ m w
store_ne m a v w e = ground (arith, e)

-- A link is 0 or the address of a node, which is 4 above a multiple of 8.
abbrev pub IsLink : ℕ → Type 0
IsLink p = (p ≡ 0) ⊎ (p % 8 ≡ 4)

stores-Joined :
    (m : Words) (prev next : ℕ)
    → IsLink prev
    → IsLink next
    → Joined m
        (if next == 0
          then (if prev == 0 then m else store m (prev + 4) next)
          else store (if prev == 0 then m else store m (prev + 4) next) next prev)
        prev
        next
stores-Joined m prev next prev_link next_link = record {
  forward = λ some_prev. ground (arith, some_prev, prev_link, next_link);
  backward = λ some_next. ground (arith, some_next, prev_link, next_link);
  others = λ w apart apart'. ground (arith, apart, apart');
}

-- What `free_list_remove` writes.
removed-Joined :
    (h : ℕ) (s : Heap)
    → s.mem (h + 4) ≢ h + 4
    → IsLink (s.mem (h + 4))
    → IsLink (s.mem (h + 8))
    → h % 8 ≡ 0
    → Joined s.mem (free_list_remove h s).mem (s.mem (h + 4)) (s.mem (h + 8))
unfolding free_list_remove
removed-Joined h s apart prev_link next_link aligned =
    let prev = s.mem (h + 4) in
    let next = s.mem (h + 8) in
    let m = if prev == 0 then s.mem else store s.mem (prev + 4) next in
    let m_next : m (h + 8) ≡ next = ground (arith, apart) in
    let m_prev : m (h + 4) ≡ prev = ground (arith, prev_link, aligned) in
    rw (m_next, m_prev) (stores-Joined s.mem prev next prev_link next_link)

-- `h` was taken off the free list.
pub record Unlisted (a e : ℕ) (loose : ℕ → ℕ) (h : ℕ) (blocks : List Block) (s s' : Heap)
    : Type 0 where
  pub rest : List ℕ
  pub valid : IsHeap a e (λ g. (if h == g then 1 else 0) + loose g) s' blocks rest
  pub spared : Spares a blocks s.mem s'.mem

module _ (a e : ℕ) (loose : ℕ → ℕ) (h : ℕ) (s : Heap) (blocks : List Block) (left right : List ℕ)
    (v : IsHeap a e loose s blocks (left ++ (h ∷ right))) where
  -- The links around `h`.
  links : (s.mem (h + 4) ≡ link_before 0 left) × (s.mem (h + 8) ≡ link_behind right)
  links = Chain-links s.mem 0 s.free_head h left right v.chain

  here : 1 ≤ occurs h (left ++ (h ∷ right))
  here = ground (arith, occurs-append h left (h ∷ right))

  proper : Proper (left ++ (h ∷ right))
  proper = listed-Proper loose s blocks (left ++ (h ∷ right)) v

  in_left :
      (g : ℕ) → 1 ≤ occurs g left → (g % 8 ≡ 0) × (g ≢ h) × (1 ≤ occurs g (left ++ (h ∷ right)))
  in_left g one =
      let whole = occurs-append g left (h ∷ right) in
      let p = proper g (omega (arith, whole)) in
      (p.0, (λ same. absurd (ground (arith, whole, p.2, one, same))), omega (arith, whole))

  in_right : (g : ℕ) → 1 ≤ occurs g right → (g % 8 ≡ 0) × (1 ≤ occurs g (left ++ (h ∷ right)))
  in_right g one =
      let whole = occurs-append g left (h ∷ right) in
      let all : 1 ≤ occurs g (left ++ (h ∷ right)) = omega (arith, whole) in ((proper g all).0, all)

  -- What the link before `h` is.
  prev_cases :
      (s.mem (h + 4) ≡ 0)
      ⊎ ((l : ℕ) × (s.mem (h + 4) ≡ l + 4)
          × (l % 8 ≡ 0)
          × (l ≢ h)
          × (1 ≤ occurs l (left ++ (h ∷ right))))
  prev_cases = elim (link_before-cases 0 left) [
    | inl (nothing, none_before) ↦ inl (links.0 ∙ none_before)
    | inr (l, is_l, one) ↦ let i = in_left l one in inr (l, links.0 ∙ is_l, i.0, i.1, i.2)
  ]

  next_cases :
      (s.mem (h + 8) ≡ 0)
      ⊎ ((y : ℕ) × (s.mem (h + 8) ≡ y + 4) × (y % 8 ≡ 0) × (1 ≤ occurs y (left ++ (h ∷ right))))
  next_cases = by_right right in_right links.1
    where
      by_right :
          (ys : List ℕ)
          → ((g : ℕ) → 1 ≤ occurs g ys → (g % 8 ≡ 0) × (1 ≤ occurs g (left ++ (h ∷ right))))
          → s.mem (h + 8) ≡ link_behind ys
          → (s.mem (h + 8) ≡ 0)
            ⊎ ((y : ℕ) × (s.mem (h + 8) ≡ y + 4)
                × (y % 8 ≡ 0)
                × (1 ≤ occurs y (left ++ (h ∷ right))))
      by_right [] all is_next = inl is_next
      by_right (y ∷ ys) all is_next = let i = all y (ground arith) in inr (y, is_next, i.0, i.1)

  joined : Joined s.mem (free_list_remove h s).mem (s.mem (h + 4)) (s.mem (h + 8))
  joined =
      removed-Joined h s
        (elim prev_cases [
          | inl nothing ↦ λ same. absurd (omega arith)
          | inr (l, is_l, aligned, apart, one) ↦ λ same. apart (omega arith)
        ])
        (elim prev_cases [
          | inl nothing ↦ inl nothing
          | inr (l, is_l, aligned, apart, one) ↦ inr (omega arith)
        ])
        (elim next_cases [
          | inl nothing ↦ inl nothing
          | inr (y, is_y, aligned, one) ↦ inr (omega arith)
        ])
        (proper h here).0

  -- Every word but two links of listed blocks stays.
  others :
      (w : ℕ)
      → ((g : ℕ) → 1 ≤ occurs g (left ++ (h ∷ right)) → (w ≢ g + 4) × (w ≢ g + 8))
      → (free_list_remove h s).mem w ≡ s.mem w
  others w apart =
      joined.others w
        (elim prev_cases [
          | inl nothing ↦ inl nothing
          | inr (l, is_l, aligned, l_apart, one) ↦ inr (λ same. (apart l one).1 (omega arith))
        ])
        (elim next_cases [
          | inl nothing ↦ inl nothing
          | inr (y, is_y, aligned, one) ↦ inr (λ same. (apart y one).0 (omega arith))
        ])

  new_head : (free_list_remove h s).free_head ≡ head_after s.free_head (s.mem (h + 8)) left
  unfolding free_list_remove
  new_head = elim (link_before-cases 0 left) [
    | inl (nothing, none_before) ↦
        let no_prev : (s.mem (h + 4) == 0) ≡ true = ground (arith, links.0, none_before) in
        rw (no_prev, nothing) refl
    | inr (l, is_l, one) ↦
        let some_prev : (s.mem (h + 4) == 0) ≡ false = ground (arith, links.0, is_l) in
        rw some_prev (kept l left one)
  ]
    where
      kept :
          (l : ℕ) (zs : List ℕ)
          → 1 ≤ occurs l zs
          → s.free_head ≡ head_after s.free_head (s.mem (h + 8)) zs
      kept l [] one = absurd (omega arith)
      kept l (z ∷ zs) one = refl

  new-Chain : Chain (free_list_remove h s).mem 0 (free_list_remove h s).free_head (left ++ right)
  new-Chain = rw new_head (
      Chain-Joined s.mem (free_list_remove h s).mem 0 s.free_head (s.mem (h + 4)) h (s.mem (h + 8))
        left right joined links.0 links.1 proper (inl refl) v.chain)

  listed_parts : Unlisted a e loose h blocks s (free_list_remove h s)
  unfolding free_list_remove
  listed_parts =
      let m' = (free_list_remove h s).mem in
      let free = listed-free loose s blocks (left ++ (h ∷ right)) v in
      let whole = λ (g : ℕ). occurs-append g left (h ∷ right) in
      record {
        rest = left ++ right;
        valid = record {
          base_is = v.base_is;
          end_is = v.end_is;
          ready = v.ready;
          low = v.low;
          based = v.based;
          tiles =
              Tiles-links s.mem m' a blocks e v.tiles
                (λ w le lt no_link. others w (λ g one. no_link g (free g one)));
          chain = new-Chain;
          complete = λ g. omega (arith, v.complete g, whole g, occurs-append g left right);
        };
        spared = λ w out. others w (λ g one.
            let inside = free_at-in_free s.mem g a blocks e w v.tiles (free g one) in
            (
              (λ same. absurd (ground (arith, out, inside (omega arith) (omega arith)))),
              (λ same. absurd (ground (arith, out, inside (omega arith) (omega arith)))),
            ));
      }

-- A listed block is taken off the free list, and no word outside of free blocks changes.
pub free_list_remove-Unlisted :
    (a e : ℕ) (loose : ℕ → ℕ) (h : ℕ) (s : Heap) (blocks : List Block) (listed : List ℕ)
    → IsHeap a e loose s blocks listed
    → 1 ≤ occurs h listed
    → Unlisted a e loose h blocks s (free_list_remove h s)
free_list_remove-Unlisted a e loose h s blocks listed v one =
    let found = occurs-Found h listed one in
    listed_parts a e loose h s blocks found.left found.right (rw (← found.parts) v)
