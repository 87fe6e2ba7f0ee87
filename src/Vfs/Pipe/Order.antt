-- ===== src/Vfs/Pipe/Order.antt =====
-- A turn on a pipe of kernel/vfs.c keeps the order of the bytes.
use mathlib.Core.List
use deanos.Vfs.Pipe.{write_available, read_available, Pipe, vfs_pipe_capacity}
use deanos.Prelude.{
  ℕ, List, length, ◌++◌, ◌+◌, ◌<◌, take, ◌≡◌, ◌∷◌, ◌≤◌, set, arith, sym, ◌%◌, [], suc, get_or,
  length-append, ◌-◌, subst, if_split, length-set, ◌∙◌, ◌==◌, ap, leb, Bool-cases, take-snoc, inl,
  get_or-set_self, get_or-last, inr, ◌≢◌, get_or-set_ne, get_or-snoc, zero,
}

-- The pipe after `wrote` was written to it, of which `n` bytes were read.
pub record Carries (p : Pipe) (wrote : List ℕ) (n : ℕ) : Type 0 where
  pub full : length p.buffer ≡ vfs_pipe_capacity
  pub all : length wrote ≡ n + p.size
  pub few : p.size ≤ vfs_pipe_capacity
  pub head_at : p.head ≡ n % vfs_pipe_capacity
  pub tail_at : p.tail ≡ length wrote % vfs_pipe_capacity
  pub kept :
      (i : ℕ)
      → n ≤ i
      → i < length wrote
      → get_or p.buffer (i % vfs_pipe_capacity) 0 ≡ get_or wrote i 0

-- A turn of a reader takes the next bytes.
pub record TookNext (p' : Pipe) (wrote : List ℕ) (n : ℕ) (bytes : List ℕ) : Type 0 where
  pub left : Carries p' wrote (n + length bytes)
  pub next : take (n + length bytes) wrote ≡ take n wrote ++ bytes

pub read_available-TookNext :
    (size : ℕ) (p : Pipe) (wrote : List ℕ) (n : ℕ)
    → Carries p wrote n
    → TookNext (read_available size p).1 wrote n (read_available size p).0
unfolding read_available
read_available-TookNext zero p wrote n h =
    let same : n + 0 ≡ n = omega arith in
    record { left = rw same h; next = rw same (sym (List.append-nil (take n wrote))) }
read_available-TookNext (suc size) p wrote n h =
    let c = get_or p.buffer p.head 0 in
    let p' : Pipe = record p { head = (p.head + 1) % vfs_pipe_capacity; size = p.size - 1 } in
    let r = read_available size p' in
    if_split (λ (q : List ℕ × Pipe). TookNext q.1 wrote n q.0) (p.size == 0)
      (λ empty.
        let same : n + 0 ≡ n = omega arith in
        record { left = rw same h; next = rw same (sym (List.append-nil (take n wrote))) })
      (λ more.
        let positive : 1 ≤ p.size = ground (arith, more) in
        let h' : Carries p' wrote (n + 1) = record {
          full = h.full;
          all = omega (arith, h.all);
          few = omega (arith, h.few);
          head_at = omega (arith, h.head_at);
          tail_at = h.tail_at;
          kept = λ i le lt. h.kept i (omega (arith, le)) lt;
        } in
        let t = read_available-TookNext size p' wrote (n + 1) h' in
        let moved : n + 1 + length r.0 ≡ n + suc (length r.0) = omega arith in
        let one : n + 1 ≡ suc n = omega arith in
        let is_c : c ≡ get_or wrote n 0 =
          ap (λ (k : ℕ). get_or p.buffer k 0) h.head_at
          ∙ h.kept n (omega arith) (omega (arith, h.all)) in
        let step : take (n + 1) wrote ≡ take n wrote ++ (c ∷ []) =
          ap (λ (k : ℕ). take k wrote) one
          ∙ take-snoc n wrote 0 (omega (arith, h.all))
          ∙ ap (λ (x : ℕ). take n wrote ++ (x ∷ [])) (sym is_c) in
        record {
          left = subst (λ (k : ℕ). Carries r.1 wrote k) moved t.left;
          next =
              ap (λ (k : ℕ). take k wrote) (sym moved)
              ∙ t.next
              ∙ ap (λ (l : List ℕ). l ++ r.0) step
              ∙ List.append_assoc (take n wrote) (c ∷ []) r.0;
        })

-- A byte that is written behind the others.
written-Carries :
    (c : ℕ) (p : Pipe) (wrote : List ℕ) (n : ℕ)
    → Carries p wrote n
    → p.size < vfs_pipe_capacity
    → Carries
        (record p {
          buffer = set p.buffer p.tail c;
          tail = (p.tail + 1) % vfs_pipe_capacity;
          size = p.size + 1;
        })
        (wrote ++ (c ∷ []))
        n
written-Carries c p wrote n h room =
    let longer : length (wrote ++ (c ∷ [])) ≡ length wrote + 1 = length-append wrote (c ∷ []) in
    record {
      full = length-set p.buffer p.tail c ∙ h.full;
      all = omega (arith, longer, h.all);
      few = omega (arith, room);
      head_at = h.head_at;
      tail_at = omega (arith, longer, h.tail_at);
      kept = λ i le lt. elim (Bool-cases (i == length wrote)) [
        | inl last ↦
            let at : i ≡ length wrote = ground (arith, last) in
            let here : i % vfs_pipe_capacity ≡ p.tail = omega (arith, at, h.tail_at) in
            ap (λ (k : ℕ). get_or (set p.buffer p.tail c) k 0) here
            ∙ get_or-set_self p.buffer p.tail c 0 (omega (arith, h.full, h.tail_at))
            ∙ sym (get_or-last wrote c i 0 at)
        | inr before ↦
            let lt' : i < length wrote = ground (arith, before, lt, longer) in
            let apart : p.tail ≢ (i % vfs_pipe_capacity) =
              λ same. absurd (omega (arith, same, h.tail_at, lt', le, h.all, room)) in
            get_or-set_ne p.buffer p.tail (i % vfs_pipe_capacity) c 0 apart
            ∙ h.kept i le lt'
            ∙ sym (get_or-snoc wrote c i 0 lt')
      ];
    }

pub write_available-Carries :
    (bytes : List ℕ) (p : Pipe) (wrote : List ℕ) (n : ℕ)
    → Carries p wrote n
    → Carries (write_available bytes p).1 (wrote ++ take (write_available bytes p).0 bytes) n
unfolding write_available
write_available-Carries [] p wrote n h = rw (List.append-nil wrote) h
write_available-Carries (c ∷ cs) p wrote n h =
    let p' : Pipe = record p {
      buffer = set p.buffer p.tail c;
      tail = (p.tail + 1) % vfs_pipe_capacity;
      size = p.size + 1;
    } in
    let same : Carries p (wrote ++ []) n =
      subst (λ (l : List ℕ). Carries p l n) (sym (List.append-nil wrote)) h in
    if_split (λ (r : ℕ × Pipe). Carries r.1 (wrote ++ take r.0 (c ∷ cs)) n) (p.readers == 0)
      (λ unread. same)
      (λ read_by.
        if_split (λ (r : ℕ × Pipe). Carries r.1 (wrote ++ take r.0 (c ∷ cs)) n)
          (leb vfs_pipe_capacity p.size) (λ no_room. same)
          (λ room.
            let r = write_available cs p' in
            let one : 1 + r.0 ≡ suc r.0 = omega arith in
            let next =
              write_available-Carries cs p' (wrote ++ (c ∷ [])) n
                (written-Carries c p wrote n h (ground (arith, room))) in
            subst (λ (k : ℕ). Carries r.1 (wrote ++ take k (c ∷ cs)) n) (sym one)
              (subst (λ (l : List ℕ). Carries r.1 l n)
                (List.append_assoc wrote (c ∷ []) (take r.0 cs)) next)))
