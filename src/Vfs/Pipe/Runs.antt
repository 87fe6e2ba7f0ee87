-- ===== src/Vfs/Pipe/Runs.antt =====
-- Readers and writers of a pipe of kernel/vfs.c, in any order.
use mathlib.Core.List
use mathlib.Core.Option.{some-injective, none-ne-some}
use deanos.Vfs.Pipe.{
  pipe_read, pipe_write, Pipe, pipe_open, pipe_close, PipeEnd, new_pipe, vfs_pipe_capacity,
  read_available, Turn, write_available,
}
use deanos.Prelude.{
  List, ℕ, length-replicate, [], ◌≡◌, if_split, ◌++◌, length, take, ◌+◌, some, arith, ◌≤◌, ◌-◌,
  refl, ◌%◌, if◌then◌else◌, Option, suc, ◌^◌, subst, ◌∷◌, ◌==◌, length-append, ap, ◌&&◌, sym, ◌∙◌,
  leb, not, zero, ◌||◌,
}
use deanos.Vfs.Pipe.Order.{Carries, read_available-TookNext, write_available-Carries}

-- Any order of turns of readers and writers and of opening and closing ends, with all bytes that were
-- written to the pipe and all that were read from it so far.
pub data PipeRuns : Pipe → (wrote got : List ℕ) → Type 0 where
  made : PipeRuns new_pipe [] []
  opened :
      (p : Pipe) (wrote got : List ℕ) (end : PipeEnd)
      → PipeRuns p wrote got
      → PipeRuns (pipe_open end p).1 wrote got
  closed :
      (p p' : Pipe) (wrote got : List ℕ) (end : PipeEnd)
      → PipeRuns p wrote got
      → (pipe_close end p).1 ≡ some p'
      → PipeRuns p' wrote got
  reader_turn :
      (p : Pipe) (wrote got : List ℕ) (end : PipeEnd) (out size : ℕ)
      → PipeRuns p wrote got
      → PipeRuns (pipe_read end out size p).2 wrote (got ++ (pipe_read end out size p).1)
  writer_turn :
      (p : Pipe) (wrote got : List ℕ) (end : PipeEnd) (written : ℕ) (bytes : List ℕ)
      → PipeRuns p wrote got
      → PipeRuns
          (pipe_write end written bytes p).2
          (wrote ++ take (pipe_write end written bytes p).1 bytes)
          got

-- What was read is the start of what was written, and the pipe has the rest.
pub record InOrder (p : Pipe) (wrote got : List ℕ) : Type 0 where
  pub carries : Carries p wrote (length got)
  pub prefix : got ≡ take (length got) wrote

counted-Carries :
    (p : Pipe) (wrote : List ℕ) (n readers writers : ℕ)
    → Carries p wrote n
    → Carries (record p { readers = readers; writers = writers }) wrote n
counted-Carries p wrote n readers writers h = record {
  full = h.full;
  all = h.all;
  few = h.few;
  head_at = h.head_at;
  tail_at = h.tail_at;
  kept = h.kept;
}

opened-Carries :
    (p : Pipe) (wrote : List ℕ) (n : ℕ) (end : PipeEnd)
    → Carries p wrote n
    → Carries (pipe_open end p).1 wrote n
unfolding pipe_open
opened-Carries p wrote n end h =
    if_split (λ (r : PipeEnd × Pipe). Carries r.1 wrote n) end.is_writer
      (λ writer. counted-Carries p wrote n p.readers ((p.writers + 1) % 2 ^ 32) h)
      (λ reader. counted-Carries p wrote n ((p.readers + 1) % 2 ^ 32) p.writers h)

closed-Carries :
    (p p' : Pipe) (wrote : List ℕ) (n : ℕ) (end : PipeEnd)
    → Carries p wrote n
    → (pipe_close end p).1 ≡ some p'
    → Carries p' wrote n
unfolding pipe_close
closed-Carries p p' wrote n end h =
    let less =
      if end.is_writer
      then record p { writers = p.writers - 1 }
      else record p { readers = p.readers - 1 } in
    let counted : Carries less wrote n =
      if_split (λ (q : Pipe). Carries q wrote n) end.is_writer
        (λ writer. counted-Carries p wrote n p.readers (p.writers - 1) h)
        (λ reader. counted-Carries p wrote n (p.readers - 1) p.writers h) in
    let P = λ (r : Option PipeEnd × Option Pipe). r.1 ≡ some p' → Carries p' wrote n in
    let still : some less ≡ some p' → Carries p' wrote n =
      λ e. subst (λ (q : Pipe). Carries q wrote n) (some-injective less p' e) counted in
    if_split P (end.refs - 1 == 0)
      (λ last.
        if_split (λ (o : Option Pipe). o ≡ some p' → Carries p' wrote n)
          (less.readers == 0 && less.writers == 0) (λ unused e. absurd (none-ne-some p' e))
          (λ in_use. still))
      (λ others. still)

read-InOrder :
    (p : Pipe) (wrote got : List ℕ) (end : PipeEnd) (out size : ℕ)
    → InOrder p wrote got
    → InOrder (pipe_read end out size p).2 wrote (got ++ (pipe_read end out size p).1)
unfolding pipe_read
read-InOrder p wrote got end out size h =
    let r = read_available (size - out) p in
    let t = read_available-TookNext (size - out) p wrote (length got) h.carries in
    let P = λ (q : Turn × List ℕ × Pipe). InOrder q.2 wrote (got ++ q.1) in
    let longer : length (got ++ r.0) ≡ length got + length r.0 = length-append got r.0 in
    let moved : InOrder r.1 wrote (got ++ r.0) = record {
      carries = subst (λ (k : ℕ). Carries r.1 wrote k) (sym longer) t.left;
      prefix =
          ap (λ (l : List ℕ). l ++ r.0) h.prefix
          ∙ sym t.next
          ∙ ap (λ (k : ℕ). take k wrote) (sym longer);
    } in
    if_split P end.is_writer
      (λ wrong. subst (λ (l : List ℕ). InOrder p wrote l) (sym (List.append-nil got)) h)
      (λ right.
        if_split P (leb size (out + length r.0) || r.1.writers == 0) (λ finished. moved)
          (λ waiting. moved))

write-InOrder :
    (p : Pipe) (wrote got : List ℕ) (end : PipeEnd) (written : ℕ) (bytes : List ℕ)
    → InOrder p wrote got
    → InOrder
        (pipe_write end written bytes p).2
        (wrote ++ take (pipe_write end written bytes p).1 bytes)
        got
unfolding pipe_write
write-InOrder p wrote got end written bytes h =
    let r = write_available bytes p in
    let P = λ (q : Turn × ℕ × Pipe). InOrder q.2 (wrote ++ take q.1 bytes) got in
    let c = h.carries in
    let moved : InOrder r.1 (wrote ++ take r.0 bytes) got = record {
      carries = write_available-Carries bytes p wrote (length got) c;
      prefix =
          h.prefix ∙ sym (take_within (length got) wrote (take r.0 bytes) (omega (arith, c.all)));
    } in
    if_split P (not end.is_writer)
      (λ wrong. subst (λ (l : List ℕ). InOrder p l got) (sym (List.append-nil wrote)) h)
      (λ right.
        if_split P (r.0 == length bytes) (λ finished. moved)
          (λ more.
            if_split P (r.1.readers == 0)
              (λ unread. if_split P (written + r.0 == 0) (λ nothing. moved) (λ part. moved))
              (λ waiting. moved)))
  where
    take_within : (n : ℕ) (xs ys : List ℕ) → n ≤ length xs → take n (xs ++ ys) ≡ take n xs
    take_within zero xs ys le = refl
    take_within (suc n) [] ys le = absurd (omega arith)
    take_within (suc n) (x ∷ xs) ys le =
        ap (λ (l : List ℕ). x ∷ l) (take_within n xs ys (omega arith))

-- However the turns of readers and writers follow one another, and ends are opened and closed between
-- them: all that was read from a pipe is, in this order, the start of all that was written to it, and the
-- pipe holds the rest, which is never more than 1024 bytes, from its head on.
pub PipeRuns-InOrder : (p : Pipe) (wrote got : List ℕ) → PipeRuns p wrote got → InOrder p wrote got
PipeRuns-InOrder _ _ _ made = record {
  carries = record {
    full = length-replicate {A = ℕ} vfs_pipe_capacity 0;
    all = refl;
    few = omega arith;
    head_at = refl;
    tail_at = refl;
    kept = λ i le lt. absurd (omega (arith, lt));
  };
  prefix = refl;
}
PipeRuns-InOrder _ _ _ (opened p wrote got end r) =
    let h = PipeRuns-InOrder p wrote got r in
    record { carries = opened-Carries p wrote (length got) end h.carries; prefix = h.prefix }
PipeRuns-InOrder _ _ _ (closed p p' wrote got end r e) =
    let h = PipeRuns-InOrder p wrote got r in
    record { carries = closed-Carries p p' wrote (length got) end h.carries e; prefix = h.prefix }
PipeRuns-InOrder _ _ _ (reader_turn p wrote got end out size r) =
    read-InOrder p wrote got end out size (PipeRuns-InOrder p wrote got r)
PipeRuns-InOrder _ _ _ (writer_turn p wrote got end written bytes r) =
    write-InOrder p wrote got end written bytes (PipeRuns-InOrder p wrote got r)
