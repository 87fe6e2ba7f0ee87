-- ===== src/Vfs/Pipe.antt =====
-- The anonymous pipes of kernel/vfs.c: a ring of 1024 bytes, and counts of the ends that are open.
--
-- A call that has to wait calls task_sleep_ticks(1) and goes on with the loop afterwards. So a call is one
-- or more turns, between which other tasks run: `pipe_read` and `pipe_write` are one turn, which takes
-- the bytes that were moved before.
pub mod Order
pub mod Runs
mod Examples
use deanos.Prelude.{
  ℕ, Option, Bool, List, [], if◌then◌else◌, ◌+◌, ◌∷◌, ◌-◌, ◌%◌, set, not, suc, ◌==◌, length, ◌^◌,
  ◌&&◌, get_or, leb, none, ◌||◌, zero, some, replicate,
}

abbrev pub vfs_pipe_capacity : ℕ
vfs_pipe_capacity = 1024

pub record Pipe : Type 0 where
  pub buffer : List ℕ
  pub head : ℕ
  pub tail : ℕ
  pub size : ℕ
  pub readers : ℕ
  pub writers : ℕ

pub record PipeEnd : Type 0 where
  pub is_writer : Bool
  pub refs : ℕ

-- What `vfs_fd_pipe` makes, of cleared memory.
abbrev pub new_pipe : Pipe
new_pipe = record {
  buffer = replicate vfs_pipe_capacity 0;
  head = 0;
  tail = 0;
  size = 0;
  readers = 0;
  writers = 0;
}

-- The counts are uint32_t.
unfoldable pub pipe_open : PipeEnd → Pipe → PipeEnd × Pipe
pipe_open end p =
    let more = λ (n : ℕ). (n + 1) % 2 ^ 32 in
    let end' = record end { refs = more end.refs } in
    if end.is_writer
    then (end', record p { writers = more p.writers })
    else (end', record p { readers = more p.readers })

-- `none` stands for memory that was given back.
unfoldable pub pipe_close : PipeEnd → Pipe → Option PipeEnd × Option Pipe
pipe_close end p =
    let p' =
      if end.is_writer
      then record p { writers = p.writers - 1 }
      else record p { readers = p.readers - 1 } in
    let left = end.refs - 1 in
    let unused = p'.readers == 0 && p'.writers == 0 in
    if left == 0
    then (none, if unused then none else some p')
    else (some (record end { refs = left }), some p')

-- How a turn ends, with the bytes that were moved since the call began.
pub data Turn : Type 0 where
  failed : Turn
  done : ℕ → Turn
  asleep : ℕ → Turn

-- The loop of `pipe_read` up to the next sleep or the end: at most `n` more bytes.
unfoldable pub read_available : (n : ℕ) → Pipe → List ℕ × Pipe
read_available zero p = ([], p)
read_available (suc n) p =
    let c = get_or p.buffer p.head 0 in
    let rest =
      read_available n (record p { head = (p.head + 1) % vfs_pipe_capacity; size = p.size - 1 }) in
    if p.size == 0 then ([], p) else (c ∷ rest.0, rest.1)

-- The bytes that this turn puts into the buffer are the second part.
unfoldable pub pipe_read : (end : PipeEnd) → (out size : ℕ) → Pipe → Turn × List ℕ × Pipe
pipe_read end out size p =
    let (bytes, p') = read_available (size - out) p in
    let out' = out + length bytes in
    if end.is_writer
    then (failed, [], p)
    else if leb size out' || p'.writers == 0
    then (done out', bytes, p')
    else (asleep out', bytes, p')

-- The loop of `pipe_write` up to the next sleep or the end, with the number of bytes that it moves.
unfoldable pub write_available : List ℕ → Pipe → ℕ × Pipe
write_available [] p = (0, p)
write_available (c ∷ cs) p =
    let rest = write_available cs (record p {
      buffer = set p.buffer p.tail c;
      tail = (p.tail + 1) % vfs_pipe_capacity;
      size = p.size + 1;
    }) in
    if p.readers == 0
    then (0, p)
    else if leb vfs_pipe_capacity p.size
    then (0, p)
    else (1 + rest.0, rest.1)

-- `bytes` are those of the buffer from `written` on; the second part is the number that this turn moves.
unfoldable pub pipe_write :
    (end : PipeEnd) → (written : ℕ) → (bytes : List ℕ) → Pipe → Turn × ℕ × Pipe
pipe_write end written bytes p =
    let (n, p') = write_available bytes p in
    let written' = written + n in
    if not end.is_writer
    then (failed, 0, p)
    else if n == length bytes
    then (done written', n, p')
    else if p'.readers == 0
    then (if written' == 0 then (failed, n, p') else (done written', n, p'))
    else (asleep written', n, p')
