-- ===== src/Vfs/Pipe/Examples.antt =====
-- Pipes of kernel/vfs.c with a reader and a writer.
use deanos.Vfs.Pipe.{
  pipe_read, pipe_write, Pipe, PipeEnd, read_available, pipe_open, write_available, new_pipe,
  asleep, done,
}
use deanos.Vfs.Pipe.Runs.{
  InOrder, PipeRuns, PipeRuns-InOrder, reader_turn, writer_turn, opened, made,
}
use deanos.Prelude.{false, ◌∷◌, true, [], ◌≡◌, refl}

abbrev reader : PipeEnd
reader = record { is_writer = false; refs = 0 }

abbrev writer : PipeEnd
writer = record { is_writer = true; refs = 0 }

-- Both ends are opened, three bytes are written, and two of them are read.
abbrev open_pipe : Pipe
open_pipe = (pipe_open writer (pipe_open reader new_pipe).1).1

abbrev filled : Pipe
filled = (pipe_write writer 0 (7 ∷ 8 ∷ 9 ∷ []) open_pipe).2

filled_turn : (pipe_write writer 0 (7 ∷ 8 ∷ 9 ∷ []) open_pipe).0 ≡ done 3
unfolding pipe_write write_available pipe_open
filled_turn = refl

read_turn : (pipe_read reader 0 2 filled).1 ≡ 7 ∷ 8 ∷ []
unfolding pipe_read read_available pipe_write write_available pipe_open
read_turn = refl

-- A reader that asks for more waits while there is a writer.
waiting_turn : (pipe_read reader 0 5 filled).0 ≡ asleep 3
unfolding pipe_read read_available pipe_write write_available pipe_open
waiting_turn = refl

runs : PipeRuns (pipe_read reader 0 2 filled).2 (7 ∷ 8 ∷ 9 ∷ []) (7 ∷ 8 ∷ [])
unfolding pipe_read read_available pipe_write write_available pipe_open
runs = reader_turn filled (7 ∷ 8 ∷ 9 ∷ []) [] reader 0 2 (
    writer_turn open_pipe [] [] writer 0 (7 ∷ 8 ∷ 9 ∷ [])
      (opened (pipe_open reader new_pipe).1 [] [] writer (opened new_pipe [] [] reader made)))

PipeRuns-InOrder_example : InOrder (pipe_read reader 0 2 filled).2 (7 ∷ 8 ∷ 9 ∷ []) (7 ∷ 8 ∷ [])
PipeRuns-InOrder_example =
    PipeRuns-InOrder (pipe_read reader 0 2 filled).2 (7 ∷ 8 ∷ 9 ∷ []) (7 ∷ 8 ∷ []) runs
