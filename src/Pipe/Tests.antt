-- ===== src/Pipe/Tests.antt =====
-- Runs of the pipes of src/pipe.c, with counters that wrap.
use waka_b4_research.Base.{◌-◌, ◌^◌, ◌≡◌, refl, true, false, List, [], ◌∷◌, arith, replicate}
use waka_b4_research.Pipe.{
  Pipe, acquires, pipewrite, write_loop, piperead, piperead_return, read_loop, put, skip, pipealloc,
  undone, pipeclose, frees, releases, wakes_writer,
}
use waka_b4_research.Pipe.Ring.{IsPipe}
use waka_b4_research.Pipe.Fifo.{Op, writes, reads, effects, KeepsOrder, effects-KeepsOrder}

abbrev old_pipe : Pipe
old_pipe = record {
  bytes = replicate 512 0;
  nread = 2 ^ 32 - 1;
  nwrite = 2 ^ 32 - 1;
  readopen = true;
  writeopen = true;
  calls = [];
}

old_pipe-IsPipe : IsPipe old_pipe
old_pipe-IsPipe = record {
  array = refl;
  read_word = omega arith;
  write_word = omega arith;
  fits = omega arith;
}

abbrev two_bytes : Pipe
two_bytes = record old_pipe { nread = 2 ^ 32 - 2; nwrite = 0 }

two_bytes-IsPipe : IsPipe two_bytes
two_bytes-IsPipe = record {
  array = refl;
  read_word = omega arith;
  write_word = omega arith;
  fits = omega arith;
}

abbrev talk : List Op
talk = writes false (7 ∷ 8 ∷ 9 ∷ []) ∷ reads false 2 ∷ reads false 2 ∷ []

effects-KeepsOrder_example : KeepsOrder old_pipe (effects talk old_pipe)
effects-KeepsOrder_example = effects-KeepsOrder talk old_pipe old_pipe-IsPipe

talk_through : (effects talk old_pipe).received ≡ 7 ∷ 8 ∷ 9 ∷ []
unfolding effects pipewrite write_loop put piperead piperead_return read_loop skip
talk_through = refl

no_page : pipealloc 5 6 0 [] ≡ undone (5 ∷ 6 ∷ [])
unfolding pipealloc
no_page = refl

both_closed :
    (pipeclose false (pipeclose true old_pipe)).calls
    ≡ frees ∷ releases ∷ wakes_writer ∷ acquires ∷ (pipeclose true old_pipe).calls
unfolding pipeclose
both_closed = refl
