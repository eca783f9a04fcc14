-- ===== src/FdFgets/Tests.antt =====
-- A reader of sixteen bytes over a descriptor that gives them in two parts, and the theorems at it.
use fapolicyd.Prelude.{◌≡◌, refl, false, some, List, [], ◌∷◌, ◌++◌, replicate, arith}
use fapolicyd.Prelude.Bytes.{codes}
use fapolicyd.FdFgets.{
  FdFgetsState, mem_malloc, fd_setvbuf_r, fd_fgets_r, fill, take_line, read_chunk, line_end, Chunk,
  interrupted, bytes, got_line,
}
use fapolicyd.FdFgets.Stream.{run, run-stream, content, bytes_of_all, IsValid}
use fapolicyd.FdFgets.Reading.{IsReading, no_failure}
use fapolicyd.FdFgets.Drain.{run-drains, all_at_least_two}

abbrev reader : FdFgetsState
reader = record {
  skipped = 0;
  unread = [];
  room = 16;
  eof = false;
  mem_type = mem_malloc;
  buff_size = 17;
}

-- "ab\nc", an interruption, and "d\n"
abbrev two_parts : List Chunk
two_parts = bytes 97 (98 ∷ 10 ∷ 99 ∷ []) ∷ interrupted ∷ bytes 100 (10 ∷ []) ∷ []

reader_made : fd_setvbuf_r (some []) 17 mem_malloc ≡ some reader
unfolding fd_setvbuf_r
reader_made = refl

lines_read :
    (run reader (9 ∷ 9 ∷ 9 ∷ []) two_parts).0
    ≡ got_line (codes "ab\n") ∷ got_line (codes "cd\n") ∷ got_line [] ∷ []
unfolding run fd_fgets_r fill take_line read_chunk line_end
lines_read = refl

reader-IsReading : IsReading reader two_parts
unfolding no_failure
reader-IsReading = record {
  valid = omega arith;
  has_room = omega arith;
  reads = refl;
  no_failures = refl;
  ended = λ p. cc;
}

run-stream_example :
    IsValid (run reader (9 ∷ 2 ∷ []) two_parts).1
    × (bytes_of_all (run reader (9 ∷ 2 ∷ []) two_parts).0
          ++ ((run reader (9 ∷ 2 ∷ []) two_parts).1.unread
              ++ content (run reader (9 ∷ 2 ∷ []) two_parts).2)
        ≡ codes "ab\ncd\n")
unfolding content
run-stream_example = run-stream reader (9 ∷ 2 ∷ []) two_parts (omega arith)

run-drains_example : bytes_of_all (run reader (replicate 12 9) two_parts).0 ≡ codes "ab\ncd\n"
unfolding content all_at_least_two
run-drains_example =
    run-drains reader (replicate 12 9) two_parts reader-IsReading refl (omega arith)
