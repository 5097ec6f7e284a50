-- ===== src/Shm/Channel/Tests.antt =====
-- The transfer of a file of five bytes through packets of two.
use mathlib.Core.Option.{some-injective}
use c_exercises.Base.{
  ℕ, zero, suc, ◌≤◌, ◌≡◌, refl, sym, subst, true, none, some, List, [], ◌∷◌, ◌++◌, arith, length,
  take, drop, take-length-take,
}
use c_exercises.Shm.Channel.{
  Writer, Reader, start, Pread, Sends, fill, writer_at, writer_step, deliver, take_packet,
  reader_at, reader_step, Move, step, run,
}
use c_exercises.Shm.Channel.Invariant.{ReadsFile}
use c_exercises.Shm.Channel.Progress.{possible_moves, possible_moves-start}
use c_exercises.Shm.Channel.Schedule.{run-exact, run-blocked}

abbrev bytes : List ℕ
bytes = 11 ∷ 12 ∷ 13 ∷ 14 ∷ 15 ∷ []

abbrev by_two : Pread
by_two off = some (take 2 (drop off bytes))

take_two-nil : (off : ℕ) (xs : List ℕ) → take 2 (drop off xs) ≡ [] → length xs ≤ off
take_two-nil zero [] h = omega arith
take_two-nil zero (x ∷ xs) h = cc
take_two-nil (suc off) [] h = omega arith
take_two-nil (suc off) (x ∷ xs) h = omega (arith, take_two-nil off xs h)

by_two-ReadsFile : ReadsFile bytes by_two
by_two-ReadsFile = record {
  reads = λ off d e.
      subst (λ t. t ≡ take (length t) (drop off bytes))
        (some-injective (take 2 (drop off bytes)) d e) (sym (take-length-take 2 (drop off bytes)));
  ends = λ off e. take_two-nil off bytes (some-injective (take 2 (drop off bytes)) [] e);
}

abbrev both : Sends
both = record { header = true; body = true }

-- A packet, with the writer's test before or after the reader has come.
abbrev prompt : List Move
prompt = Move.writes ∷ Move.writes ∷ Move.writes ∷ Move.reads both ∷ Move.reads both ∷ []

abbrev late : List Move
late = Move.writes ∷ Move.writes ∷ Move.reads both ∷ Move.reads both ∷ Move.writes ∷ []

abbrev schedule : List Move
schedule = prompt ++ late ++ prompt

ran-ends : (run by_two 5 schedule start).reader ≡ Reader.ends
unfolding run step writer_step reader_step writer_at reader_at take_packet deliver fill start
ran-ends = refl

ran-ok : (run by_two 5 schedule start).packet.status ≡ 0
unfolding run step writer_step reader_step writer_at reader_at take_packet deliver fill start
ran-ok = refl

ran-stopped : writer_step by_two 5 (run by_two 5 schedule start) ≡ none
unfolding run step writer_step reader_step writer_at reader_at take_packet deliver fill start
ran-stopped = refl

ran-stopped_reader : reader_step both (run by_two 5 schedule start) ≡ none
unfolding run step writer_step reader_step writer_at reader_at take_packet deliver fill start
ran-stopped_reader = refl

run-exact_example : (run by_two 5 schedule start).output ≡ bytes
run-exact_example = run-exact bytes by_two by_two-ReadsFile schedule ran-ends ran-ok

run-blocked_example :
    ((run by_two 5 schedule start).writer ≡ Writer.ends)
    × ((run by_two 5 schedule start).reader ≡ Reader.ends)
run-blocked_example =
    run-blocked bytes by_two by_two-ReadsFile schedule both (rw ran-ends) ran-stopped
      ran-stopped_reader

possible_moves-start_example : possible_moves by_two 5 schedule start ≤ 30
possible_moves-start_example = possible_moves-start by_two 5 schedule
