-- ===== src/Shm/Channel/Progress.antt =====
-- A transfer comes to rest: the steps that are possible run out.
use c_exercises.Base.{
  ℕ, suc, ◌+◌, ◌-◌, ◌*◌, ◌≤◌, ◌<◌, ◌≡◌, refl, Bool, true, false, ◌&&◌, not, Option, none, some,
  List, [], ◌∷◌, arith, ◌==◌, ltb, if◌then◌else◌, if-cases,
}
use c_exercises.Shm.Channel.{
  Writer, Reader, Channel, start, Pread, Sends, fill, writer_at, writer_step, deliver, take_packet,
  reader_at, reader_step, Move, cache_status_ok, cache_status_notfound,
}
use c_exercises.Shm.Channel.Invariant.{After, holds_full}

-- How much the writer can still do, in units of steps.
-- How much the writer can still do, by what is left of the file and the packet's flag.
abbrev writer_effort : ℕ → Bool → Writer → ℕ
writer_effort left done Writer.waits = 5 * left + 5
writer_effort left done Writer.fills = 5 * left + 4
writer_effort left done Writer.checks = if done then 1 else 5 * left + 6
writer_effort left done Writer.ends = 0

abbrev effort : ℕ → Channel → ℕ
effort size c =
    writer_effort (size - c.total) c.packet.stream_done c.writer
    + (2 * c.sem_full + holds_full c.reader)

-- A move, as far as it is possible.
pub moves : Pread → ℕ → Move → Channel → Option Channel
moves pread size Move.writes c = writer_step pread size c
moves pread size (Move.reads s) c = reader_step s c

abbrev Falls : ℕ → Channel → Option Channel → Type 0
Falls size c r = After (λ d. effort size d < effort size c) r

fill-Falls :
    (pread : Pread) (size : ℕ) (c : Channel) (r : Option (List ℕ))
    → c.writer ≡ Writer.fills
    → effort size (fill pread size c r) < effort size c
unfolding fill
fill-Falls pread size c none w = rw w (omega arith)
fill-Falls pread size c (some d) w = rw w (ground arith)

checked-Falls :
    (size : ℕ) (c : Channel) (b : Bool)
    → c.writer ≡ Writer.checks
    → c.packet.stream_done ≡ b
    → effort size (record c { writer = if b then Writer.ends else Writer.waits }) < effort size c
checked-Falls size c true w done = rw (w, done) (omega arith)
checked-Falls size c false w again = rw (w, again) (omega arith)

writer_at-Falls :
    (pread : Pread) (size : ℕ) (p : Writer) (c : Channel)
    → c.writer ≡ p
    → Falls size c (writer_at pread size p c)
unfolding writer_at
writer_at-Falls pread size Writer.waits c w =
    if-cases (Falls size c) (c.sem_empty == 0) (λ _. tt) (λ _. rw w (omega arith))
writer_at-Falls pread size Writer.fills c w = fill-Falls pread size c (pread c.total) w
writer_at-Falls pread size Writer.checks c w = checked-Falls size c c.packet.stream_done w refl
writer_at-Falls pread size Writer.ends c w = tt

module _ (size : ℕ) (c : Channel) (r : c.reader ≡ Reader.takes) where
  abbrev Less : Channel → Type 0
  Less d = effort size d < effort size c

  held : holds_full c.reader ≡ 1
  held = rw r

  -- A post of `sem_empty` does not count.
  given_up :
      writer_effort (size - c.total) c.packet.stream_done c.writer + (2 * c.sem_full + 0)
      < effort size c
  given_up = omega (arith, held)

  went_on :
      (b : Bool)
      → writer_effort (size - c.total) c.packet.stream_done c.writer
          + (2 * c.sem_full + holds_full (if b then Reader.ends else Reader.waits))
        < effort size c
  went_on true = given_up
  went_on false = given_up

  deliver-Falls : (sent : Bool) → Less (deliver sent c)
  unfolding deliver
  deliver-Falls sent =
      if-cases Less (ltb 0 c.packet.valid_bytes && not sent) (λ _. given_up)
        (λ _. went_on c.packet.stream_done)

  take_packet-Falls : (s : Sends) → Less (take_packet s c)
  unfolding take_packet
  take_packet-Falls s =
      if-cases Less c.header_transferred (λ _. deliver-Falls s.body)
        (λ _.
          if-cases Less (c.packet.status == cache_status_notfound) (λ _. given_up)
            (λ _.
              if-cases Less (not (c.packet.status == cache_status_ok)) (λ _. given_up)
                (λ _. if-cases Less (not s.header) (λ _. given_up) (λ _. deliver-Falls s.body))))

reader_at-Falls :
    (size : ℕ) (p : Reader) (s : Sends) (c : Channel)
    → c.reader ≡ p
    → Falls size c (reader_at p s c)
unfolding reader_at
reader_at-Falls size Reader.waits s c r =
    if-cases (Falls size c) (c.sem_full == 0) (λ _. tt) (λ full. rw r (ground (arith, full)))
reader_at-Falls size Reader.takes s c r = take_packet-Falls size c r s
reader_at-Falls size Reader.ends s c r = tt
reader_at-Falls size Reader.missing s c r = tt
reader_at-Falls size Reader.fails s c r = tt

moves-Falls :
    (pread : Pread) (size : ℕ) (m : Move) (c : Channel) → Falls size c (moves pread size m c)
unfolding moves writer_step reader_step
moves-Falls pread size Move.writes c = writer_at-Falls pread size c.writer c refl
moves-Falls pread size (Move.reads s) c = reader_at-Falls size c.reader s c refl

-- How many moves of a schedule are possible when their turn comes.
abbrev count_from : (Channel → ℕ) → Option Channel → Channel → ℕ
count_from rest none c = rest c
count_from rest (some d) c = suc (rest d)

pub possible_moves : Pread → ℕ → List Move → Channel → ℕ
possible_moves pread size [] c = 0
possible_moves pread size (m ∷ ms) c =
    count_from (possible_moves pread size ms) (moves pread size m c) c

possible_moves-bounded :
    (pread : Pread) (size : ℕ) (ms : List Move) (c : Channel)
    → possible_moves pread size ms c ≤ effort size c
unfolding possible_moves
possible_moves-bounded pread size [] c = omega arith
possible_moves-bounded pread size (m ∷ ms) c =
    go (possible_moves-bounded pread size ms) (moves pread size m c) (moves-Falls pread size m c)
  where
    go :
        ((d : Channel) → possible_moves pread size ms d ≤ effort size d)
        → (r : Option Channel) → Falls size c r
        → count_from (possible_moves pread size ms) r c ≤ effort size c
    go ih none falls = ih c
    go ih (some d) falls = omega (arith, ih d, falls)

-- A transfer comes to rest, whatever `pread` returns and in whatever order the sides take their turns: no
-- schedule has more than `5 * size + 5` moves that are possible when their turn comes.
pub possible_moves-start :
    (pread : Pread) (size : ℕ) (ms : List Move) → possible_moves pread size ms start ≤ 5 * size + 5
unfolding start
possible_moves-start pread size ms = omega (arith, possible_moves-bounded pread size ms start)
