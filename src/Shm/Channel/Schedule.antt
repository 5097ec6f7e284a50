-- ===== src/Shm/Channel/Schedule.antt =====
-- What any interleaving of the two sides of a transfer keeps, and where it can come to rest.
use c_exercises.Base.{
  ℕ, ◌+◌, ◌≡◌, refl, sym, ◌∙◌, ◌⊎◌, inl, inr, true, Option, none, some, List, [], ◌∷◌, ◌++◌, arith,
  ◌==◌, Bool-cases, eq→==, ==→eq, length, take, take-length, append-nil,
}
use mathlib.Core.Bool.{false≢true}
use mathlib.Core.Option.{some-ne-none}
use c_exercises.Shm.Channel.{
  cache_status_ok, Writer, Reader, Channel, start, Pread, Sends, writer_at, writer_step, reader_at,
  reader_step, Move, stay_or, step, run,
}
use c_exercises.Shm.Channel.Invariant.{
  ReadsFile, holds_empty, holds_full, is_alive, unread, Inv, After, start-Inv, writer_step-Inv,
  reader_step-Inv,
}

stay_or-Inv :
    (file : List ℕ) (c : Channel) (r : Option Channel)
    → Inv file c
    → After (Inv file) r
    → Inv file (stay_or c r)
stay_or-Inv file c none v a = v
stay_or-Inv file c (some d) v a = a

module _ (file : List ℕ) (pread : Pread) (is : ReadsFile file pread) where
  step-Inv : (m : Move) (c : Channel) → Inv file c → Inv file (step pread (length file) m c)
  unfolding step
  step-Inv Move.writes c v = stay_or-Inv file c _ v (writer_step-Inv file pread is c v)
  step-Inv (Move.reads s) c v = stay_or-Inv file c _ v (reader_step-Inv file s c v)

  pub run-Inv :
      (ms : List Move) (c : Channel) → Inv file c → Inv file (run pread (length file) ms c)
  unfolding run
  run-Inv [] c v = v
  run-Inv (m ∷ ms) c v = run-Inv ms (step pread (length file) m c) (step-Inv m c v)

  -- If `pread` reads the file, then, whatever the order of the steps and whatever fails, what the
  -- proxy has sent is a front of the file.
  pub run-front :
      (ms : List Move)
      → (run pread (length file) ms start).output
        ≡ take (length (run pread (length file) ms start).output) file
  run-front ms = (run-Inv ms start (start-Inv file)).sent

-- A reader behind the stream has sent all that was read.
ended-exact :
    (file : List ℕ) (c : Channel)
    → Inv file c
    → c.reader ≡ Reader.ends
    → c.packet.status ≡ cache_status_ok
    → c.output ≡ file
ended-exact file c v r good =
    let alive : is_alive c.reader ≡ true = rw r in
    let none_held : holds_full c.reader ≡ 0 = rw r in
    let at_rest : (c.sem_full + holds_full c.reader == 0) ≡ true =
      eq→== (c.sem_full + holds_full c.reader) 0
        (omega (arith, v.token, (v.ended r).1, none_held)) in
    let f : c.output ++ unread c ≡ take c.total file = v.front alive in
    sym (append-nil c.output)
    ∙ (rw at_rest at f)
    ∙ take-length file c.total (v.last (v.ended r).0 good)

module _ (file : List ℕ) (pread : Pread) (is : ReadsFile file pread) where
  -- If `pread` reads the file: when the proxy has left the loop at the end of the stream, and the packet
  -- reports no error, it has sent the whole file, byte for byte, in every interleaving of the two sides.
  pub run-exact :
      (ms : List Move)
      → (run pread (length file) ms start).reader ≡ Reader.ends
      → (run pread (length file) ms start).packet.status ≡ cache_status_ok
      → (run pread (length file) ms start).output ≡ file
  run-exact ms r good =
      ended-exact file (run pread (length file) ms start)
        (run-Inv file pread is ms start (start-Inv file)) r good

writer-blocked :
    (pread : Pread) (size : ℕ) (p : Writer) (c : Channel)
    → writer_at pread size p c ≡ none
    → (p ≡ Writer.ends) ⊎ (p ≡ Writer.waits) × (c.sem_empty ≡ 0)
unfolding writer_at
writer-blocked pread size Writer.waits c h = elim (Bool-cases (c.sem_empty == 0)) [
  | inl none_free ↦ inr (refl, ==→eq c.sem_empty 0 none_free)
  | inr free ↦ absurd (some-ne-none _ (rw free at h))
]
writer-blocked pread size Writer.fills c h = absurd (some-ne-none _ h)
writer-blocked pread size Writer.checks c h = absurd (some-ne-none _ h)
writer-blocked pread size Writer.ends c h = inl refl

reader-blocked :
    (p : Reader) (s : Sends) (c : Channel)
    → reader_at p s c ≡ none
    → is_alive p ≡ true
    → (p ≡ Reader.ends) ⊎ (p ≡ Reader.waits) × (c.sem_full ≡ 0)
unfolding reader_at
reader-blocked Reader.waits s c h alive = elim (Bool-cases (c.sem_full == 0)) [
  | inl none_full ↦ inr (refl, ==→eq c.sem_full 0 none_full)
  | inr full ↦ absurd (some-ne-none _ (rw full at h))
]
reader-blocked Reader.takes s c h alive = absurd (some-ne-none _ h)
reader-blocked Reader.ends s c h alive = inl refl
reader-blocked Reader.missing s c h alive = absurd (false≢true alive)
reader-blocked Reader.fails s c h alive = absurd (false≢true alive)

-- At rest, the two sides are behind the stream.
at_rest :
    (file : List ℕ) (c : Channel)
    → Inv file c
    → (c.writer ≡ Writer.ends) ⊎ (c.writer ≡ Writer.waits) × (c.sem_empty ≡ 0)
    → (c.reader ≡ Reader.ends) ⊎ (c.reader ≡ Reader.waits) × (c.sem_full ≡ 0)
    → (c.writer ≡ Writer.ends) × (c.reader ≡ Reader.ends)
at_rest file c v (inl w) (inl r) = (w, r)
at_rest file c v (inl w) (inr (r, empty)) =
    let no_w : holds_empty c.writer ≡ 0 = rw w in
    let no_r : holds_full c.reader ≡ 0 = rw r in
    absurd (false≢true (sym (v.asleep r (omega (arith, v.token, no_w, no_r, empty))) ∙ v.over w))
at_rest file c v (inr (w, _)) (inl r) = absurd (false≢true (sym (v.more (rw w)) ∙ (v.ended r).0))
at_rest file c v (inr (w, no_empty)) (inr (r, no_full)) =
    let no_w : holds_empty c.writer ≡ 0 = rw w in
    let no_r : holds_full c.reader ≡ 0 = rw r in
    absurd (omega (arith, v.token, no_w, no_r, no_empty, no_full))

module _ (file : List ℕ) (pread : Pread) (is : ReadsFile file pread) where
  blocked-Inv :
      (s : Sends) (c : Channel)
      → Inv file c
      → is_alive c.reader ≡ true
      → writer_step pread (length file) c ≡ none
      → reader_step s c ≡ none
      → (c.writer ≡ Writer.ends) × (c.reader ≡ Reader.ends)
  unfolding writer_step reader_step
  blocked-Inv s c v alive w r =
      at_rest file c v (writer-blocked pread (length file) c.writer c w)
        (reader-blocked c.reader s c r alive)

  -- If `pread` reads the file, the transfer has no deadlock: after any schedule in which the reader
  -- has not given up, if neither side can take a step, then both have left their loops at the end
  -- of the stream.
  pub run-blocked :
      (ms : List Move) (s : Sends)
      → is_alive (run pread (length file) ms start).reader ≡ true
      → writer_step pread (length file) (run pread (length file) ms start) ≡ none
      → reader_step s (run pread (length file) ms start) ≡ none
      → ((run pread (length file) ms start).writer ≡ Writer.ends)
        × ((run pread (length file) ms start).reader ≡ Reader.ends)
  run-blocked ms s alive w r =
      blocked-Inv s (run pread (length file) ms start)
        (run-Inv file pread is ms start (start-Inv file)) alive w r
