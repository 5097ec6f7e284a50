-- ===== src/GetFile/Header/Reading.antt =====
-- The receiving loop ends, keeps to its buffer, and loses no byte.
use c_exercises.Base.{
  ap, ℕ, zero, suc, ◌+◌, ◌-◌, ◌≤◌, ◌<◌, ◌≡◌, refl, ◌∙◌, inl, inr, false, Option, some, List, [],
  ◌∷◌, ◌++◌, arith, ◌==◌, Bool-cases, ==→eq, length, length-append, append_assoc, ℤ, pos, negsuc,
}
use c_exercises.Net.{Net, Received, failed, got}
use c_exercises.GetFile.Header.{
  find_header_tail, HeaderRead, found, full, error, closed, buffer_size, read_header,
}
use c_exercises.GetFile.Header.Tail.{
  NoBlankLine, FirstBlankLine, find_header_tail-FirstBlankLine, find_header_tail-NoBlankLine,
}
use c_exercises.GetFile.Send.{crlf2}

empty-NoBlankLine : NoBlankLine []
empty-NoBlankLine [] post h = cc h
empty-NoBlankLine (x ∷ pre) post h = cc h

module _ (net : Net) where
  open net use {World, recv, incoming, recv_some}

  -- The bytes `buf` have come without a blank line among them, and the `recv` behind them, for what is
  -- left of the buffer, has returned `r` and left `w'`.
  pub record StopsAt (fd : ℤ) (w : World) (r : Received) (w' : World) : Type 0 where
    pub buf : List ℕ
    pub before : World
    pub came : incoming w fd ≡ buf ++ incoming before fd
    pub small : length buf < buffer_size
    pub no_header : NoBlankLine buf
    pub stops : recv fd (buffer_size - length buf) before ≡ (r, w')

  -- What the loop has done to a stream that stood at `w`. The bytes it found are those that came, no
  -- more than the buffer holds, and the header ends among them behind the first blank line; in any other
  -- case there is no blank line in what came.
  abbrev pub Reads : ℤ → World → HeaderRead × World → Type 0
  Reads fd w (found buf e, w') =
      (incoming w fd ≡ buf ++ incoming w' fd)
      × (length buf ≤ buffer_size)
      × (find_header_tail buf ≡ pos e)
      × (e ≤ length buf)
      × FirstBlankLine buf e
  Reads fd w (full, w') =
      (buf : List ℕ) × (incoming w fd ≡ buf ++ incoming w' fd)
      × (length buf ≡ buffer_size)
      × NoBlankLine buf
  Reads fd w (error, w') = StopsAt fd w failed w'
  Reads fd w (closed, w') = StopsAt fd w (got []) w'

  pub record ReadsHeader (fd : ℤ) (w : World) (run : Option (HeaderRead × World)) : Type 0 where
    pub result : HeaderRead × World
    pub returns : run ≡ some result
    pub reads : Reads fd w result

  abbrev Continues : ℕ → ℤ → World → Type 0
  Continues fuel fd w₀ =
      (buf : List ℕ) (w : World)
      → length buf ≤ buffer_size
      → buffer_size - length buf < fuel
      → incoming w₀ fd ≡ buf ++ incoming w fd
      → NoBlankLine buf
      → ReadsHeader fd w₀ (read_header net fuel fd buf w)

  module _ (fuel : ℕ) (fd : ℤ) (w₀ : World) (rest : Continues fuel fd w₀) (buf : List ℕ) (w : World)
      (le : length buf ≤ buffer_size) (h : buffer_size - length buf < suc fuel)
      (e : incoming w₀ fd ≡ buf ++ incoming w fd) (none_yet : NoBlankLine buf)
      (room : (length buf == buffer_size) ≡ false) where
    abbrev answer : Received × World
    answer = recv fd (buffer_size - length buf) w

    stopped : (r : Received) → answer.0 ≡ r → StopsAt fd w₀ r answer.1
    stopped r a = record {
      buf = buf;
      before = w;
      came = e;
      small = ground (arith, le, room);
      no_header = none_yet;
      stops = ap (λ x. (x, answer.1)) a;
    }

    found_there :
        {all : List ℕ}
        → incoming w₀ fd ≡ all ++ incoming answer.1 fd
        → length all ≤ buffer_size
        → (n : ℕ) → find_header_tail all ≡ pos n
        → FirstBlankLine all n
        → Reads fd w₀ (found all n, answer.1)
    found_there {all} came small n t is =
        let ends : n ≤ length all = omega (
          arith,
          is.end,
          ap length is.split,
          length-append is.front (crlf2 ++ is.rest),
          length-append crlf2 is.rest,
        ) in
        (came, small, t, ends, is)

    -- The step on the bytes `b ∷ bs`, by what the search for the header's end says.
    read-more :
        (b : ℕ) (bs : List ℕ)
        → answer.0 ≡ got (b ∷ bs)
        → (r : ℤ) → find_header_tail (buf ++ b ∷ bs) ≡ r
        → ReadsHeader fd w₀ (read_header net (suc fuel) fd buf w)
    unfolding read_header
    read-more b bs a r t =
        let (small, s) = recv_some fd (buffer_size - length buf) w (b ∷ bs) a in
        let all : incoming w₀ fd ≡ (buf ++ b ∷ bs) ++ incoming answer.1 fd =
          e ∙ rw (s, append_assoc) refl in
        let long = length-append buf (b ∷ bs) in go small all long r t
      where
        go :
            length (b ∷ bs) ≤ buffer_size - length buf
            → incoming w₀ fd ≡ (buf ++ b ∷ bs) ++ incoming answer.1 fd
            → length (buf ++ b ∷ bs) ≡ length buf + length (b ∷ bs)
            → (r : ℤ) → find_header_tail (buf ++ b ∷ bs) ≡ r
            → ReadsHeader fd w₀ (read_header net (suc fuel) fd buf w)
        go small all long (pos n) t = record {
          result = (found (buf ++ b ∷ bs) n, answer.1);
          returns = rw (room, read_header, a, t);
          reads =
              found_there all (omega arith) n t
                (find_header_tail-FirstBlankLine (buf ++ b ∷ bs) n t);
        }
        go small all long (negsuc k) t =
            rw (room, read_header, a, t)
              (rest (buf ++ b ∷ bs) answer.1 (omega arith) (omega arith) all
                (find_header_tail-NoBlankLine (buf ++ b ∷ bs) k t))

    read-round :
        (r : Received) → answer.0 ≡ r → ReadsHeader fd w₀ (read_header net (suc fuel) fd buf w)
    unfolding read_header
    read-round failed a = record {
      result = (error, answer.1);
      returns = rw (room, read_header, a);
      reads = stopped failed a;
    }
    read-round (got []) a = record {
      result = (closed, answer.1);
      returns = rw (room, read_header, a);
      reads = stopped (got []) a;
    }
    read-round (got (b ∷ bs)) a = read-more b bs a (find_header_tail (buf ++ b ∷ bs)) refl

  read_header-Continues : (fuel : ℕ) (fd : ℤ) (w₀ : World) → Continues fuel fd w₀
  unfolding read_header
  read_header-Continues zero fd w₀ buf w le h e none_yet = absurd (omega arith)
  read_header-Continues (suc fuel) fd w₀ buf w le h e none_yet =
      elim (Bool-cases (length buf == buffer_size)) [
        | inl at_end ↦ record {
          result = (full, w);
          returns = rw (at_end, read_header);
          reads = (buf, e, ==→eq (length buf) buffer_size at_end, none_yet);
        }
        | inr room ↦
            read-round fuel fd w₀ (read_header-Continues fuel fd w₀) buf w le h e none_yet room
              (recv fd (buffer_size - length buf) w).0 refl
      ]

  -- From an empty buffer the loop ends within 1025 rounds. A header that it finds is the front of what
  -- came in, lies within the buffer of 1024 bytes, and ends behind the first "\r\n\r\n" of it. If there is
  -- none in the 1024 bytes the buffer is full, and otherwise a `recv` behind what came without one has
  -- failed, or has returned no byte.
  pub read_header-Reads :
      (fd : ℤ) (w : World) → ReadsHeader fd w (read_header net (buffer_size + 1) fd [] w)
  read_header-Reads fd w =
      read_header-Continues (buffer_size + 1) fd w [] w (omega arith) (omega arith) refl
        empty-NoBlankLine
