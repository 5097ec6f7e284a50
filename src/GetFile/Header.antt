-- ===== src/GetFile/Header.antt =====
-- Reading a header in projects/gflib: `find_header_tail` (the same function in gfserver.c and
-- gfclient.c) and the loop that receives until a header is complete.
pub mod Tail
pub mod Reading
use c_exercises.Base.{
  ℕ, zero, suc, ◌+◌, ◌-◌, Bool, true, false, ◌&&◌, Option, none, some, List, [], ◌∷◌, ◌++◌, ◌==◌,
  length, ℤ, pos, negsuc, minus_one,
}
use c_exercises.Net.{Net, Received, failed, got, Effect}

-- `buf[i] == '\r' && buf[i + 1] == '\n' && buf[i + 2] == '\r' && buf[i + 3] == '\n'`, with
-- `i + 3 < byte`, on what stands at `i` and behind.
abbrev pub at_tail : List ℕ → Bool
at_tail (a ∷ b ∷ c ∷ d ∷ s) = a == b'\r' && (b == b'\n' && (c == b'\r' && d == b'\n'))
at_tail _ = false

tail_from : ℕ → List ℕ → ℤ
tail_from i [] = minus_one
tail_from i (a ∷ s) = elim (at_tail (a ∷ s)) [ true ↦ pos (i + 4) | false ↦ tail_from (i + 1) s ]

-- The list is the first `byte` bytes of the buffer.
unfoldable pub find_header_tail : List ℕ → ℤ
unfolding tail_from
find_header_tail buf = tail_from 0 buf

-- How the receiving loop ends: with the bytes read and the end of the header among them, with a full
-- buffer, an error, or the end of the stream.
pub data HeaderRead : Type 0 where
  found : List ℕ → ℕ → HeaderRead
  full error closed : HeaderRead

abbrev pub buffer_size : ℕ
buffer_size = 1024

module _ (net : Net) where
  open net use {World, recv}

  unfoldable pub read_header : ℕ → ℤ → List ℕ → Effect World HeaderRead
  unfolding find_header_tail
  read_header zero fd buf w = none
  read_header (suc fuel) fd buf w =
      let r = recv fd (buffer_size - length buf) w in
      elim (length buf == buffer_size) [
        | true ↦ some (full, w)
        | false ↦ (elim r.0 [
          | failed ↦ some (error, r.1)
          | got d ↦ (elim d [
            | [] ↦ some (closed, r.1)
            | b ∷ bs ↦ (elim (find_header_tail (buf ++ b ∷ bs)) [
              | pos e ↦ some (found (buf ++ b ∷ bs) e, r.1)
              | negsuc k ↦ read_header fuel fd (buf ++ b ∷ bs) r.1
            ])
          ])
        ])
      ]
