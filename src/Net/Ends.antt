-- ===== src/Net/Ends.antt =====
-- More of what the programs rely on of the operating system: files that are written to, and the two
-- directions of a stream socket, which do not disturb one another.
use c_exercises.Base.{ℕ, suc, ◌≤◌, ◌<◌, ◌≡◌, ◌≢◌, List, [], ◌∷◌, ◌++◌, length, take, ℤ, pos, negsuc}
use c_exercises.Net.{Net, got}

-- A descriptor that is open for writing, with what has been written to it.
pub record Sink : Type 1 where
  pub File : Type 0
  pub written : File → List ℕ
  pub write : List ℕ → File → ℤ × File
  pub write_some :
      (d : List ℕ) (f : File) (n : ℕ)
      → (write d f).0 ≡ pos n
      → (n ≤ length d) × (written (write d f).1 ≡ written f ++ take n d)
  pub write_none :
      (d : List ℕ) (f : File) (k : ℕ) → (write d f).0 ≡ negsuc k → written (write d f).1 ≡ written f

-- `recv`, `shutdown` and `close` leave what has been sent, `send` what is to come in, and `recv` returns no bytes
-- only at the end of the stream.
pub record Duplex (net : Net) : Type 0 where
  pub recv_sent :
      (fd : ℤ) (cap : ℕ) (w : net.World) → net.sent (net.recv fd cap w).1 fd ≡ net.sent w fd
  pub shutdown_sent : (fd : ℤ) (w : net.World) → net.sent (net.shutdown fd w) fd ≡ net.sent w fd
  pub close_sent : (fd : ℤ) (w : net.World) → net.sent (net.close fd w) fd ≡ net.sent w fd
  pub send_incoming :
      (fd : ℤ) (d : List ℕ) (w : net.World)
      → net.incoming (net.send fd d w).1 fd ≡ net.incoming w fd
  pub recv_end :
      (fd : ℤ) (cap : ℕ) (w : net.World)
      → (net.recv fd (suc cap) w).0 ≡ got []
      → net.incoming w fd ≡ []

-- The descriptors that have been closed so far, in order: `close` adds its own, and the other calls do
-- not close any.
pub record Descriptors (net : Net) : Type 0 where
  pub closed : net.World → List ℤ
  pub close_closed : (fd : ℤ) (w : net.World) → closed (net.close fd w) ≡ closed w ++ fd ∷ []
  pub shutdown_closed : (fd : ℤ) (w : net.World) → closed (net.shutdown fd w) ≡ closed w
  pub send_closed : (fd : ℤ) (d : List ℕ) (w : net.World) → closed (net.send fd d w).1 ≡ closed w
  pub recv_closed : (fd : ℤ) (cap : ℕ) (w : net.World) → closed (net.recv fd cap w).1 ≡ closed w

-- A connection on which `send` takes a byte at least.
abbrev pub Accepts : Net → ℤ → Type 0
Accepts net fd =
    (d : List ℕ) (w : net.World) → 0 < length d → (n : ℕ) × ((net.send fd d w).0 ≡ pos (suc n))

-- A `send` of `d` that took no byte, on a stream that had been handed `so_far` by then.
pub record FailedSend (net : Net) (fd : ℤ) (so_far d : List ℕ) : Type 0 where
  pub before : net.World
  pub sent_before : net.sent before fd ≡ so_far
  pub took_none : (n : ℕ) → (net.send fd d before).0 ≢ pos (suc n)
