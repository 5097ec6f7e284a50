-- ===== src/Net.antt =====
-- What the programs rely on of stream sockets: `send`, `recv`, `shutdown` and `close` of the
-- operating system, as an interface with the documented behaviour as its laws.
pub mod Ends
pub mod Wire
use c_exercises.Base.{ℕ, ◌≤◌, ◌≡◌, Option, none, some, List, ◌++◌, length, take, ℤ, pos, negsuc}

-- The result of a `recv`: an error, or the bytes read, which are none at the end of the stream.
pub data Received : Type 0 where
  failed : Received
  got : List ℕ → Received

-- `sent w fd` is what has been handed to the stream of `fd` so far, and `incoming w fd` what its
-- peer has sent and `recv` has not returned yet.
pub record Net : Type 1 where
  pub World : Type 0
  pub sent : World → ℤ → List ℕ
  pub incoming : World → ℤ → List ℕ
  pub send : ℤ → List ℕ → World → ℤ × World
  pub recv : ℤ → ℕ → World → Received × World
  pub shutdown : ℤ → World → World
  pub close : ℤ → World → World
  pub send_some :
      (fd : ℤ) (d : List ℕ) (w : World) (n : ℕ)
      → (send fd d w).0 ≡ pos n
      → (n ≤ length d) × (sent (send fd d w).1 fd ≡ sent w fd ++ take n d)
  pub send_none :
      (fd : ℤ) (d : List ℕ) (w : World) (k : ℕ)
      → (send fd d w).0 ≡ negsuc k
      → sent (send fd d w).1 fd ≡ sent w fd
  pub recv_some :
      (fd : ℤ) (cap : ℕ) (w : World) (d : List ℕ)
      → (recv fd cap w).0 ≡ got d
      → (length d ≤ cap) × (incoming w fd ≡ d ++ incoming (recv fd cap w).1 fd)

-- A computation over the world; `none` means that the fuel of a loop ran out.
abbrev pub Effect : Type 0 → Type 0 → Type 0
Effect W A = W → Option (A × W)

abbrev pub pure : {W A : Type 0} → A → Effect W A
pure a w = some (a, w)

infixl 5 ◌>>=◌ ◌>>◌
abbrev pub ◌>>=◌ : {W A B : Type 0} → Effect W A → (A → Effect W B) → Effect W B
◌>>=◌ m f w = elim (m w) [ none ↦ none | some (a, w') ↦ f a w' ]

abbrev pub ◌>>◌ : {W A B : Type 0} → Effect W A → Effect W B → Effect W B
m >> n = m >>= λ _. n

-- A system call, which always returns.
abbrev pub call : {W A : Type 0} → (W → A × W) → Effect W A
call f w = some (f w)
