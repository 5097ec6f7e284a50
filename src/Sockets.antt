-- ===== src/Sockets.antt =====
-- What the programs of projects/echoProject and projects/transferProject do alike before they exchange
-- data: options, checks, and the loop over the addresses of `getaddrinfo`. The results of
-- `getopt_long`, `getaddrinfo`, `socket`, `bind`, `connect` and `listen` are arguments.
pub mod Addresses
pub mod Progress
mod Tests
use c_exercises.Base.{
  ℕ, ◌+◌, ◌%◌, Bool, true, false, not, ◌&&◌, ◌||◌, Option, none, some, List, [], ◌∷◌, ◌++◌, ltb,
  if◌then◌else◌, ℤ, pos, negsuc, minus_one, is_negative,
}
use c_exercises.Net.{Net}

-- How far a program comes: it ends with an exit code, or it goes on with a value. Both hold the
-- descriptors that it has closed, in order.
pub data Start (A : Type 0) : Type 0 where
  exits : ℕ → List ℤ → Start A
  goes : List ℤ → A → Start A

abbrev pub after : {A : Type 0} → List ℤ → Start A → Start A
after closed (exits code more) = exits code (closed ++ more)
after closed (goes more a) = goes (closed ++ more) a

infixl 5 ◌>>=◌ ◌>>◌
abbrev pub ◌>>=◌ : {A B : Type 0} → Start A → (A → Start B) → Start B
exits code closed >>= f = exits code closed
goes closed a >>= f = after closed (f a)

abbrev pub ◌>>◌ : {A B : Type 0} → Start A → Start B → Start B
m >> n = m >>= λ _. n

-- `if (!b) exit(1)`
abbrev pub require : Bool → Start (Unit {0})
require b = if b then goes [] tt else exits 1 []

-- `if (!b) exit(code)`; the exit status has eight bits.
abbrev pub require_or : ℕ → Bool → Start (Unit {0})
require_or code b = if b then goes [] tt else exits (code % 256) []

-- What the switch does with an option: it sets a variable, or ends the program.
pub data Choice (A : Type 0) : Type 0 where
  sets : A → Choice A
  quits : ℕ → Choice A

-- The loop over `getopt_long`, which returns these characters, each with its `optarg`.
unfoldable pub read_options :
    {A : Type 0} → (ℕ → List ℕ → A → Choice A) → List (ℕ × List ℕ) → A → Start A
read_options switch [] options = goes [] options
read_options switch ((char, arg) ∷ rest) options = elim (switch char arg options) [
  | sets options' ↦ read_options switch rest options'
  | quits code ↦ exits code []
]

-- The test of a port that is an `int`.
abbrev pub is_port : ℤ → Bool
is_port (pos n) = not (ltb n 1025 || ltb 65535 n)
is_port (negsuc _) = false

-- An address: what `socket` returns for it, and whether `bind` (in a server) or `connect` (in a
-- client) then returns 0.
pub record Address : Type 0 where
  pub socket : ℤ
  pub accepts : Bool

-- The loop over the addresses from a value of the descriptor on: the descriptor behind the loop, and
-- what the loop closes.
unfoldable pub first_socket : ℤ → List Address → ℤ × List ℤ
first_socket fd [] = (fd, [])
first_socket fd (a ∷ rest) = elim (is_negative a.socket) [
  | true ↦ first_socket a.socket rest
  | false ↦ elim a.accepts [
    | true ↦ (a.socket, [])
    | false ↦ let (fd', closed) = first_socket minus_one rest in (fd', a.socket ∷ closed)
  ]
]

abbrev pub keep_socket : ℤ × List ℤ → Start ℤ
keep_socket (fd, closed) = if is_negative fd then exits 1 closed else goes closed fd

-- From `getaddrinfo` to the test behind the loop; `none` is an error of `getaddrinfo`.
unfoldable pub get_socket : Option (List Address) → Start ℤ
get_socket none = exits 1 []
get_socket (some addresses) = keep_socket (first_socket minus_one addresses)

-- What the operating system answers to a server: to `getaddrinfo` for a port, and whether `listen`
-- with a backlog succeeds.
pub record Host : Type 0 where
  pub addresses : ℕ → Option (List Address)
  pub listens : ℤ → Bool

-- `listen`, and what follows if it fails.
abbrev pub start_listening : Bool → ℤ → Start ℤ
start_listening listens fd = if listens then goes [] fd else exits 1 (fd ∷ [])

-- A server's socket, from `getaddrinfo` to `listen`, for a port and a backlog.
unfoldable pub listening_socket : Host → ℕ → ℤ → Start ℤ
unfolding get_socket
listening_socket host port backlog =
    get_socket (host.addresses port) >>= start_listening (host.listens backlog)

-- How a program stands: it has ended with a code, or it is blocked in `accept`.
pub data Outcome : Type 0 where
  ended : ℕ → Outcome
  waits : Outcome

module _ (net : Net) where
  open net use {World, close}

  pub close_all : List ℤ → World → World
  close_all [] w = w
  close_all (fd ∷ fds) w = close_all fds (close fd w)

  -- A program from its set-up on.
  unfoldable pub run_from :
      Start ℤ → (ℤ → World → Option (Outcome × World)) → World → Option (Outcome × World)
  run_from (exits code closed) body w = some (ended code, close_all closed w)
  run_from (goes closed fd) body w = body fd (close_all closed w)
