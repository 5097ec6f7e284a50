-- ===== src/Steque.antt =====
-- projects/proxycacheserver/cache/steque.c: a linked list with a head and a tail pointer, on an
-- explicit heap. projects/proxycacheserver/server/steque.c is the same file, and
-- projects/mtgf/steque.c differs in a parameter's name and in the code that it exits with.
-- A `steque_t` lives outside the heap, so an operation that updates one returns the new value.
-- What `malloc` returns is the argument `fresh`; the source does not test it for NULL.
pub mod Memory
pub mod Links
pub mod Ends
pub mod Rotate
mod Tests
use c_exercises.Base.{ℕ, zero, suc, ◌+◌, ◌-◌, ◌≡◌, Bool, true, false, ◌==◌, if◌then◌else◌, length}
use c_exercises.Steque.Memory.{
  Ptr, null, node, Heap, Cmd, exited, out_of_fuel, pure, ◌>>=◌, ◌>>◌, alloc, load, set_next, free,
}
use c_exercises.Steque.Links.{Cells, Chain, back_of}

-- `steque_t`. N counts allocated nodes; it is an `int`, whose overflow is undefined, so it is the number as
-- long as there are fewer than 2 ^ 31 nodes.
pub record Steque : Type 0 where
  pub front : Ptr
  pub back : Ptr
  pub n : ℕ

abbrev pub steque : Ptr → Ptr → ℕ → Steque
steque f b n = record { front = f; back = b; n = n }

-- The list of nodes that a steque stands for, front first.
pub record IsSteque (h : Heap) (s : Steque) (xs : Cells) : Type 0 where
  pub chain : Chain h null s.front xs
  pub last : s.back ≡ back_of xs
  pub count : s.n ≡ length xs

pub init : Steque
init = steque null null 0

pub enqueue : (fresh : Ptr) → Steque → ℕ → Cmd Steque
enqueue fresh s item = do
  alloc fresh (node item null)
  if s.back == null
      then pure (steque fresh fresh (s.n + 1))
      else do set_next s.back fresh; pure (steque s.front fresh (s.n + 1))

pub push : (fresh : Ptr) → Steque → ℕ → Cmd Steque
push fresh s item = do
  alloc fresh (node item s.front)
  pure (steque fresh (if s.back == null then fresh else s.back) (s.n + 1))

pub size : Steque → ℕ
size s = s.n

pub is_empty : Steque → Bool
is_empty s = s.n == 0

pub pop : Steque → Cmd (ℕ × Steque)
pop s = if s.front == null then exited else do
  n ← load s.front
  free s.front
  pure (n.item, steque n.next (if n.next == null then null else s.back) (s.n - 1))

pub cycle : Steque → Cmd Steque
cycle s = if s.back == null then pure s else do
  set_next s.back s.front
  n ← load s.front
  set_next s.front null
  pure (steque n.next s.front s.n)

pub peek : Steque → Cmd ℕ
peek s = if s.front == null then exited else do n ← load s.front; pure n.item

destroy_loop : ℕ → Steque → Cmd Steque
destroy_loop zero s = out_of_fuel
destroy_loop (suc k) s = elim (is_empty s) [
  | true ↦ pure s
  | false ↦ do (item, s') ← pop s; destroy_loop k s'
]

-- N + 1 tests of `steque_isempty` are made.
pub destroy : Steque → Cmd Steque
unfolding destroy_loop
destroy s = destroy_loop (s.n + 1) s
