-- ===== src/Handler/Queue.antt =====
-- `queue_t` of projects/gflib/handler.c: a ring of 20 jobs, with `queue_push` and `queue_pop`.
pub mod Refine
use c_exercises.Base.{
  ℕ, ◌+◌, ◌-◌, ◌%◌, ◌<◌, ◌≤◌, ◌≡◌, Option, none, List, ◌==◌, if◌then◌else◌, length, get_elem?, set,
  ℤ, pos, minus_one, replicate,
}

abbrev pub queue_capacity : ℕ
queue_capacity = 20

pub record Queue : Type 0 where
  pub slots : List ℕ
  pub qhead : ℕ
  pub qtail : ℕ
  pub qcount : ℕ

-- `static queue_t q = {0}`
pub empty_queue : Queue
empty_queue = record { slots = replicate queue_capacity 0; qhead = 0; qtail = 0; qcount = 0 }

pub queue_push : Queue → ℕ → ℤ × Queue
queue_push q job = if q.qcount == queue_capacity then (minus_one, q) else (
  pos 0,
  record q {
    slots = set q.slots q.qtail job;
    qtail = (q.qtail + 1) % queue_capacity;
    qcount = q.qcount + 1;
  },
)

-- The second component is what goes through `jobout`; `none` leaves `*jobout` as it was.
pub queue_pop : Queue → ℤ × Option ℕ × Queue
queue_pop q = if q.qcount == 0 then (minus_one, none, q) else (
  pos 0,
  get_elem? q.slots q.qhead,
  record q { qhead = (q.qhead + 1) % queue_capacity; qcount = q.qcount - 1 },
)

-- The jobs that a ring holds, oldest first.
pub record IsQueue (q : Queue) (xs : List ℕ) : Type 0 where
  pub size : length q.slots ≡ queue_capacity
  pub head_in : q.qhead < queue_capacity
  pub tail_at : q.qtail ≡ (q.qhead + q.qcount) % queue_capacity
  pub count : q.qcount ≡ length xs
  pub fits : length xs ≤ queue_capacity
  pub holds :
      (i : ℕ) → i < length xs → get_elem? q.slots ((q.qhead + i) % queue_capacity) ≡ get_elem? xs i
