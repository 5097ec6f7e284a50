-- ===== src/Workers.antt =====
-- Worker threads that wait on a condition variable, as simplecached.c of projects/proxycacheserver and
-- handler.c of projects/mtgf have them.
pub mod Counting
pub mod Leaving
use c_exercises.Base.{
  ℕ, zero, suc, ◌&&◌, Bool, true, false, Option, none, some, List, [], ◌∷◌, get_elem?, set,
}

-- A worker is on its way to the lock, in its `pthread_cond_wait`, at a job, or has left its loop.
pub data Worker (A : Type 0) : Type 0 where
  pops sleeps left : Worker A
  handles : A → Worker A

module _ {A : Type 0} where
  -- A worker that sleeps wakes up.
  abbrev pub wake : Worker A → Worker A
  wake sleeps = pops
  wake pops = pops
  wake left = left
  wake (handles job) = handles job

  abbrev pub wake_first : List (Worker A) → List (Worker A)
  wake_first [] = []
  wake_first (sleeps ∷ ws) = pops ∷ ws
  wake_first (pops ∷ ws) = pops ∷ wake_first ws
  wake_first (left ∷ ws) = left ∷ wake_first ws
  wake_first (handles job ∷ ws) = handles job ∷ wake_first ws

  -- `pthread_cond_signal` wakes one thread if one waits: the one that the system chooses, if it waits.
  unfoldable pub cond_signal : ℕ → List (Worker A) → List (Worker A)
  cond_signal i ws = elim (get_elem? ws i) [
    | none ↦ wake_first ws
    | some w ↦ elim w [
      | sleeps ↦ set ws i pops
      | pops ↦ wake_first ws
      | left ↦ wake_first ws
      | handles job ↦ wake_first ws
    ]
  ]

  -- `pthread_cond_broadcast` wakes all.
  unfoldable pub cond_broadcast : List (Worker A) → List (Worker A)
  cond_broadcast [] = []
  cond_broadcast (w ∷ ws) = wake w ∷ cond_broadcast ws

  -- The workers that a loop over `pthread_create` makes, by whether each call succeeds.
  abbrev pub spawned : List Bool → List (Worker A)
  spawned [] = []
  spawned (true ∷ creates) = pops ∷ spawned creates
  spawned (false ∷ creates) = spawned creates

-- Whether every `pthread_create` of a loop over `n` workers succeeds.
abbrev pub all_created : (ℕ → Bool) → ℕ → Bool
all_created creates zero = true
all_created creates (suc n) = creates n && all_created creates n
