-- ===== src/Shm/Pool/Tests.antt =====
-- A pool of two segments.
use c_exercises.Base.{zero, suc, refl, List, [], ◌∷◌}
use c_exercises.Shm.Pool.{blank}
use c_exercises.Shm.Pool.Owners.{Pool, Event, history, IsOwned, history-IsOwned}

abbrev pool : Pool
pool = record { segments = blank ∷ blank ∷ []; held = [] }

pool-IsOwned : IsOwned pool
unfolding IsOwned
pool-IsOwned zero = refl
pool-IsOwned (suc zero) = refl
pool-IsOwned (suc (suc i)) = refl

abbrev events : List Event
events = Event.acquire ∷ Event.acquire ∷ Event.acquire ∷ Event.release 0 ∷ Event.acquire ∷ []

history-IsOwned_example : IsOwned (history events pool)
history-IsOwned_example = history-IsOwned events pool pool-IsOwned
