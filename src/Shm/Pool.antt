-- ===== src/Shm/Pool.antt =====
-- The proxy's pool of segments, projects/proxycacheserver/cache/shm_channel.c. What the operating
-- system answers is an argument. The mutex makes `proxy_seg_acq` and `proxy_seg_release` one step each.
pub mod Owners
pub mod Teardown
mod Tests
use c_exercises.Base.{
  ℕ, zero, suc, ◌+◌, Bool, true, false, Option, none, some, List, [], ◌∷◌, ◌++◌, if◌then◌else◌,
  replicate, ℤ, pos, negsuc, minus_one, is_negative, not,
}

-- The `addr` field: NULL, MAP_FAILED, or a mapping.
pub data Mapping : Type 0 where
  unset failed mapped : Mapping

-- `proxy_seg_t`; a semaphore is there if it is neither NULL nor SEM_FAILED.
pub record Segment : Type 0 where
  pub shmfd : ℤ
  pub addr : Mapping
  pub sem_empty : Bool
  pub sem_full : Bool
  pub in_use : Bool

-- What `calloc` leaves.
abbrev pub blank : Segment
blank = record {
  shmfd = pos 0;
  addr = Mapping.unset;
  sem_empty = false;
  sem_full = false;
  in_use = false;
}

-- What `shm_open`, `ftruncate`, `mmap` and the two calls of `sem_open` answer for a segment.
pub record Setup : Type 0 where
  pub shmfd : ℤ
  pub truncates : Bool
  pub maps : Bool
  pub opens_empty : Bool
  pub opens_full : Bool

-- The body of the loop in `proxy_pool_init`: the segment as it is left, and whether the loop goes on.
unfoldable pub segment_init : Setup → Segment × Bool
segment_init s =
    if is_negative s.shmfd
    then (record blank { shmfd = s.shmfd }, false)
    else if not s.truncates
    then (record blank { shmfd = s.shmfd }, false)
    else if not s.maps
    then (record blank { shmfd = s.shmfd; addr = Mapping.failed }, false)
    else if not s.opens_empty
    then (record blank { shmfd = s.shmfd; addr = Mapping.mapped }, false)
    else (
      record blank {
        shmfd = s.shmfd;
        addr = Mapping.mapped;
        sem_empty = true;
        sem_full = s.opens_full;
      },
      s.opens_full,
    )

-- The loop from segment `i` on, with `n` segments to go: what is returned, and the segments.
unfoldable pub init_from : (ℕ → Setup) → ℕ → ℕ → ℤ × List Segment
init_from setup i zero = (pos 0, [])
init_from setup i (suc n) =
    let rest = init_from setup (i + 1) n in
    let here = segment_init (setup i) in
    if here.1 then (rest.0, here.0 ∷ rest.1) else (minus_one, here.0 ∷ replicate n blank)

-- `none` for the array is a failed `calloc`.
unfoldable pub proxy_pool_init : Bool → (ℕ → Setup) → ℕ → ℤ × Option (List Segment)
proxy_pool_init calloc_ok setup nsegments =
    let made = init_from setup 0 nsegments in
    if calloc_ok then (made.0, some made.1) else (minus_one, none)

-- What `proxy_pool_destroy` gives back, in order.
pub data Release : Type 0 where
  unmap : ℕ → Release
  close : ℤ → Release
  close_empty close_full unlink_shm unlink_empty unlink_full : ℕ → Release

abbrev pub when : Bool → Release → List Release
when b r = if b then r ∷ [] else []

abbrev pub is_mapped : Mapping → Bool
is_mapped Mapping.mapped = true
is_mapped _ = false

unfoldable pub segment_destroy : ℕ → Segment → List Release
segment_destroy i s =
    when (is_mapped s.addr) (Release.unmap i)
    ++ (when (not (is_negative s.shmfd)) (Release.close s.shmfd)
        ++ (when s.sem_empty (Release.close_empty i)
            ++ (when s.sem_full (Release.close_full i)
                ++ (Release.unlink_shm i ∷ Release.unlink_empty i ∷ Release.unlink_full i ∷ []))))

unfoldable pub destroy_from : ℕ → List Segment → List Release
destroy_from i [] = []
destroy_from i (s ∷ rest) = segment_destroy i s ++ destroy_from (i + 1) rest

unfoldable pub proxy_pool_destroy : Option (List Segment) → List Release
proxy_pool_destroy none = []
proxy_pool_destroy (some segments) = destroy_from 0 segments

-- The `for` loop of `proxy_seg_acq`: the first segment that is not in use; `none` goes to sleep on the
-- condition variable, from which the caller comes back to the loop.
unfoldable pub proxy_seg_acq : List Segment → Option (ℕ × List Segment)
proxy_seg_acq [] = none
proxy_seg_acq (s ∷ rest) =
    let later = proxy_seg_acq rest in
    if not s.in_use
    then some (0, record s { in_use = true } ∷ rest)
    else elim later [ none ↦ none | some (i, rest') ↦ some (suc i, s ∷ rest') ]

unfoldable pub proxy_seg_release : List Segment → ℕ → List Segment
proxy_seg_release [] i = []
proxy_seg_release (s ∷ rest) zero = record s { in_use = false } ∷ rest
proxy_seg_release (s ∷ rest) (suc i) = s ∷ proxy_seg_release rest i
