-- ===== src/Shm/Pool/Teardown.antt =====
-- What `proxy_pool_init` makes, `proxy_pool_destroy` gives back.
use c_exercises.Base.{
  ℕ, zero, suc, ◌+◌, ◌≡◌, refl, Bool, true, false, some, List, [], ◌∷◌, ◌++◌, ap, length,
  Bool-cases, inl, inr, ℤ, pos, is_negative,
}
use c_exercises.Shm.Pool.{
  Mapping, Segment, Setup, segment_init, init_from, proxy_pool_init, Release, segment_destroy,
  destroy_from, proxy_pool_destroy,
}

-- Everything that a segment needs is there.
pub record IsGood (s : Setup) : Type 0 where
  pub opened : is_negative s.shmfd ≡ false
  pub truncated : s.truncates ≡ true
  pub mapped : s.maps ≡ true
  pub empty : s.opens_empty ≡ true
  pub full : s.opens_full ≡ true

abbrev pub everything : ℕ → ℤ → List Release
everything i fd =
    Release.unmap i
    ∷ Release.close fd
    ∷ Release.close_empty i
    ∷ Release.close_full i
    ∷ Release.unlink_shm i
    ∷ Release.unlink_empty i
    ∷ Release.unlink_full i
    ∷ []

abbrev pub all_from : (ℕ → Setup) → ℕ → ℕ → List Release
all_from setup i zero = []
all_from setup i (suc n) = everything i (setup i).shmfd ++ all_from setup (i + 1) n

abbrev made : ℤ → Segment
made fd = record {
  shmfd = fd;
  addr = Mapping.mapped;
  sem_empty = true;
  sem_full = true;
  in_use = false;
}

segment_init-IsGood : (s : Setup) → IsGood s → segment_init s ≡ (made s.shmfd, true)
unfolding segment_init
segment_init-IsGood s is = rw (is.opened, is.truncated, is.mapped, is.empty, is.full) refl

segment_destroy-made :
    (i : ℕ) (fd : ℤ) → is_negative fd ≡ false → segment_destroy i (made fd) ≡ everything i fd
unfolding segment_destroy
segment_destroy-made i fd h = rw h refl

init_from-all :
    (setup : ℕ → Setup) (i n : ℕ)
    → ((j : ℕ) → IsGood (setup j))
    → ((init_from setup i n).0 ≡ pos 0)
      × (destroy_from i (init_from setup i n).1 ≡ all_from setup i n)
unfolding init_from destroy_from
init_from-all setup i zero good = (refl, refl)
init_from-all setup i (suc n) good =
    let rest = init_from-all setup (i + 1) n good in
    rw
      (
        segment_init-IsGood (setup i) (good i),
        rest.0,
        rest.1,
        segment_destroy-made i (setup i).shmfd (good i).opened,
      )
      (refl, refl)

-- When every call succeeds, `proxy_pool_init` returns 0 with a pool, of which `proxy_pool_destroy`
-- unmaps, closes and unlinks every segment's resources, each once and in the order of the segments.
proxy_pool_destroy-init :
    (setup : ℕ → Setup) (n : ℕ)
    → ((j : ℕ) → IsGood (setup j))
    → ((proxy_pool_init true setup n).0 ≡ pos 0)
      × (proxy_pool_destroy (proxy_pool_init true setup n).1 ≡ all_from setup 0 n)
unfolding proxy_pool_init proxy_pool_destroy
proxy_pool_destroy-init setup n good = init_from-all setup 0 n good

-- A segment behind which the loop of `proxy_pool_init` goes on.
goes_on-IsGood : (s : Setup) → (segment_init s).1 ≡ true → IsGood s
unfolding segment_init
goes_on-IsGood s h = elim (Bool-cases (is_negative s.shmfd)) [
  | inl bad ↦ absurd (cc (rw (segment_init, bad) at h))
  | inr fd ↦ elim (Bool-cases s.truncates) [
    | inr bad ↦ absurd (cc (rw (segment_init, fd, bad) at h))
    | inl truncates ↦ elim (Bool-cases s.maps) [
      | inr bad ↦ absurd (cc (rw (segment_init, fd, truncates, bad) at h))
      | inl maps ↦ elim (Bool-cases s.opens_empty) [
        | inr bad ↦ absurd (cc (rw (segment_init, fd, truncates, maps, bad) at h))
        | inl empty ↦ record {
          opened = fd;
          truncated = truncates;
          mapped = maps;
          empty = empty;
          full = rw (segment_init, fd, truncates, maps, empty) at h;
        }
      ]
    ]
  ]
]

-- The loop has made every segment, and `proxy_pool_destroy` gives all of them back.
pub record MakesAll (setup : ℕ → Setup) (i n : ℕ) (segments : List Segment) : Type 0 where
  pub count : length segments ≡ n
  pub given_back : destroy_from i segments ≡ all_from setup i n

init_from-MakesAll :
    (setup : ℕ → Setup) (i n : ℕ)
    → is_negative (init_from setup i n).0 ≡ false
    → MakesAll setup i n (init_from setup i n).1
unfolding init_from destroy_from
init_from-MakesAll setup i zero h = record { count = refl; given_back = refl }
init_from-MakesAll setup i (suc n) h = elim (Bool-cases (segment_init (setup i)).1) [
  | inr bad ↦ absurd (cc (rw (init_from, bad) at h))
  | inl good ↦
      let is = goes_on-IsGood (setup i) good in
      let later : is_negative (init_from setup (i + 1) n).0 ≡ false = rw (init_from, good) at h in
      let rest = init_from-MakesAll setup (i + 1) n later in
      let here = segment_init-IsGood (setup i) is in
      record {
        count = rw here (ap suc rest.count);
        given_back =
            rw (here, segment_destroy-made i (setup i).shmfd is.opened, rest.given_back) refl;
      }
]

-- A pool that `proxy_pool_init` does not fail on has all its segments, and `proxy_pool_destroy` gives back
-- all that was made.
pub proxy_pool_init-MakesAll :
    (calloc_ok : Bool) (setup : ℕ → Setup) (n : ℕ)
    → is_negative (proxy_pool_init calloc_ok setup n).0 ≡ false
    → (segments : List Segment) × ((proxy_pool_init calloc_ok setup n).1 ≡ some segments)
      × (length segments ≡ n)
      × (proxy_pool_destroy (some segments) ≡ all_from setup 0 n)
unfolding proxy_pool_init proxy_pool_destroy
proxy_pool_init-MakesAll false setup n h = absurd (cc h)
proxy_pool_init-MakesAll true setup n h =
    let made_all = init_from-MakesAll setup 0 n h in
    ((init_from setup 0 n).1, refl, made_all.count, made_all.given_back)
