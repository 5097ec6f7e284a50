-- ===== src/Handler/Queue/Refine.antt =====
-- The ring of projects/gflib/handler.c against a list of at most 20 jobs.
use c_exercises.Base.{
  ℕ, suc, ◌+◌, ◌%◌, ◌<◌, ◌≡◌, refl, ◌≢◌, ◌∙◌, true, false, inl, inr, Bool-cases, ==→eq, none, some,
  List, [], ◌∷◌, ◌++◌, arith, ◌==◌, length, length-append, length-set, get_elem?, set,
  get_elem?-set_self, get_elem?-set_ne, get_elem?-append_left, get_elem?-append_last, pos,
  minus_one,
}
use c_exercises.Handler.Queue.{queue_capacity, Queue, empty_queue, queue_push, queue_pop, IsQueue}

pub empty_queue-IsQueue : IsQueue empty_queue []
unfolding empty_queue
empty_queue-IsQueue = record {
  size = refl;
  head_in = omega arith;
  tail_at = refl;
  count = refl;
  fits = omega arith;
  holds = λ i h. absurd (omega arith);
}

module _ {q : Queue} {xs : List ℕ} (is : IsQueue q xs) where
  pushed-holds :
      (job i : ℕ)
      → length xs < queue_capacity
      → i < length (xs ++ job ∷ [])
      → get_elem? (set q.slots q.qtail job) ((q.qhead + i) % queue_capacity)
        ≡ get_elem? (xs ++ job ∷ []) i
  pushed-holds job i room h = elim (Bool-cases (i == length xs)) [
    | inl e ↦
        let e' = ==→eq i (length xs) e in
        let at : q.qtail ≡ (q.qhead + i) % queue_capacity = omega (arith, is.count, is.tail_at) in
        rw (← at, e', get_elem?-append_last xs job)
          (get_elem?-set_self q.slots q.qtail job (omega (arith, is.size, is.tail_at)))
    | inr n ↦
        let lt : i < length xs = ground (arith, length-append xs (job ∷ [])) in
        let ne : q.qtail ≢ (q.qhead + i) % queue_capacity =
          omega (arith, is.count, is.tail_at, is.head_in) in
        rw
          (
            get_elem?-set_ne q.slots q.qtail ((q.qhead + i) % queue_capacity) job ne,
            get_elem?-append_left xs (job ∷ []) i lt,
          )
          (is.holds i lt)
  ]

  -- With room left `queue_push` adds the job behind all others.
  pub queue_push-append :
      (job : ℕ)
      → length xs < queue_capacity
      → ((queue_push q job).0 ≡ pos 0) × IsQueue (queue_push q job).1 (xs ++ job ∷ [])
  unfolding queue_push
  queue_push-append job room =
      let more : (q.qcount == queue_capacity) ≡ false = ground (arith, is.count) in
      rw more (
        refl,
        record {
          size = length-set q.slots q.qtail job ∙ is.size;
          head_in = is.head_in;
          tail_at = omega (arith, is.tail_at, is.head_in);
          count = omega (arith, is.count, length-append xs (job ∷ []));
          fits = omega (arith, length-append xs (job ∷ []));
          holds = λ i h. pushed-holds job i room h;
        },
      )

  -- A full queue refuses the job and stays as it is.
  pub queue_push-full : (job : ℕ) → length xs ≡ queue_capacity → queue_push q job ≡ (minus_one, q)
  unfolding queue_push
  queue_push-full job full =
      let e : (q.qcount == queue_capacity) ≡ true = ground (arith, is.count) in rw e

-- On an empty queue `queue_pop` reports failure and changes nothing.
pub queue_pop-nil : {q : Queue} → IsQueue q [] → queue_pop q ≡ (minus_one, none, q)
unfolding queue_pop
queue_pop-nil is = rw is.count

-- On a queue with jobs `queue_pop` hands out the oldest job and keeps the others in order.
pub queue_pop-cons :
    {q : Queue} {x : ℕ} {xs : List ℕ}
    → IsQueue q (x ∷ xs)
    → ((queue_pop q).0 ≡ pos 0) × ((queue_pop q).1 ≡ some x) × IsQueue (queue_pop q).2 xs
unfolding queue_pop
queue_pop-cons {q} {x} {xs} is =
    let e : (q.qcount == 0) ≡ false = ground (arith, is.count) in
    let h0 : (q.qhead + 0) % queue_capacity ≡ q.qhead = omega (arith, is.head_in) in
    rw e (
      refl,
      rw h0 at (is.holds 0 (omega arith)),
      record {
        size = is.size;
        head_in = omega arith;
        tail_at = omega (arith, is.tail_at, is.head_in, is.count);
        count = omega (arith, is.count);
        fits = omega (arith, is.fits);
        holds = λ i h.
            let m : ((q.qhead + 1) % queue_capacity + i) % queue_capacity
                ≡ (q.qhead + suc i) % queue_capacity =
              omega arith in
            rw m (is.holds (suc i) (omega arith));
      },
    )
