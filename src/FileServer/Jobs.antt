-- ===== src/FileServer/Jobs.antt =====
-- The queue of projects/mtgf/handler.c, over any sequence of requests, workers' passes and the shutdown.
use c_exercises.Base.{
  ◌≡◌, refl, sym, ◌∙◌, ap, Bool, true, false, List, [], ◌∷◌, ◌++◌, append-nil, append_assoc,
}
use c_exercises.FileServer.{Job, Shared, server_worker_job, gfs_handler, cleanup_threads}

pub data Event : Type 0 where
  request : Bool → Job → Event
  worker shutdown : Event

pub happens : Event → Shared → Shared
happens (request calloc_ok job) s = (gfs_handler calloc_ok job s).1
happens worker s = (server_worker_job s).1
happens shutdown s = cleanup_threads s

pub history : List Event → Shared → Shared
history [] s = s
history (e ∷ es) s = history es (happens e s)

-- The jobs that `gfs_handler` has accepted.
abbrev pub accepted : List Event → List Job
accepted [] = []
accepted (request true job ∷ es) = job ∷ accepted es
accepted (_ ∷ es) = accepted es

worker-conserves :
    (s : Shared)
    → (server_worker_job s).1.popped ++ (server_worker_job s).1.queue ≡ s.popped ++ s.queue
unfolding server_worker_job
worker-conserves s = go s.queue s.popped s.queueing_done
  where
    go :
        (q p : List Job) (b : Bool)
        → (server_worker_job (record { queue = q; queueing_done = b; popped = p })).1.popped
            ++ (server_worker_job (record { queue = q; queueing_done = b; popped = p })).1.queue
          ≡ p ++ q
    go [] p b = refl
    go (job ∷ rest) p b = append_assoc p (job ∷ []) rest

-- No job is lost, doubled or overtaken: what the workers have popped, and behind it what waits, is what
-- stood there before, and behind it the accepted jobs in the order of the requests.
history-conserves :
    (es : List Event) (s : Shared)
    → (history es s).popped ++ (history es s).queue ≡ (s.popped ++ s.queue) ++ accepted es
unfolding history happens gfs_handler cleanup_threads
history-conserves [] s = sym (append-nil (s.popped ++ s.queue))
history-conserves (request true job ∷ es) s =
    history-conserves es (record s { queue = s.queue ++ job ∷ [] })
    ∙ ap (λ t. t ++ accepted es) (sym (append_assoc s.popped s.queue (job ∷ [])))
    ∙ append_assoc (s.popped ++ s.queue) (job ∷ []) (accepted es)
history-conserves (request false job ∷ es) s = history-conserves es s
history-conserves (worker ∷ es) s =
    history-conserves es (server_worker_job s).1 ∙ ap (λ t. t ++ accepted es) (worker-conserves s)
history-conserves (shutdown ∷ es) s = history-conserves es (record s { queueing_done = true })
