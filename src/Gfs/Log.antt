-- ===== src/Gfs/Log.antt =====
-- A server library that records what it sends, two bytes at a time, for the tests of the handlers.
use c_exercises.Base.{
  ℕ, ◌≤◌, ◌≡◌, refl, ap, subst, List, [], ◌∷◌, ◌++◌, arith, ltb, if◌then◌else◌, length, take, ℤ,
  pos,
}
use c_exercises.Gfs.{Piece, header, bytes, Gfs}

abbrev pub Log : Type 0
Log = List Piece

abbrev pub least : ℕ → ℕ → ℕ
least a b = if ltb a b then a else b

least_left : (a b : ℕ) → least a b ≤ a
least_left a b = ground arith

abbrev pub log_send : ℕ → List ℕ → Log → ℤ × Log
log_send ctx d w = (pos (least (length d) 2), w ++ bytes (take (least (length d) 2) d))

abbrev pub log_header : ℕ → ℕ → ℕ → Log → ℤ × Log
log_header ctx status len w = (pos 0, w ++ header status len ∷ [])

pos-inj : (a b : ℕ) → pos a ≡ pos b → a ≡ b
pos-inj a b h = cc

pub log_send-sent :
    (ctx : ℕ) (d : List ℕ) (w : Log) (n : ℕ)
    → (log_send ctx d w).0 ≡ pos n
    → (n ≤ length d) × ((log_send ctx d w).1 ≡ w ++ bytes (take n d))
log_send-sent ctx d w n e =
    let same : least (length d) 2 ≡ n = pos-inj (least (length d) 2) n e in
    (subst (λ k. k ≤ length d) same (least_left (length d) 2), ap (λ k. w ++ bytes (take k d)) same)

-- Every context is the same log, and an abort is not recorded.
abbrev pub logged : Gfs
logged = record {
  World = Log;
  output = λ w ctx. w;
  gfs_sendheader = log_header;
  gfs_send = log_send;
  gfs_abort = λ ctx w. w;
  header_sent = λ ctx status len w n e. refl;
  data_sent = log_send-sent;
}

abbrev pub fresh : Log
fresh = []
