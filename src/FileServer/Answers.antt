-- ===== src/FileServer/Answers.antt =====
-- What a worker of projects/mtgf/handler.c sends for a job.
use c_exercises.Base.{
  ℕ, zero, suc, ◌+◌, ◌-◌, ◌≤◌, ◌<◌, ◌≡◌, refl, sym, ◌∙◌, ap, Bool, true, false, Option, none, some,
  List, [], ◌∷◌, ◌++◌, arith, Bool-cases, inl, inr, length, take, drop, length-drop, take-length,
  take-append-take-drop, append-nil, ℤ, pos, negsuc, is_negative,
}
use mathlib.Core.Bool.{false≢true}
use c_exercises.Gfs.{Gfs, Piece, header, bytes, sent_next, sent_behind}
use c_exercises.GetFile.Send.{gf_ok, gf_file_not_found}
use c_exercises.Shm.Channel.Invariant.{ReadsFile}
use c_exercises.FileServer.{
  Job, Files, send_all, read_loop, send_file, send_size, refuse, answer_job,
}
use c_exercises.FileServer.Sending.{SendsAll, send_all-SendsAll}

length-take_le : (n : ℕ) (xs : List ℕ) → length (take n xs) ≤ length xs
length-take_le zero xs = omega arith
length-take_le (suc n) [] = omega arith
length-take_le (suc n) (x ∷ xs) = omega (arith, length-take_le n xs)

pos-is : (z : ℤ) → is_negative z ≡ false → (n : ℕ) × (z ≡ pos n)
pos-is (pos n) h = (n, refl)
pos-is (negsuc n) h = absurd (false≢true (sym h))

module _ (gfs : Gfs) where
  open gfs use {World, output, gfs_sendheader, header_sent}

  -- A run that returns; unless it wants an abort it has sent `pieces`, in
  -- this order, and nothing else.
  pub record Replies (ctx : ℕ) (pieces : List Piece) (w : World) (run : Option (Bool × World))
      : Type 0 where
    pub aborts : Bool
    pub world : World
    pub returns : run ≡ some (aborts, world)
    pub sent : aborts ≡ false → output world ctx ≡ output w ctx ++ pieces

  module _ (ctx : ℕ) (file : List ℕ) (read : ℕ → Option (List ℕ)) (is : ReadsFile file read) where
    abbrev Continues : ℕ → World → Type 0
    Continues fuel w₀ =
        (offset : ℕ) (w : World)
        → offset ≤ length file
        → length file - offset < fuel
        → output w ctx ≡ output w₀ ctx ++ bytes (take offset file)
        → Replies ctx (bytes file) w₀ (read_loop gfs fuel read ctx offset w)

    read-more :
        (fuel : ℕ) (w₀ : World)
        → Continues fuel w₀
        → (offset : ℕ) (w : World) → offset ≤ length file
        → length file - offset < suc fuel
        → output w ctx ≡ output w₀ ctx ++ bytes (take offset file)
        → (b : ℕ) (bs : List ℕ) → read offset ≡ some (b ∷ bs)
        → (s : SendsAll gfs ctx (b ∷ bs) w (send_all gfs ctx (b ∷ bs) w)) → (bad : Bool)
        → is_negative s.code ≡ bad
        → Replies ctx (bytes file) w₀ (read_loop gfs (suc fuel) read ctx offset w)
    unfolding read_loop
    read-more fuel w₀ rest offset w le h o b bs got s true bad = record {
      aborts = true;
      world = s.world;
      returns = rw (got, read_loop, s.returns, bad) refl;
      sent = λ e. cc;
    }
    read-more fuel w₀ rest offset w le h o b bs got s false good =
        let front : b ∷ bs ≡ take (length (b ∷ bs)) (drop offset file) =
          is.reads offset (b ∷ bs) got in
        let long : length (b ∷ bs) ≤ length (drop offset file) =
          rw (← front) at (length-take_le (length (b ∷ bs)) (drop offset file)) in
        rw (got, read_loop, s.returns, good)
          (rest (offset + length (b ∷ bs)) s.world
            (omega (arith, long, length-drop offset file, le))
            (omega (arith, h, le, long, length-drop offset file))
            (sent_next _ (take offset file) (b ∷ bs) o (s.sent good)
              ∙ ap (λ t. output w₀ ctx ++ bytes t)
                  (ap (λ t. take offset file ++ t) front
                    ∙ take-append-take-drop offset (length (b ∷ bs)) file)))

    read_loop-round :
        (fuel : ℕ) (w₀ : World)
        → Continues fuel w₀
        → (offset : ℕ) (w : World) → offset ≤ length file
        → length file - offset < suc fuel
        → output w ctx ≡ output w₀ ctx ++ bytes (take offset file)
        → (r : Option (List ℕ)) → read offset ≡ r
        → Replies ctx (bytes file) w₀ (read_loop gfs (suc fuel) read ctx offset w)
    unfolding read_loop
    read_loop-round fuel w₀ rest offset w le h o none e = record {
      aborts = true;
      world = w;
      returns = rw (e, read_loop) refl;
      sent = λ x. cc;
    }
    read_loop-round fuel w₀ rest offset w le h o (some []) e = record {
      aborts = false;
      world = w;
      returns = rw (e, read_loop) refl;
      sent =
          λ _. o ∙ ap (λ t. output w₀ ctx ++ bytes t) (take-length file offset (is.ends offset e));
    }
    read_loop-round fuel w₀ rest offset w le h o (some (b ∷ bs)) e =
        let s = send_all-SendsAll gfs ctx (b ∷ bs) w in
        read-more fuel w₀ rest offset w le h o b bs e s (is_negative s.code) refl

    read_loop-Continues : (fuel : ℕ) (w₀ : World) → Continues fuel w₀
    read_loop-Continues zero w₀ offset w le h o = absurd (omega arith)
    read_loop-Continues (suc fuel) w₀ offset w le h o =
        read_loop-round fuel w₀ (read_loop-Continues fuel w₀) offset w le h o (read offset) refl

    send_file-Replies :
        (len : ℕ) (w : World)
        → Replies ctx
            (header gf_ok len ∷ bytes file)
            w
            (send_file gfs (suc (length file)) read ctx len w)
    unfolding send_file
    send_file-Replies len w = elim (Bool-cases (is_negative (gfs_sendheader ctx gf_ok len w).0)) [
      | inl bad ↦ record {
        aborts = true;
        world = (gfs_sendheader ctx gf_ok len w).1;
        returns = rw (bad, send_file) refl;
        sent = λ e. cc;
      }
      | inr good ↦
          let (n, e) = pos-is (gfs_sendheader ctx gf_ok len w).0 good in
          let headed = header_sent ctx gf_ok len w n e in
          let w' = (gfs_sendheader ctx gf_ok len w).1 in
          let r =
            read_loop-Continues (suc (length file)) w' 0 w' (omega arith) (omega arith)
              (sym (append-nil (output w' ctx))) in
          record {
            aborts = r.aborts;
            world = r.world;
            returns = rw (good, send_file) r.returns;
            sent = λ e'. sent_behind _ (header gf_ok len) (bytes file) headed (r.sent e');
          }
    ]

  refuse-Replies :
      (ctx status : ℕ) (w : World) → Replies ctx (header status 0 ∷ []) w (refuse gfs ctx status w)
  unfolding refuse
  refuse-Replies ctx status w = record {
    aborts = is_negative (gfs_sendheader ctx status 0 w).0;
    world = (gfs_sendheader ctx status 0 w).1;
    returns = refl;
    sent = λ good.
        let (n, e) = pos-is (gfs_sendheader ctx status 0 w).0 good in
        header_sent ctx status 0 w n e;
  }

  -- A job whose file is in the table, can be duplicated and has a size, and of which `pread` reads the
  -- file, is answered: the worker comes to the end of the job, and unless it aborts the connection it
  -- has sent just the header for GF_OK with that size, and then the whole file.
  pub answer_job-Replies :
      (files : Files) (job : Job) (file : List ℕ) (len : ℕ) (w : World)
      → is_negative (files.content_get job.path) ≡ false
      → is_negative (files.dup (files.content_get job.path)) ≡ false
      → files.fstat (files.dup (files.content_get job.path)) ≡ some len
      → ReadsFile file (files.pread (files.dup (files.content_get job.path)))
      → Replies job.ctx
          (header gf_ok len ∷ bytes file)
          w
          (answer_job gfs (suc (length file)) files job w)
  unfolding answer_job send_size
  answer_job-Replies files job file len w based duped sized is =
      rw (based, duped, sized, answer_job)
        (send_file-Replies job.ctx file (files.pread (files.dup (files.content_get job.path))) is
          len w)

  -- A job whose path is not in the table is answered with the header for GF_FILE_NOT_FOUND and nothing
  -- behind it, or aborted.
  pub answer_job-refuses :
      (fuel : ℕ) (files : Files) (job : Job) (w : World)
      → is_negative (files.content_get job.path) ≡ true
      → Replies job.ctx (header gf_file_not_found 0 ∷ []) w (answer_job gfs fuel files job w)
  unfolding answer_job
  answer_job-refuses fuel files job w missing =
      rw (missing, answer_job) (refuse-Replies job.ctx gf_file_not_found w)
