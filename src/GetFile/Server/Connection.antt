-- ===== src/GetFile/Server/Connection.antt =====
-- What gfserver.c does with a connection, whatever comes in on it.
use c_exercises.Base.{
  ℕ, ◌+◌, ◌≡◌, refl, ◌∙◌, ap, ◌⊎◌, true, Option, none, some, List, [], ◌∷◌, ◌++◌, arith, inl, inr,
  ℤ, pos, minus_one, is_negative,
}
use c_exercises.Net.{Net, ◌>>=◌}
use c_exercises.Net.Ends.{Descriptors}
use c_exercises.GetFile.Send.{
  Context, gf_invalid, gf_error, header_text, gfs_sendheader, abort_context,
}
use c_exercises.GetFile.Send.Delivery.{Delivered, gfs_sendheader-Delivers}
use c_exercises.GetFile.Header.{HeaderRead, found, full, error, closed, buffer_size, read_header}
use c_exercises.GetFile.Header.Reading.{read_header-Reads}
use c_exercises.GetFile.Server.Closing.{Keeps-at, gfs_sendheader-Keeps, read_header-Keeps}
use c_exercises.GetFile.Server.Words.{IsRequest, header_string, parse_request-IsRequest}
use c_exercises.GetFile.Server.{
  Handler, parse_request, reject, call_handler, hang_up, answer_request, answer, serve_connection,
}

-- A header that was not received whole, or that does not read as a request for any path.
abbrev pub NoRequest : HeaderRead → Type 0
NoRequest (found buf e) = (path : List ℕ) → ¬ IsRequest (header_string buf e) path
NoRequest full = Unit
NoRequest error = Unit
NoRequest closed = Unit

module _ (net : Net) where
  open net use {World, close, shutdown}

  -- A bad request on a connection gets the header for GF_INVALID, or a part of it, and then the
  -- connection is shut down and closed.
  pub record Rejects (fd : ℕ) (w : World) (run : Option (Context × World)) : Type 0 where
    pub sent : ℤ × World
    pub delivered : Delivered net (pos fd) (header_text gf_invalid 0) w sent
    pub returns :
        run ≡ some (record { cont_cfd = minus_one }, close (pos fd) (shutdown (pos fd) sent.1))

  pub reject-Rejects : (fd : ℕ) (w : World) → Rejects fd w (reject net (pos fd) w)
  unfolding reject abort_context
  reject-Rejects fd w =
      let d =
        gfs_sendheader-Delivers net (record { cont_cfd = pos fd }) gf_invalid 0 w (omega arith) in
      record { sent = d.result; delivered = d.delivered; returns = rw (d.returns, reject) }

  answer_request-hang_up :
      (handler : Handler net) (fd : ℕ) (path : List ℕ) (w : World) {x : Context × World}
      → call_handler net handler (record { cont_cfd = pos fd }) path w ≡ some x
      → answer_request net handler (pos fd) (some path) w ≡ hang_up net x.0 x.1
  unfolding answer_request
  answer_request-hang_up handler fd path w e = rw (e, ◌>>=◌)

  -- A header without a request yields no path.
  answer_request-Rejects :
      (handler : Handler net) (fd e : ℕ) (buf : List ℕ) (w : World)
      → NoRequest (found buf e)
      → (path : Option (List ℕ)) → parse_request buf e ≡ path
      → Rejects fd w (answer_request net handler (pos fd) path w)
  unfolding answer_request
  answer_request-Rejects handler fd e buf w bad none read = reject-Rejects fd w
  answer_request-Rejects handler fd e buf w bad (some path) read =
      absurd (bad path (parse_request-IsRequest buf e path read))

  answer-Rejects :
      (handler : Handler net) (fd : ℕ) (header : HeaderRead) (w : World)
      → NoRequest header
      → Rejects fd w (answer net handler (pos fd) header w)
  unfolding answer
  answer-Rejects handler fd (found buf e) w bad =
      answer_request-Rejects handler fd e buf w bad (parse_request buf e) refl
  answer-Rejects handler fd full w bad = reject-Rejects fd w
  answer-Rejects handler fd error w bad = reject-Rejects fd w
  answer-Rejects handler fd closed w bad = reject-Rejects fd w

  -- What the server read decides the answer: if it found no end of a header in what came, or if what it
  -- read does not consist of GETFILE, GET and a path with a slash in front, apart by white space,
  -- then the connection gets the header for GF_INVALID, or a part of it, and is shut down and closed,
  -- without a call of the callback.
  pub serve_connection-Rejects :
      (handler : Handler net) (fd : ℕ) (w w' : World) (header : HeaderRead)
      → read_header net (buffer_size + 1) (pos fd) [] w ≡ some (header, w')
      → NoRequest header
      → Rejects fd w' (serve_connection net handler (pos fd) w)
  unfolding serve_connection read_header
  serve_connection-Rejects handler fd w w' header e bad =
      rw e (answer-Rejects handler fd header w' bad)

  module _ (descriptors : Descriptors net) where
    open descriptors use {close_closed, shutdown_closed}

    -- What a callback does to its context, besides sending: it leaves it as it is and closes nothing, or
    -- gives the connection up through `gfs_abort`.
    abbrev Leaves : Context → World → Context × World → Type 0
    Leaves ctx w (ctx', w') =
        ((ctx' ≡ ctx) × (descriptors.closed w' ≡ descriptors.closed w))
        ⊎ ((is_negative ctx'.cont_cfd ≡ true)
            × (descriptors.closed w' ≡ descriptors.closed w ++ ctx.cont_cfd ∷ []))

    -- The callback comes back for every path and world.
    abbrev pub Answers : Handler net → Type 0
    Answers none = Unit
    Answers (some handler) =
        (ctx : Context) (path : List ℕ) (w : World)
        → (x : Context × World) × (handler ctx path w ≡ some x) × Leaves ctx w x

    -- A run that comes back, has closed the connection's descriptor once and no other one, and has
    -- forgotten it.
    pub record Closes (fd : ℕ) (w : World) (run : Option (Context × World)) : Type 0 where
      pub context : Context
      pub world : World
      pub returns : run ≡ some (context, world)
      pub forgotten : is_negative context.cont_cfd ≡ true
      pub once : descriptors.closed world ≡ descriptors.closed w ++ pos fd ∷ []

    behind_same :
        (fd : ℕ) {w w₁ : World} {run : Option (Context × World)}
        → descriptors.closed w₁ ≡ descriptors.closed w
        → Closes fd w₁ run
        → Closes fd w run
    behind_same fd same c = record {
      context = c.context;
      world = c.world;
      returns = c.returns;
      forgotten = c.forgotten;
      once = c.once ∙ ap (λ t. t ++ pos fd ∷ []) same;
    }

    hung_up :
        (fd : ℕ) (w : World)
        → descriptors.closed (close (pos fd) (shutdown (pos fd) w))
          ≡ descriptors.closed w ++ pos fd ∷ []
    hung_up fd w =
        close_closed (pos fd) (shutdown (pos fd) w)
        ∙ ap (λ t. t ++ pos fd ∷ []) (shutdown_closed (pos fd) w)

    hang_up-Closes :
        (fd : ℕ) (w : World) (x : Context × World)
        → Leaves (record { cont_cfd = pos fd }) w x
        → Closes fd w (hang_up net x.0 x.1)
    unfolding hang_up
    hang_up-Closes fd w (ctx, w') (inl (same, kept)) =
        let cfd : ctx.cont_cfd ≡ pos fd = ap (λ c. c.cont_cfd) same in
        behind_same fd kept (
          rw cfd (record {
            context = record { cont_cfd = minus_one };
            world = close (pos fd) (shutdown (pos fd) w');
            returns = refl;
            forgotten = refl;
            once = hung_up fd w';
          }))
    hang_up-Closes fd w (ctx, w') (inr (negative, gone)) = record {
      context = ctx;
      world = w';
      returns = rw negative;
      forgotten = negative;
      once = gone;
    }

    call_handler-returns :
        (handler : Handler net) (ctx : Context) (path : List ℕ) (w : World)
        → Answers handler
        → (x : Context × World) × (call_handler net handler ctx path w ≡ some x) × Leaves ctx w x
    unfolding call_handler gfs_sendheader
    call_handler-returns none ctx path w h =
        let d = gfs_sendheader-Delivers net ctx gf_error 0 w (omega arith) in
        let kept =
          Keeps-at net descriptors (gfs_sendheader net (some ctx) gf_error 0 w) d.result d.returns
            (gfs_sendheader-Keeps net descriptors ctx gf_error 0 w) in
        ((ctx, d.result.1), rw d.returns refl, inl (refl, kept))
    call_handler-returns (some handler) ctx path w h = h ctx path w

    reject-Closes : (fd : ℕ) (w : World) → Closes fd w (reject net (pos fd) w)
    unfolding reject abort_context
    reject-Closes fd w =
        let ctx : Context = record { cont_cfd = pos fd } in
        let d = gfs_sendheader-Delivers net ctx gf_invalid 0 w (omega arith) in
        let kept =
          Keeps-at net descriptors (gfs_sendheader net (some ctx) gf_invalid 0 w) d.result d.returns
            (gfs_sendheader-Keeps net descriptors ctx gf_invalid 0 w) in
        behind_same fd kept (record {
          context = record { cont_cfd = minus_one };
          world = close (pos fd) (shutdown (pos fd) d.result.1);
          returns = rw (d.returns, reject) refl;
          forgotten = refl;
          once = hung_up fd d.result.1;
        })

    answer-Closes :
        (handler : Handler net) (fd : ℕ) (header : HeaderRead) (w : World)
        → Answers handler
        → Closes fd w (answer net handler (pos fd) header w)
    unfolding answer answer_request
    answer-Closes handler fd full w h = reject-Closes fd w
    answer-Closes handler fd error w h = reject-Closes fd w
    answer-Closes handler fd closed w h = reject-Closes fd w
    answer-Closes handler fd (found buf e) w h = on_path (parse_request buf e)
      where
        on_path :
            (path : Option (List ℕ)) → Closes fd w (answer_request net handler (pos fd) path w)
        on_path none = reject-Closes fd w
        on_path (some path) =
            let (x, returns, leaves) =
              call_handler-returns handler (record { cont_cfd = pos fd }) path w h in
            rw (answer_request-hang_up handler fd path w returns) (hang_up-Closes fd w x leaves)

    -- Whatever comes in, a connection is served to its end if the callback comes back, and its
    -- descriptor, and no other one, is closed then, once.
    pub serve_connection-Closes :
        (handler : Handler net) (fd : ℕ) (w : World)
        → Answers handler
        → Closes fd w (serve_connection net handler (pos fd) w)
    unfolding serve_connection read_header
    serve_connection-Closes handler fd w h =
        let reading = read_header-Reads net (pos fd) w in
        let kept =
          Keeps-at net descriptors (read_header net (buffer_size + 1) (pos fd) [] w) reading.result
            reading.returns (read_header-Keeps net descriptors (buffer_size + 1) (pos fd) [] w) in
        rw reading.returns
          (behind_same fd kept (answer-Closes handler fd reading.result.0 reading.result.1 h))
