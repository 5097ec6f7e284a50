-- ===== src/Echo/Serving.antt =====
-- What the echo server sends back to a client.
use c_exercises.Base.{
  ℕ, zero, suc, ◌≤◌, ◌<◌, ◌≡◌, refl, sym, ◌∙◌, ap, Bool, true, false, Option, some, List, [], ◌∷◌,
  ◌++◌, arith, ◌==◌, ltb, Bool-cases, inl, inr, length, take, take-length, drop, take-append-drop,
  length-append, append-nil, append_assoc, ℤ, pos, negsuc, is_negative,
}
use c_exercises.Net.{Net, Received, failed, got}
use c_exercises.Net.Ends.{Duplex}
use c_exercises.Echo.{
  Ending, hangs_up, gives_up, send_back, echo_loop, echo_client, echoserver_loop,
}
use c_exercises.Sockets.{Outcome, waits, ended}

module _ (net : Net) (duplex : Duplex net) where
  open net use {World, send, sent, recv, incoming, close, recv_some, send_some, send_none}
  open duplex use {recv_sent, send_incoming, recv_end}

  -- What a client has been sent when its loop ends: its whole stream if it has hung up, and otherwise
  -- a front part of it.
  abbrev pub Echoed : ℤ → World → Ending × World → Type 0
  Echoed fd w (hangs_up, w') = sent w' fd ≡ sent w fd ++ incoming w fd
  Echoed fd w (gives_up, w') =
      (out : List ℕ) × (rest : List ℕ) × (incoming w fd ≡ out ++ rest)
      × (sent w' fd ≡ sent w fd ++ out)

  pub record Echoes (fd : ℤ) (w : World) (run : Option (Ending × World)) : Type 0 where
    pub end : Ending × World
    pub returns : run ≡ some end
    pub echoed : Echoed fd w end

  -- What `send_back` has done: all has been sent, or a part of it.
  abbrev SentBack : ℤ → List ℕ → World → Bool × World → Type 0
  SentBack fd d w (true, w') = (sent w' fd ≡ sent w fd ++ d) × (incoming w' fd ≡ incoming w fd)
  SentBack fd d w (false, w') = (m : ℕ) × (sent w' fd ≡ sent w fd ++ take m d)

  send_back-sent :
      (fd : ℤ) (d : List ℕ) (w : World) (r : ℤ)
      → (send fd d w).0 ≡ r
      → SentBack fd d w (elim r [ negsuc k ↦ false | pos n ↦ n == length d ], (send fd d w).1)
  send_back-sent fd d w (negsuc k) e = (0, send_none fd d w k e ∙ sym (append-nil (sent w fd)))
  send_back-sent fd d w (pos n) e =
      let (le, s) = send_some fd d w n e in
      elim (Bool-cases (n == length d)) [
        | inl whole ↦
            let at_end : length d ≤ n = ground arith in
            rw whole (s ∙ ap (λ t. sent w fd ++ t) (take-length d n at_end), send_incoming fd d w)
        | inr short ↦ rw short (n, s)
      ]

  send_back-lem : (fd : ℤ) (d : List ℕ) (w : World) → SentBack fd d w (send_back net fd d w)
  send_back-lem fd d w = elim (Bool-cases (ltb 15 (length d))) [
    | inl long ↦ rw long (0, sym (append-nil (sent w fd)))
    | inr fits ↦ rw fits (send_back-sent fd d w (send fd d w).0 refl)
  ]

  -- A run behind a message that has been sent back.
  Echoed-behind :
      (fd : ℤ) (w w₁ : World) (d : List ℕ) (end : Ending × World)
      → incoming w fd ≡ d ++ incoming w₁ fd
      → sent w₁ fd ≡ sent w fd ++ d
      → Echoed fd w₁ end
      → Echoed fd w end
  Echoed-behind fd w w₁ d (hangs_up, w') split back e =
      e ∙ rw (back, split) (append_assoc (sent w fd) d (incoming w₁ fd))
  Echoed-behind fd w w₁ d (gives_up, w') split back (out, rest, part, e) = (
    d ++ out,
    rest,
    split ∙ ap (λ t. d ++ t) part ∙ sym (append_assoc d out rest),
    e ∙ rw back (append_assoc (sent w fd) d out),
  )

  Echoes-behind :
      (fd : ℤ) (w w₁ : World) (d : List ℕ) (run : Option (Ending × World))
      → incoming w fd ≡ d ++ incoming w₁ fd
      → sent w₁ fd ≡ sent w fd ++ d
      → Echoes fd w₁ run
      → Echoes fd w run
  Echoes-behind fd w w₁ d run split back e = record {
    end = e.end;
    returns = e.returns;
    echoed = Echoed-behind fd w w₁ d e.end split back e.echoed;
  }

  -- From where on the loop echoes.
  abbrev Continues : ℕ → ℤ → Type 0
  Continues fuel fd =
      (w : World) → length (incoming w fd) < fuel → Echoes fd w (echo_loop net fuel fd w)

  -- The round behind a `recv` that has returned `d`.
  after_back :
      (fuel : ℕ) (fd : ℤ) (w w₁ : World) (d : List ℕ) (s : Bool × World)
      → Continues fuel fd
      → 0 < length d
      → length (incoming w fd) < suc fuel
      → incoming w fd ≡ d ++ incoming w₁ fd
      → sent w₁ fd ≡ sent w fd
      → SentBack fd d w₁ s
      → Echoes fd w (elim s.0 [ false ↦ some (gives_up, s.1) | true ↦ echo_loop net fuel fd s.1 ])
  after_back fuel fd w w₁ d (false, w₂) rest some_byte h split same (m, back) = record {
    end = (gives_up, w₂);
    returns = refl;
    echoed = (
      take m d,
      drop m d ++ incoming w₁ fd,
      split
          ∙ ap (λ t. t ++ incoming w₁ fd) (sym (take-append-drop m d))
          ∙ append_assoc (take m d) (drop m d) (incoming w₁ fd),
      back ∙ ap (λ t. t ++ take m d) same,
    );
  }
  after_back fuel fd w w₁ d (true, w₂) rest some_byte h split same (back, kept) =
      let split₂ : incoming w fd ≡ d ++ incoming w₂ fd = split ∙ ap (λ t. d ++ t) (sym kept) in
      let shorter : length (incoming w₂ fd) < fuel =
        omega (arith, ap length split₂, length-append d (incoming w₂ fd)) in
      Echoes-behind fd w w₂ d (echo_loop net fuel fd w₂) split₂ (back ∙ ap (λ t. t ++ d) same)
        (rest w₂ shorter)

  echo_round :
      (fuel : ℕ) (fd : ℤ) (w : World)
      → Continues fuel fd
      → length (incoming w fd) < suc fuel
      → (r : Received) → (recv fd 16 w).0 ≡ r
      → Echoes fd w (echo_loop net (suc fuel) fd w)
  unfolding echo_loop
  echo_round fuel fd w rest h failed r =
      rw (r, echo_loop)
        (record {
          end = (gives_up, (recv fd 16 w).1);
          returns = refl;
          echoed = ([], incoming w fd, refl, recv_sent fd 16 w ∙ sym (append-nil (sent w fd)));
        })
  echo_round fuel fd w rest h (got []) r =
      rw (r, echo_loop)
        (record {
          end = (hangs_up, (recv fd 16 w).1);
          returns = refl;
          echoed =
              recv_sent fd 16 w
              ∙ sym (append-nil (sent w fd))
              ∙ ap (λ t. sent w fd ++ t) (sym (recv_end fd 15 w r));
        })
  echo_round fuel fd w rest h (got (b ∷ bs)) r =
      let w₁ = (recv fd 16 w).1 in
      rw (r, echo_loop)
        (after_back fuel fd w w₁ (b ∷ bs) (send_back net fd (b ∷ bs) w₁) rest (omega arith) h
          (recv_some fd 16 w (b ∷ bs) r).1 (recv_sent fd 16 w) (send_back-lem fd (b ∷ bs) w₁))

  echo_loop-Echoes : (fuel : ℕ) (fd : ℤ) → Continues fuel fd
  echo_loop-Echoes zero fd w h = absurd (omega arith)
  echo_loop-Echoes (suc fuel) fd w h =
      echo_round fuel fd w (echo_loop-Echoes fuel fd) h (recv fd 16 w).0 refl

  -- The server's loop over a client ends: a client that hangs up has been sent back its whole stream,
  -- in order, and one that the server gives up has been sent back a front part of it.
  pub echo_client-Echoes : (fd : ℤ) (w : World) → Echoes fd w (echo_client net fd w)
  unfolding echo_client
  echo_client-Echoes fd w = echo_loop-Echoes (suc (length (incoming w fd))) fd w (omega arith)

  next_client :
      (listenfd fd : ℤ) (fds : List ℤ) (w : World) (e : Ending × World)
      → is_negative fd ≡ false
      → echo_client net fd w ≡ some e
      → ((w' : World) → (end : Outcome × World) × (echoserver_loop net listenfd fds w' ≡ some end))
      → (end : Outcome × World) × (echoserver_loop net listenfd (fd ∷ fds) w ≡ some end)
  unfolding echoserver_loop
  next_client listenfd fd fds w (hangs_up, w') accepted e rest =
      let (end, returns) = rest (close fd w') in (end, rw (accepted, echoserver_loop, e) returns)
  next_client listenfd fd fds w (gives_up, w') accepted e rest =
      ((ended 1, close listenfd (close fd w')), rw (accepted, echoserver_loop, e) refl)

  -- The server's outer loop gets to `accept` again or exits, whatever `accept` returns.
  pub echoserver_loop-returns :
      (listenfd : ℤ) (clients : List ℤ) (w : World)
      → (end : Outcome × World) × (echoserver_loop net listenfd clients w ≡ some end)
  unfolding echoserver_loop
  echoserver_loop-returns listenfd [] w = ((waits, w), refl)
  echoserver_loop-returns listenfd (fd ∷ fds) w = elim (Bool-cases (is_negative fd)) [
    | inl refused ↦ ((ended 1, close listenfd w), rw (refused, echoserver_loop) refl)
    | inr accepted ↦
        let e = echo_client-Echoes fd w in
        next_client listenfd fd fds w e.end accepted e.returns
          (echoserver_loop-returns listenfd fds)
  ]
