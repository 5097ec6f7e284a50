-- ===== src/Echo/Talking.antt =====
-- What the echo client prints, alone and with the echo server at the other end.
use c_exercises.Base.{
  ℕ, zero, suc, ◌≤◌, ◌<◌, ◌≡◌, refl, sym, ◌∙◌, ap, false, List, ◌++◌, arith, ◌==◌, ◌||◌, ltb, leb,
  Bool-cases, inl, inr, length, take-length, ℤ, pos, negsuc,
}
use c_exercises.Net.{Net, Received, failed, got}
use c_exercises.Net.Ends.{Duplex, Sink}
use c_exercises.Echo.{echoclient_talk, print_answer, await_answer}

module _ (net : Net) (duplex : Duplex net) (sink : Sink) where
  open net use {World, send, sent, recv, incoming, recv_some, send_some}
  open sink use {File, written, write, write_some}
  open duplex use {recv_sent, send_incoming, close_sent}

  -- What is printed of what is to come in on `fd`: one byte at least and 15 at most, from the front.
  pub record Prints (fd : ℤ) (w : World) (out out' : File) : Type 0 where
    pub answer : List ℕ
    pub rest : List ℕ
    pub some_byte : 0 < length answer
    pub short : length answer ≤ 15
    pub in_front : incoming w fd ≡ answer ++ rest
    pub on_output : written out' ≡ written out ++ answer

  abbrev Answered : ℤ → World → File → ℕ × World × File → Type 0
  Answered fd w out (zero, w', out') = (sent w' fd ≡ sent w fd) × Prints fd w out out'
  Answered fd w out (suc code, w', out') = code ≡ 0

  print_answer-written :
      (fd : ℤ) (d : List ℕ) (w w₁ : World) (out : File) (r : ℤ)
      → (write d out).0 ≡ r
      → 0 < length d
      → length d ≤ 15
      → incoming w fd ≡ d ++ incoming w₁ fd
      → sent w₁ fd ≡ sent w fd
      → Answered fd w out (print_answer net sink fd d w₁ out)
  unfolding print_answer
  print_answer-written fd d w w₁ out (negsuc k) r some_byte short split same =
      rw (print_answer, r) refl
  print_answer-written fd d w w₁ out (pos m) r some_byte short split same =
      elim (Bool-cases (m == length d)) [
        | inr part ↦ rw (print_answer, r, part) refl
        | inl whole ↦
            let at_end : length d ≤ m = ground arith in
            rw (print_answer, r, whole)
              (
                close_sent fd w₁ ∙ same,
                record {
                  answer = d;
                  rest = incoming w₁ fd;
                  some_byte = some_byte;
                  short = short;
                  in_front = split;
                  on_output =
                      (write_some d out m r).1
                      ∙ ap (λ t. written out ++ t) (take-length d m at_end);
                },
              )
      ]

  await_answer-Answered :
      (fd : ℤ) (w : World) (out : File) (r : Received)
      → (recv fd 16 w).0 ≡ r
      → Answered fd w out (await_answer net sink fd w out)
  unfolding await_answer
  await_answer-Answered fd w out failed r = rw (await_answer, r) refl
  await_answer-Answered fd w out (got d) r =
      elim (Bool-cases (leb (length d) 0 || ltb 15 (length d))) [
        | inl wrong ↦ rw (await_answer, r, wrong) refl
        | inr fits ↦
            rw (await_answer, r, fits)
              (print_answer-written fd d w (recv fd 16 w).1 out (write d out).0 refl (ground arith)
                (ground arith) (recv_some fd 16 w d r).1 (recv_sent fd 16 w))
      ]

  -- A run that exits with 0 has sent the message, of 15 bytes at most, and printed from the front of
  -- what comes in. Any other run exits with 1.
  abbrev pub Talked : ℤ → List ℕ → World → File → ℕ × World × File → Type 0
  Talked fd message w out (zero, w', out') =
      (length message ≤ 15) × (sent w' fd ≡ sent w fd ++ message) × Prints fd w out out'
  Talked fd message w out (suc code, w', out') = code ≡ 0

  behind_send :
      (fd : ℤ) (message : List ℕ) (w w₁ : World) (out : File) (end : ℕ × World × File)
      → length message ≤ 15
      → sent w₁ fd ≡ sent w fd ++ message
      → incoming w₁ fd ≡ incoming w fd
      → Answered fd w₁ out end
      → Talked fd message w out end
  behind_send fd message w w₁ out (suc code, w', out') fits s kept a = a
  behind_send fd message w w₁ out (zero, w', out') fits s kept (same, p) = (
    fits,
    same ∙ s,
    record {
      answer = p.answer;
      rest = p.rest;
      some_byte = p.some_byte;
      short = p.short;
      in_front = sym kept ∙ p.in_front;
      on_output = p.on_output;
    },
  )

  talk-sent :
      (fd : ℤ) (message : List ℕ) (w : World) (out : File) (r : ℤ)
      → ltb 15 (length message) ≡ false
      → (send fd message w).0 ≡ r
      → Talked fd message w out (echoclient_talk net sink fd message w out)
  unfolding echoclient_talk
  talk-sent fd message w out (negsuc k) fits r = rw (echoclient_talk, fits, r) refl
  talk-sent fd message w out (pos n) fits r = elim (Bool-cases (n == length message)) [
    | inr part ↦ rw (echoclient_talk, fits, r, part) refl
    | inl whole ↦
        let w₁ = (send fd message w).1 in
        let at_end : length message ≤ n = ground arith in
        rw (echoclient_talk, fits, r, whole)
          (behind_send fd message w w₁ out (await_answer net sink fd w₁ out) (ground arith)
            ((send_some fd message w n r).1
              ∙ ap (λ t. sent w fd ++ t) (take-length message n at_end))
            (send_incoming fd message w) (await_answer-Answered fd w₁ out (recv fd 16 w₁).0 refl))
  ]

  -- The echo client exits with 0 only if its message has at most 15 bytes, has been sent whole, and
  -- 1 to 15 bytes from the front of the server's stream have been printed; else it exits with 1.
  pub echoclient_talk-Talked :
      (fd : ℤ) (message : List ℕ) (w : World) (out : File)
      → Talked fd message w out (echoclient_talk net sink fd message w out)
  unfolding echoclient_talk
  echoclient_talk-Talked fd message w out = elim (Bool-cases (ltb 15 (length message))) [
    | inl long ↦ rw (echoclient_talk, long) refl
    | inr fits ↦ talk-sent fd message w out (send fd message w).0 fits refl
  ]
