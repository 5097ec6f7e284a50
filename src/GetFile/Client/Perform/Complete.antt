-- ===== src/GetFile/Client/Perform/Complete.antt =====
-- The length of what `gfc_perform` has passed on when it reports success.
use c_exercises.Base.{
  ℕ, zero, suc, ◌+◌, ◌≤◌, ◌≡◌, Bool, true, false, not, Option, none, some, List, [], ◌∷◌, arith,
  ◌==◌, leb, Bool-cases, inl, inr, if-cases, length, take, ℤ, pos, negsuc, minus_one, is_negative,
}
use c_exercises.Net.{Net}
use c_exercises.GetFile.Send.{send_loop}
use c_exercises.GetFile.Send.Delivery.{send_loop-all}
use c_exercises.GetFile.Header.Reading.{read_header-Reads}
use c_exercises.GetFile.Client.Perform.Counting.{
  Completes, IsFresh, fails-Completes, after_header-Completes,
}
use c_exercises.GetFile.Header.{buffer_size, read_header}
use c_exercises.GetFile.Client.{Status, Request}
use c_exercises.GetFile.Client.Perform.{
  Dial, with_status, request_text, after_header, receive, gfc_perform, connect_loop, after_send,
  exchange, perform_on, perform_if,
}

length-take_most : (n : ℕ) (xs : List ℕ) → length (take n xs) ≤ n
length-take_most zero xs = omega arith
length-take_most (suc n) [] = omega arith
length-take_most (suc n) (x ∷ xs) = omega (arith, length-take_most n xs)

module _ (net : Net) where
  open net use {World}

  -- Behind a step that comes to its end.
  bind-Completes :
      {A : Type 0} (step : Option (A × World)) (e : A × World)
      (next : A → World → Option ((ℤ × Request) × World))
      → step ≡ some e
      → ((a : A) (w : World) → Completes net (next a w))
      → Completes net (elim step [ none ↦ none | some (a, w) ↦ next a w ])
  bind-Completes step e next returns all = rw returns (all e.0 e.1)

  receive-Completes :
      (r : Request) (fd : ℤ) (w : World) → IsFresh r → Completes net (receive net r fd w)
  unfolding receive
  receive-Completes r fd w f =
      let h = read_header-Reads net fd w in
      bind-Completes (read_header net (buffer_size + 1) fd [] w) h.result (after_header net r fd)
        h.returns (λ h w'. after_header-Completes net r fd h w' f)

  after_send-Completes :
      (r : Request) (fd code : ℤ) (w : World)
      → IsFresh r
      → Completes net (after_send net r fd code w)
  unfolding after_send
  after_send-Completes r fd (pos n) w f = receive-Completes r fd w f
  after_send-Completes r fd (negsuc n) w f = fails-Completes net (with_status r Status.error) fd w

  exchange-Completes :
      (r : Request) (text : List ℕ) (fd : ℤ) (w : World)
      → IsFresh r
      → Completes net (exchange net r text fd w)
  unfolding exchange
  exchange-Completes r text fd w f = elim (Bool-cases (leb buffer_size (length text))) [
    | inl long ↦ rw long (fails-Completes net (with_status r Status.invalid) fd w)
    | inr fits ↦
        let d = send_loop-all net fd text w in
        rw fits (
          bind-Completes (send_loop net (length text + 1) fd text (length text) 0 w) d.result
            (after_send net r fd) d.returns (λ code w'. after_send-Completes r fd code w' f))
  ]

  perform_on-Completes :
      (r : Request) (server_path : List ℕ) (dial : Dial) (w : World)
      → IsFresh r
      → Completes net (perform_on net r server_path dial w)
  unfolding perform_on
  perform_on-Completes r server_path dial w f =
      let r' = record r { bytes_received = 0; file_len = 0; status = Status.invalid } in
      let c = connect_loop net minus_one dial.addresses w in
      if-cases (Completes net) (not dial.resolves) (λ _ h. cc)
        (λ _.
          if-cases (Completes net) (is_negative c.0) (λ _ h. cc)
            (λ _.
              exchange-Completes r' (request_text server_path) c.0 c.1
                (record { is_set = f.is_set; no_output = f.no_output })))

  perform_if-Completes :
      (r : Request) (server file_path : Option (List ℕ)) (port_set : Bool) (dial : Dial) (w : World)
      → IsFresh r
      → Completes net (perform_if net r server file_path port_set dial w)
  unfolding perform_if
  perform_if-Completes r (some server) (some p) true dial w f = perform_on-Completes r p dial w f
  perform_if-Completes r none p port_set dial w f = λ h. cc
  perform_if-Completes r (some server) none port_set dial w f = λ h. cc
  perform_if-Completes r (some server) (some p) false dial w f = λ h. cc

  -- What a successful `gfc_perform` has done.
  abbrev pub Fills : Option ((ℤ × Option Request) × World) → Type 0
  Fills none = ⊥
  Fills (some ((code, none), w)) = is_negative code ≡ true
  Fills (some ((code, some r), w)) =
      is_negative code ≡ false → r.status ≡ Status.ok → length r.output ≡ r.file_len

  keep-request :
      (run : Option ((ℤ × Request) × World))
      → Completes net run
      → Fills (elim run [ none ↦ none | some ((code, r'), w') ↦ some ((code, some r'), w') ])
  keep-request none c = c
  keep-request (some ((code, r'), w')) c = c

  -- `gfc_perform` comes to its end. If the callback of a new request is set, no error is returned and the
  -- status is GF_OK, then the callback has been given exactly as many bytes as the header announced.
  pub gfc_perform-Fills :
      (r : Request) (dial : Dial) (w : World) → IsFresh r → Fills (gfc_perform net (some r) dial w)
  unfolding gfc_perform
  gfc_perform-Fills r dial w f =
      keep-request (perform_if net r r.server r.path (not (r.port == 0)) dial w)
        (perform_if-Completes r r.server r.path (not (r.port == 0)) dial w f)
