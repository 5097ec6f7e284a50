-- ===== src/GetFile/Client/Perform/Counting.antt =====
-- The length of what the body of a response comes to.
use c_exercises.Base.{
  ℕ, zero, suc, ◌+◌, ◌-◌, ◌≤◌, ◌<◌, ◌≡◌, ◌≢◌, refl, ◌∙◌, ap, true, false, Option, none, some, List,
  [], ◌∷◌, arith, ltb, leb, ltb→le, ltb→lt, Bool-cases, inl, inr, length, length-append, take, drop,
  ℤ, minus_one, is_negative,
}
use c_exercises.Net.{Net, Received, failed, got}
use c_exercises.GetFile.Header.{HeaderRead, found, full, error, closed}
use c_exercises.GetFile.Client.{
  Status, Request, Verdict, malformed, file, refused, cut, parse_response, Scanned, judge,
  scan_response,
}
use c_exercises.Text.{c_string}
use c_exercises.GetFile.Client.Perform.{
  with_status, write_out, requested, start_body, finish, body_loop, receive_file, after_header,
}

length-take_most : (n : ℕ) (xs : List ℕ) → length (take n xs) ≤ n
length-take_most zero xs = omega arith
length-take_most (suc n) [] = omega arith
length-take_most (suc n) (x ∷ xs) = omega (arith, length-take_most n xs)

-- A response without a file never has the status GF_OK.
judge-refused : (s : Scanned) (st : Status) → judge s ≡ refused st → st ≢ Status.ok
unfolding judge
judge-refused s st h ok = ground arith

parse-refused :
    (buf : List ℕ) (e : ℕ) (st : Status) → parse_response buf e ≡ refused st → st ≢ Status.ok
unfolding parse_response
parse-refused buf e st h = elim (Bool-cases (leb 1024 e)) [
  | inl long ↦ absurd (cc (rw (parse_response, long) at h))
  | inr fits ↦
      judge-refused (scan_response (c_string (take e buf))) st (rw (parse_response, fits) at h)
]

-- While the body comes in: the callback is set and has been given what is counted.
record IsCounted (r : Request) : Type 0 where
  is_set : r.has_writefunc ≡ true
  counted : length r.output ≡ r.bytes_received
  within : r.bytes_received ≤ r.file_len

-- A request whose callback is set and has not been called.
pub record IsFresh (r : Request) : Type 0 where
  pub is_set : r.has_writefunc ≡ true
  pub no_output : r.output ≡ []

module _ (net : Net) where
  open net use {World, recv, recv_some}

  -- Success with GF_OK means that the callback has been given as many bytes as the header announced.
  abbrev pub Completes : Option ((ℤ × Request) × World) → Type 0
  Completes none = ⊥
  Completes (some ((code, r), w)) =
      is_negative code ≡ false → r.status ≡ Status.ok → length r.output ≡ r.file_len

  pub fails-Completes : (r : Request) (fd : ℤ) (w : World) → Completes (finish net r fd minus_one w)
  unfolding finish
  fails-Completes r fd w h = cc h

  written-IsCounted :
      (r : Request) (d : List ℕ)
      → IsCounted r
      → length d ≤ requested r
      → IsCounted (record (write_out r d) { bytes_received = r.bytes_received + length d })
  written-IsCounted r d c h = record {
    is_set = c.is_set;
    counted = rw c.is_set (length-append r.output d ∙ ap (λ n. n + length d) c.counted);
    within = ground arith;
  }

  body_loop-round :
      (fuel : ℕ) (r : Request) (fd : ℤ) (w : World) (a : Received)
      → ((r' : Request) (w' : World)
          → IsCounted r'
          → r'.file_len - r'.bytes_received < fuel
          → Completes (body_loop net fuel r' fd w'))
      → ltb r.bytes_received r.file_len ≡ true
      → IsCounted r
      → r.file_len - r.bytes_received < suc fuel
      → (recv fd (requested r) w).0 ≡ a
      → Completes (body_loop net (suc fuel) r fd w)
  unfolding body_loop
  body_loop-round fuel r fd w failed rest more c h e =
      rw (more, body_loop, e) (fails-Completes r fd (recv fd (requested r) w).1)
  body_loop-round fuel r fd w (got []) rest more c h e =
      rw (more, body_loop, e) (fails-Completes r fd (recv fd (requested r) w).1)
  body_loop-round fuel r fd w (got (b ∷ bs)) rest more c h e =
      rw (more, body_loop, e)
        (rest
          (record (write_out r (b ∷ bs)) { bytes_received = r.bytes_received + length (b ∷ bs) })
          (recv fd (requested r) w).1
          (written-IsCounted r (b ∷ bs) c (recv_some fd (requested r) w (b ∷ bs) e).0)
          (let lt = ltb→lt r.bytes_received r.file_len more in omega (arith, h, lt)))

  body_loop-Completes :
      (fuel : ℕ) (r : Request) (fd : ℤ) (w : World)
      → IsCounted r
      → r.file_len - r.bytes_received < fuel
      → Completes (body_loop net fuel r fd w)
  unfolding body_loop
  body_loop-Completes zero r fd w c h = absurd (omega arith)
  body_loop-Completes (suc fuel) r fd w c h = elim (Bool-cases (ltb r.bytes_received r.file_len)) [
    | inl more ↦
        body_loop-round fuel r fd w (recv fd (requested r) w).0
          (λ r' w'. body_loop-Completes fuel r' fd w') more c h refl
    | inr done ↦
        rw (done, body_loop)
          (λ _ _.
            let all = ltb→le r.bytes_received r.file_len done in omega (arith, c.counted, c.within))
  ]

  start_body-IsCounted :
      (r : Request) (buf : List ℕ) (e : ℕ) → IsFresh r → IsCounted (start_body buf e r)
  start_body-IsCounted r buf e f = record {
    is_set = f.is_set;
    counted = rw (f.is_set, f.no_output) refl;
    within = length-take_most r.file_len (drop e (cut buf e));
  }

  receive_file-by :
      (r : Request) (fd : ℤ) (buf : List ℕ) (e : ℕ) (w : World) (v : Verdict)
      → IsFresh r
      → parse_response buf e ≡ v
      → Completes (receive_file net r fd buf e w)
  unfolding receive_file
  receive_file-by r fd buf e w malformed f h =
      rw (receive_file, h) (fails-Completes (with_status r Status.invalid) fd w)
  receive_file-by r fd buf e w (refused s) f h =
      rw (receive_file, h) (λ _ ok. absurd (parse-refused buf e s h ok))
  receive_file-by r fd buf e w (file n) f h =
      let r' = record r { status = Status.ok; file_len = n } in
      rw (receive_file, h)
        (body_loop-Completes (n + 1) (start_body buf e r') fd w
          (start_body-IsCounted r' buf e (record { is_set = f.is_set; no_output = f.no_output }))
          (omega arith))

  pub after_header-Completes :
      (r : Request) (fd : ℤ) (h : HeaderRead) (w : World)
      → IsFresh r
      → Completes (after_header net r fd h w)
  unfolding after_header
  after_header-Completes r fd (found buf e) w f =
      receive_file-by r fd buf e w (parse_response buf e) f refl
  after_header-Completes r fd full w f = fails-Completes (with_status r Status.invalid) fd w
  after_header-Completes r fd error w f = fails-Completes (with_status r Status.error) fd w
  after_header-Completes r fd closed w f = fails-Completes (with_status r Status.invalid) fd w
