-- ===== src/GetFile/Client/Download.antt =====
-- A client that receives what `gfs_sendheader` and `gfs_send` of gfserver.c send.
use c_exercises.Base.{
  ℕ, zero, suc, ◌+◌, ◌≤◌, ◌<◌, ◌≡◌, refl, sym, ◌∙◌, ap, subst, ◌≢◌, inl, inr, true, Option, some,
  List, [], ◌∷◌, ◌++◌, arith, ltb, Bool-cases, length, take, drop, drop-append, drop-append_left,
  take-append_left, ltb→le, ltb→lt, ℤ, pos, minus_one,
}
use c_exercises.Net.{Net}
use c_exercises.Text.{size_mod}
use c_exercises.GetFile.Send.{header_text, gf_ok}
use c_exercises.GetFile.Header.{
  find_header_tail, HeaderRead, found, full, error, closed, read_header,
}
use c_exercises.GetFile.Header.Tail.{find_header_tail-grow}
use c_exercises.GetFile.Header.Reading.{Reads, read_header-Reads}
use c_exercises.GetFile.Client.{Status, Request, file, cut, parse_response}
use c_exercises.GetFile.Client.Parse.{parse_response-header_text}
use c_exercises.GetFile.Client.Perform.{start_body, receive_file, after_header, receive}
use c_exercises.GetFile.Client.Body.{Passes, Downloads, body_loop-Downloads}

-- The stream of the body as the callback is given it: the first byte is zeroed if it came in
-- together with the header.
abbrev pub after_cut : List ℕ → ℕ → List ℕ → List ℕ
after_cut buf header_end rest = drop header_end (cut buf header_end) ++ rest

drop-cut : (buf : List ℕ) (e : ℕ) → e < length buf → drop e (cut buf e) ≡ 0 ∷ drop (suc e) buf
drop-cut [] e h = absurd (omega arith)
drop-cut (x ∷ buf) zero h = refl
drop-cut (x ∷ buf) (suc e) h = drop-cut buf e (omega arith)

drop-cut_end : (buf : List ℕ) (e : ℕ) → length buf ≤ e → drop e (cut buf e) ≡ []
drop-cut_end [] zero h = refl
drop-cut_end [] (suc e) h = refl
drop-cut_end (x ∷ buf) zero h = absurd (omega arith)
drop-cut_end (x ∷ buf) (suc e) h = drop-cut_end buf e (omega arith)

drop-end : (buf : List ℕ) (e : ℕ) → length buf ≤ e → drop e buf ≡ []
drop-end [] zero h = refl
drop-end [] (suc e) h = refl
drop-end (x ∷ buf) zero h = absurd (omega arith)
drop-end (x ∷ buf) (suc e) h = drop-end buf e (omega arith)

drop-one :
    (buf : List ℕ) (e : ℕ) (rest : List ℕ)
    → e < length buf
    → drop 1 (drop e buf ++ rest) ≡ drop (suc e) buf ++ rest
drop-one [] e rest h = absurd (omega arith)
drop-one (x ∷ buf) zero rest h = refl
drop-one (x ∷ buf) (suc e) rest h = drop-one buf e rest (omega arith)

exact-stream :
    (buf : List ℕ) (e : ℕ) (rest : List ℕ)
    → length buf ≤ e
    → after_cut buf e rest ≡ drop e buf ++ rest
exact-stream buf e rest h = rw (drop-cut_end buf e h, drop-end buf e h)

spoiled-stream :
    (buf : List ℕ) (e : ℕ) (rest : List ℕ)
    → e < length buf
    → after_cut buf e rest ≡ 0 ∷ drop 1 (drop e buf ++ rest)
spoiled-stream buf e rest h = rw (drop-cut buf e h, drop-one buf e rest h)

parse_response-append :
    (buf rest : List ℕ) (e : ℕ)
    → e ≤ length buf
    → parse_response (buf ++ rest) e ≡ parse_response buf e
unfolding parse_response
parse_response-append buf rest e h = rw (take-append_left e buf rest h)

start-take : (n : ℕ) (a b : List ℕ) → take (length (take n a)) (a ++ b) ≡ take n a
start-take zero a b = refl
start-take (suc n) [] b = refl
start-take (suc n) (x ∷ a) b = ap (λ t. x ∷ t) (start-take n a b)

length-take_min : (n : ℕ) (a : List ℕ) → length (take n a) ≤ n
length-take_min zero a = omega arith
length-take_min (suc n) [] = omega arith
length-take_min (suc n) (x ∷ a) = omega (arith, length-take_min n a)

start-drop : (n : ℕ) (a b : List ℕ) → length (take n a) < n → drop (length (take n a)) (a ++ b) ≡ b
start-drop zero a b h = absurd (omega arith)
start-drop (suc n) [] b h = refl
start-drop (suc n) (x ∷ a) b h = start-drop n a b (omega arith)

module _ (net : Net) where
  open net use {World, incoming}

  -- With a write callback set, after a header that announces `n` bytes the client passes on the
  -- stream behind the header, with the byte behind the header zeroed if it has come in already, and
  -- returns 0 exactly when all `n` bytes have come in.
  receive_file-Downloads :
      (r : Request) (fd : ℤ) (buf : List ℕ) (e n : ℕ) (w : World)
      → parse_response buf e ≡ file n
      → r.has_writefunc ≡ true
      → Downloads net (after_cut buf e (incoming w fd)) r.output n (receive_file net r fd buf e w)
  unfolding receive_file
  receive_file-Downloads r fd buf e n w verdict is_set =
      let rest = drop e (cut buf e) in
      let start = start_body buf e (record r { status = Status.ok; file_len = n }) in
      let passes : Passes (rest ++ incoming w fd) r.output n start = record {
        set = is_set;
        len = refl;
        ok = refl;
        le = length-take_min n rest;
        out = rw (is_set, start-take n rest (incoming w fd));
      } in
      rw (verdict, receive_file)
        (body_loop-Downloads net (rest ++ incoming w fd) r.output n fd (n + 1) start w passes
          (omega arith) (λ less. start-drop n rest (incoming w fd) less))

  -- What the client has done with a stream that starts with the server's header for `n` bytes and
  -- goes on with `body`: the header was not read and nothing was passed on, or the body was passed on
  -- as it is, or with its first byte zeroed.
  pub data Outcome (before body : List ℕ) (n : ℕ) (run : Option ((ℤ × Request) × World))
      : Type 0 where
    unread :
        (r : Request) (w' : World)
        → run ≡ some ((minus_one, r), w')
        → r.output ≡ before
        → r.status ≢ Status.ok
        → Outcome before body n run
    exact : Downloads net body before n run → Outcome before body n run
    spoiled : Downloads net (0 ∷ drop 1 body) before n run → Outcome before body n run

  module _ (r : Request) (fd : ℤ) (n : ℕ) (body : List ℕ) (h : n < size_mod)
      (set : r.has_writefunc ≡ true) (buf : List ℕ) (e : ℕ) (w w' : World)
      (comes : incoming w fd ≡ header_text gf_ok n ++ body)
      (split : incoming w fd ≡ buf ++ incoming w' fd) (tail : find_header_tail buf ≡ pos e)
      (le : e ≤ length buf) where
    whole : buf ++ incoming w' fd ≡ header_text gf_ok n ++ body
    whole = sym split ∙ comes

    header_end : e ≡ length (header_text gf_ok n)
    header_end =
        let (t, v) = parse_response-header_text gf_ok n body h in
        let grown : find_header_tail (header_text gf_ok n ++ body) ≡ pos e =
          rw whole at (find_header_tail-grow buf (incoming w' fd) tail) in
        cc

    verdict : parse_response buf e ≡ file n
    verdict =
        sym (parse_response-append buf (incoming w' fd) e le)
        ∙ rw (whole, header_end) (parse_response-header_text gf_ok n body h).1

    behind : drop e buf ++ incoming w' fd ≡ body
    behind =
        sym (drop-append_left e buf (incoming w' fd) le)
        ∙ rw (whole, header_end) (drop-append (header_text gf_ok n) body)

    found-Outcome : Outcome r.output body n (receive_file net r fd buf e w')
    found-Outcome = elim (Bool-cases (ltb e (length buf))) [
      | inr at_end ↦ exact (
          subst (λ s. Downloads net s r.output n (receive_file net r fd buf e w'))
            (exact-stream buf e (incoming w' fd) (ltb→le e (length buf) at_end) ∙ behind)
            (receive_file-Downloads r fd buf e n w' verdict set))
      | inl more ↦ spoiled (
          subst (λ s. Downloads net s r.output n (receive_file net r fd buf e w'))
            (spoiled-stream buf e (incoming w' fd) (ltb→lt e (length buf) more)
              ∙ ap (λ t. 0 ∷ drop 1 t) behind)
            (receive_file-Downloads r fd buf e n w' verdict set))
    ]

  module _ (r : Request) (fd : ℤ) (n : ℕ) (body : List ℕ) (w : World) where
    after-Outcome :
        n < size_mod
        → r.has_writefunc ≡ true
        → incoming w fd ≡ header_text gf_ok n ++ body
        → (x : HeaderRead × World) → Reads net fd w x
        → Outcome r.output body n (after_header net r fd x.0 x.1)
    unfolding after_header
    after-Outcome h is_set comes (found buf e, w') (split, small, tail, le, first) =
        found-Outcome r fd n body h is_set buf e w w' comes split tail le
    after-Outcome h is_set comes (full, w') reads = unread _ _ refl refl (λ p. cc)
    after-Outcome h is_set comes (error, w') reads = unread _ _ refl refl (λ p. cc)
    after-Outcome h is_set comes (closed, w') reads = unread _ _ refl refl (λ p. cc)

    -- With a write callback set, and from a server that sends its header for `n` bytes, fewer than 2 ^ 64,
    -- and then `body`, `gfc_perform` past its
    -- request always comes back: with -1 and nothing passed on, or with the front of the body passed
    -- on, whose first byte is zeroed in one of the cases; 0 then means that `n` bytes came in, and -1
    -- that fewer did.
    pub receive-Outcome :
        n < size_mod
        → r.has_writefunc ≡ true
        → incoming w fd ≡ header_text gf_ok n ++ body
        → Outcome r.output body n (receive net r fd w)
    unfolding receive read_header
    receive-Outcome h is_set comes =
        let reading = read_header-Reads net fd w in
        rw reading.returns (after-Outcome h is_set comes reading.result reading.reads)
