-- ===== src/GetFile/Client/Body.antt =====
-- The body loop of gfclient.c passes on what comes in, up to the announced length, and ends.
use c_exercises.Base.{
  ℕ, zero, suc, ◌+◌, ◌-◌, ◌≤◌, ◌<◌, ◌≡◌, refl, sym, ◌∙◌, ap, ◌⊎◌, inl, inr, true, Option, some,
  List, [], ◌∷◌, ◌++◌, arith, ltb, ltb→lt, ltb→le, Bool-cases, length, take, drop, take-append,
  drop-append, take-append-take-drop, drop-drop, append_assoc, ℤ, pos, minus_one,
}
use c_exercises.Net.{Net, Received, failed, got}
use c_exercises.GetFile.Client.{Status, Request}
use c_exercises.GetFile.Client.Perform.{requested, write_out, body_loop}

-- The request while a body of `n` bytes comes in from the stream `bytes`: the callback has been given
-- the front of the stream behind what it had before.
pub record Passes (bytes before : List ℕ) (n : ℕ) (r : Request) : Type 0 where
  pub set : r.has_writefunc ≡ true
  pub len : r.file_len ≡ n
  pub ok : r.status ≡ Status.ok
  pub le : r.bytes_received ≤ n
  pub out : r.output ≡ before ++ take r.bytes_received bytes

requested_bounds : (r : Request) → requested r ≤ r.file_len - r.bytes_received
requested_bounds r = ground arith

module _ (net : Net) where
  open net use {World, recv, close, incoming, recv_some}

  -- The call returns; 0 means that the whole length has come in, -1 that it has not.
  pub record Downloads (bytes before : List ℕ) (n : ℕ) (run : Option ((ℤ × Request) × World))
      : Type 0 where
    pub code : ℤ
    pub request : Request
    pub world : World
    pub returns : run ≡ some ((code, request), world)
    pub passes : Passes bytes before n request
    pub complete :
        ((code ≡ pos 0) × (request.bytes_received ≡ n))
        ⊎ ((code ≡ minus_one) × (request.bytes_received < n))

  module _ (bytes before : List ℕ) (n : ℕ) (fd : ℤ) where
    abbrev Continues : ℕ → Type 0
    Continues fuel =
        (r : Request) (w : World)
        → Passes bytes before n r
        → n - r.bytes_received < fuel
        → (r.bytes_received < n → drop r.bytes_received bytes ≡ incoming w fd)
        → Downloads bytes before n (body_loop net fuel r fd w)

    abbrev more : Request → List ℕ → Request
    more r d = record (write_out r d) { bytes_received = r.bytes_received + length d }

    take-more :
        (k : ℕ) (d rest : List ℕ)
        → drop k bytes ≡ d ++ rest
        → take k bytes ++ d ≡ take (k + length d) bytes
    take-more k d rest s =
        ap (λ t. take k bytes ++ t) (sym (rw s (take-append d rest)))
        ∙ take-append-take-drop k (length d) bytes

    more-Passes :
        (r : Request) (d rest : List ℕ)
        → Passes bytes before n r
        → drop r.bytes_received bytes ≡ d ++ rest
        → length d ≤ n - r.bytes_received
        → Passes bytes before n (more r d)
    more-Passes r d rest p s fits = record {
      set = p.set;
      len = p.len;
      le = omega (arith, p.le);
      ok = p.ok;
      out = rw (p.set, p.out, append_assoc, take-more r.bytes_received d rest s);
    }

    drop-more :
        (k : ℕ) (d rest : List ℕ) → drop k bytes ≡ d ++ rest → drop (k + length d) bytes ≡ rest
    drop-more k d rest s = sym (drop-drop k (length d) bytes) ∙ rw s (drop-append d rest)

    body_loop-round :
        (fuel : ℕ) (r : Request) (w : World)
        → Continues fuel
        → Passes bytes before n r
        → n - r.bytes_received < suc fuel
        → ltb r.bytes_received r.file_len ≡ true
        → drop r.bytes_received bytes ≡ incoming w fd
        → (a : Received) → (recv fd (requested r) w).0 ≡ a
        → Downloads bytes before n (body_loop net (suc fuel) r fd w)
    unfolding body_loop
    body_loop-round fuel r w rest p h less s failed a = record {
      code = minus_one;
      request = r;
      world = close fd (recv fd (requested r) w).1;
      returns = rw (less, body_loop, a);
      passes = p;
      complete = inr (refl, omega (arith, ltb→lt _ _ less, p.len));
    }
    body_loop-round fuel r w rest p h less s (got []) a = record {
      code = minus_one;
      request = r;
      world = close fd (recv fd (requested r) w).1;
      returns = rw (less, body_loop, a);
      passes = p;
      complete = inr (refl, omega (arith, ltb→lt _ _ less, p.len));
    }
    body_loop-round fuel r w rest p h less s (got (b ∷ bs)) a =
        let (small, split) = recv_some fd (requested r) w (b ∷ bs) a in
        let lt = ltb→lt r.bytes_received r.file_len less in
        let fits : length (b ∷ bs) ≤ n - r.bytes_received =
          omega (arith, small, requested_bounds r, p.len) in
        let s' = s ∙ split in
        rw (less, body_loop, a)
          (rest (more r (b ∷ bs)) (recv fd (requested r) w).1 (more-Passes r (b ∷ bs) _ p s' fits)
            (omega (arith, p.le)) (λ _. drop-more r.bytes_received (b ∷ bs) _ s'))

    pub body_loop-Downloads : (fuel : ℕ) → Continues fuel
    unfolding body_loop
    body_loop-Downloads zero r w p h s = absurd (omega arith)
    body_loop-Downloads (suc fuel) r w p h s = elim (Bool-cases (ltb r.bytes_received r.file_len)) [
      | inl less ↦
          body_loop-round fuel r w (body_loop-Downloads fuel) p h less
            (s (omega (arith, ltb→lt _ _ less, p.len))) (recv fd (requested r) w).0 refl
      | inr done ↦ record {
        code = pos 0;
        request = r;
        world = close fd w;
        returns = rw (done, body_loop);
        passes = p;
        complete = inl (refl, omega (arith, ltb→le _ _ done, p.len, p.le));
      }
    ]
