-- ===== src/Net/Wire.antt =====
-- A stream socket that keeps the laws, for running the programs on.
use c_exercises.Base.{
  ℕ, zero, suc, ◌≤◌, ◌≡◌, refl, sym, ap, subst, List, [], ◌∷◌, ◌++◌, arith, ltb, if◌then◌else◌,
  length, take, drop, take-append-drop, take-length, take-nil_end, ℤ, pos, negsuc,
}
use c_exercises.Net.{Net, Received, got}
use c_exercises.Net.Ends.{Sink, Duplex, Descriptors}

pub record Wire : Type 0 where
  pub gone : List ℕ
  pub coming : List ℕ

abbrev pub least : ℕ → ℕ → ℕ
least a b = if ltb a b then a else b

least_left : (a b : ℕ) → least a b ≤ a
least_left a b = ground arith

abbrev pub wire_send : ℤ → List ℕ → Wire → ℤ × Wire
wire_send fd d w =
    (pos (least (length d) 3), record w { gone = w.gone ++ take (least (length d) 3) d })

abbrev pub wire_recv : ℤ → ℕ → Wire → Received × Wire
wire_recv fd cap w =
    (got (take (least cap 5) w.coming), record w { coming = drop (least cap 5) w.coming })

pos-inj : (a b : ℕ) → pos a ≡ pos b → a ≡ b
pos-inj a b h = cc

got-inj : (a b : List ℕ) → got a ≡ got b → a ≡ b
got-inj a b h = cc

length-take_most : (n : ℕ) (xs : List ℕ) → length (take n xs) ≤ n
length-take_most zero xs = omega arith
length-take_most (suc n) [] = omega arith
length-take_most (suc n) (x ∷ xs) = omega (arith, length-take_most n xs)

pub wire_send-some :
    (fd : ℤ) (d : List ℕ) (w : Wire) (n : ℕ)
    → (wire_send fd d w).0 ≡ pos n
    → (n ≤ length d) × ((wire_send fd d w).1.gone ≡ w.gone ++ take n d)
wire_send-some fd d w n e =
    let same : least (length d) 3 ≡ n = pos-inj (least (length d) 3) n e in
    (subst (λ k. k ≤ length d) same (least_left (length d) 3), ap (λ k. w.gone ++ take k d) same)

pub wire_send-none :
    (fd : ℤ) (d : List ℕ) (w : Wire) (k : ℕ)
    → (wire_send fd d w).0 ≡ negsuc k
    → (wire_send fd d w).1.gone ≡ w.gone
wire_send-none fd d w k e = cc

pub wire_recv-some :
    (fd : ℤ) (cap : ℕ) (w : Wire) (d : List ℕ)
    → (wire_recv fd cap w).0 ≡ got d
    → (length d ≤ cap) × (w.coming ≡ d ++ (wire_recv fd cap w).1.coming)
wire_recv-some fd cap w d e =
    let same : take (least cap 5) w.coming ≡ d = got-inj (take (least cap 5) w.coming) d e in
    (
      subst (λ t. length t ≤ cap) same
          (omega (arith, length-take_most (least cap 5) w.coming, least_left cap 5)),
      subst (λ t. w.coming ≡ t ++ drop (least cap 5) w.coming) same
          (sym (take-append-drop (least cap 5) w.coming)),
    )

-- Every descriptor is the same stream, and closing it is not recorded.
abbrev pub wires : Net
wires = record {
  World = Wire;
  sent = λ w fd. w.gone;
  incoming = λ w fd. w.coming;
  send = wire_send;
  recv = wire_recv;
  shutdown = λ fd w. w;
  close = λ fd w. w;
  send_some = wire_send-some;
  send_none = wire_send-none;
  recv_some = wire_recv-some;
}

abbrev pub wire : List ℕ → Wire
wire s = record { gone = []; coming = s }

pub least-suc : (n : ℕ) → least (suc n) 5 ≡ suc (least n 4)
least-suc n = ground arith

pub wire_recv-end :
    (fd : ℤ) (cap : ℕ) (w : Wire) → (wire_recv fd (suc cap) w).0 ≡ got [] → w.coming ≡ []
wire_recv-end fd cap w e = take-nil_end (least cap 4) w.coming (
    subst (λ k. take k w.coming ≡ []) (least-suc cap)
      (got-inj (take (least (suc cap) 5) w.coming) [] e))

abbrev pub wires_duplex : Duplex wires
wires_duplex = record {
  recv_sent = λ fd cap w. refl;
  shutdown_sent = λ fd w. refl;
  close_sent = λ fd w. refl;
  send_incoming = λ fd d w. refl;
  recv_end = wire_recv-end;
}

pub list_write-some :
    (d f : List ℕ) (n : ℕ) → pos (length d) ≡ pos n → (n ≤ length d) × (f ++ d ≡ f ++ take n d)
list_write-some d f n e =
    let same : length d ≡ n = pos-inj (length d) n e in
    (omega arith, ap (λ t. f ++ t) (sym (take-length d n (omega arith))))

pub list_write-none : (d f : List ℕ) (k : ℕ) → pos (length d) ≡ negsuc k → f ++ d ≡ f
list_write-none d f k e = cc

-- A file that takes everything it is given.
abbrev pub list_file : Sink
list_file = record {
  File = List ℕ;
  written = λ f. f;
  write = λ d f. (pos (length d), f ++ d);
  write_some = list_write-some;
  write_none = list_write-none;
}

-- The same stream with a record of what has been closed.
abbrev pub recording_wires : Net
recording_wires = record {
  World = Wire × List ℤ;
  sent = λ w fd. w.0.gone;
  incoming = λ w fd. w.0.coming;
  send = λ fd d w. ((wire_send fd d w.0).0, ((wire_send fd d w.0).1, w.1));
  recv = λ fd cap w. ((wire_recv fd cap w.0).0, ((wire_recv fd cap w.0).1, w.1));
  shutdown = λ fd w. w;
  close = λ fd w. (w.0, w.1 ++ fd ∷ []);
  send_some = λ fd d w. wire_send-some fd d w.0;
  send_none = λ fd d w. wire_send-none fd d w.0;
  recv_some = λ fd cap w. wire_recv-some fd cap w.0;
}

abbrev pub recorded : Descriptors recording_wires
recorded = record {
  closed = λ w. w.1;
  close_closed = λ fd w. refl;
  shutdown_closed = λ fd w. refl;
  send_closed = λ fd d w. refl;
  recv_closed = λ fd cap w. refl;
}
