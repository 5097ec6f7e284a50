-- ===== src/Shm/Channel/Invariant.antt =====
-- What holds in every state of a transfer, whatever fails.
use c_exercises.Base.{
  ℕ, ◌+◌, ◌-◌, ◌≤◌, ◌≡◌, refl, sym, ◌∙◌, ap, inl, inr, ◌≢◌, Bool, true, false, ◌&&◌, not, Option,
  none, some, List, [], ◌∷◌, ◌++◌, arith, ◌==◌, ltb, if◌then◌else◌, Bool-cases, if-cases, eq→==,
  length, take, drop, take-append-take-drop, take-length, take-length-take, append-nil,
}
use mathlib.Core.Bool.{false≢true}
use c_exercises.Shm.Channel.{
  cache_status_ok, cache_status_notfound, Writer, Reader, Channel, start, Pread, Sends, payload,
  filled, fill, writer_at, writer_step, deliver, take_packet, reader_at, reader_step,
}

-- `pread` returns bytes of the file from the offset on, and none only at its end or behind it.
pub record ReadsFile (file : List ℕ) (pread : Pread) : Type 0 where
  pub reads : (off : ℕ) (d : List ℕ) → pread off ≡ some d → d ≡ take (length d) (drop off file)
  pub ends : (off : ℕ) → pread off ≡ some [] → length file ≤ off

abbrev pub holds_empty : Writer → ℕ
holds_empty Writer.fills = 1
holds_empty _ = 0

abbrev pub holds_full : Reader → ℕ
holds_full Reader.takes = 1
holds_full _ = 0

-- The writer will fill no packet any more, unless the flag is cleared.
abbrev pub past_filling : Writer → Bool
past_filling Writer.waits = false
past_filling Writer.fills = false
past_filling _ = true

-- The reader has not given up.
abbrev pub is_alive : Reader → Bool
is_alive Reader.missing = false
is_alive Reader.fails = false
is_alive _ = true

-- The packet's bytes while they wait for the reader.
abbrev pub unread : Channel → List ℕ
unread c = if c.sem_full + holds_full c.reader == 0 then [] else payload c.packet

pub record Inv (file : List ℕ) (c : Channel) : Type 0 where
  -- One token goes round: in a semaphore, or with the side that took it.
  pub token : c.sem_empty + c.sem_full + holds_empty c.writer + holds_full c.reader ≡ 1
  -- What was sent and what waits is the front of the file that was read.
  pub front : is_alive c.reader ≡ true → c.output ++ unread c ≡ take c.total file
  -- The last packet of a stream that was read without error ends the file.
  pub last : c.packet.stream_done ≡ true → c.packet.status ≡ cache_status_ok → length file ≤ c.total
  pub more : past_filling c.writer ≡ false → c.packet.stream_done ≡ false
  pub over : c.writer ≡ Writer.ends → c.packet.stream_done ≡ true
  -- What was sent is a front of the file.
  pub sent : c.output ≡ take (length c.output) file
  -- While the reader waits for a packet that is still to come, the stream is not done.
  pub asleep : c.reader ≡ Reader.waits → c.sem_empty ≡ 1 → c.packet.stream_done ≡ false
  pub ended : c.reader ≡ Reader.ends → (c.packet.stream_done ≡ true) × (c.sem_empty ≡ 1)

-- What a step leads to, if it is possible.
abbrev pub After {ℓ} : (Channel → Type ℓ) → Option Channel → Type ℓ
After P none = Unit
After P (some c) = P c

pub start-Inv : (file : List ℕ) → Inv file start
unfolding start
start-Inv file = record {
  sent = refl;
  asleep = λ _ _. refl;
  token = refl;
  front = λ _. refl;
  last = λ h. cc;
  more = λ _. refl;
  over = λ h. cc;
  ended = λ h. cc;
}

module _ (file : List ℕ) (pread : Pread) (is : ReadsFile file pread) where
  take-pread :
      (off : ℕ) (d : List ℕ) → pread off ≡ some d → take off file ++ d ≡ take (off + length d) file
  take-pread off d e =
      ap (λ t. take off file ++ t) (is.reads off d e) ∙ take-append-take-drop off (length d) file

  filled-last :
      (off : ℕ) (d : List ℕ)
      → pread off ≡ some d
      → (filled pread (length file) off d).stream_done ≡ true
      → length file ≤ off + length d
  filled-last off [] e h = omega (arith, is.ends off e)
  filled-last off (x ∷ d) e h = ground arith

  module _ (c : Channel) (v : Inv file c) (w : c.writer ≡ Writer.fills) where
    -- While the writer has the token, nothing waits and the reader is behind its last packet.
    held : holds_empty c.writer ≡ 1
    held = rw w

    quiet : (c.sem_full + holds_full c.reader == 0) ≡ true
    quiet = eq→== (c.sem_full + holds_full c.reader) 0 (omega (arith, v.token, held))

    so_far : is_alive c.reader ≡ true → c.output ≡ take c.total file
    so_far alive =
        let f : c.output ++ unread c ≡ take c.total file = v.front alive in
        sym (append-nil c.output) ∙ (rw quiet at f)

    reading_on : c.reader ≢ Reader.ends
    reading_on e = omega (arith, v.token, held, (v.ended e).1)

    posted : (c.sem_full + 1 + holds_full c.reader == 0) ≡ false
    posted = ground arith

    fill-Inv : (r : Option (List ℕ)) → pread c.total ≡ r → Inv file (fill pread (length file) c r)
    unfolding fill
    fill-Inv none e = record {
      sent = v.sent;
      asleep = λ _ h. absurd (omega (arith, v.token, held, h));
      token = omega (arith, v.token, held);
      front = λ alive. rw (posted, append-nil) (so_far alive);
      last = λ _ h. cc;
      more = λ h. cc;
      over = λ _. refl;
      ended = λ h. absurd (reading_on h);
    }
    fill-Inv (some d) e = record {
      sent = v.sent;
      asleep = λ _ h. absurd (omega (arith, v.token, held, h));
      token = omega (arith, v.token, held);
      front = λ alive.
          rw (posted, so_far alive, take-length d (length d) (omega arith))
            (take-pread c.total d e);
      last = λ h _. filled-last c.total d e h;
      more = λ h. cc;
      over = λ h. cc;
      ended = λ h. absurd (reading_on h);
    }

  checked-Inv :
      (c : Channel) (b : Bool)
      → c.writer ≡ Writer.checks
      → Inv file c
      → c.packet.stream_done ≡ b
      → Inv file (record c { writer = if b then Writer.ends else Writer.waits })
  checked-Inv c true w v done =
      let none_held : holds_empty c.writer ≡ 0 = rw w in
      record {
        sent = v.sent;
        asleep = v.asleep;
        token = omega (arith, v.token, none_held);
        front = v.front;
        last = v.last;
        more = λ h. cc;
        over = λ _. done;
        ended = v.ended;
      }
  checked-Inv c false w v again =
      let none_held : holds_empty c.writer ≡ 0 = rw w in
      record {
        sent = v.sent;
        asleep = v.asleep;
        token = omega (arith, v.token, none_held);
        front = v.front;
        last = v.last;
        more = λ _. again;
        over = λ h. cc;
        ended = v.ended;
      }

  writer_at-Inv :
      (p : Writer) (c : Channel)
      → c.writer ≡ p
      → Inv file c
      → After (Inv file) (writer_at pread (length file) p c)
  unfolding writer_at
  writer_at-Inv Writer.waits c w v = elim (Bool-cases (c.sem_empty == 0)) [
    | inl blocked ↦ rw blocked tt
    | inr free ↦
        let none_held : holds_empty c.writer ≡ 0 = rw w in
        let undone : c.packet.stream_done ≡ false = v.more (rw w) in
        rw free (record {
          sent = v.sent;
          asleep = λ _ _. undone;
          token = ground (arith, v.token, none_held);
          front = v.front;
          last = v.last;
          more = λ _. undone;
          over = λ h. cc;
          ended = λ h. absurd (false≢true (sym undone ∙ (v.ended h).0));
        })
  ]
  writer_at-Inv Writer.fills c w v = fill-Inv c v w (pread c.total) refl
  writer_at-Inv Writer.checks c w v = checked-Inv c c.packet.stream_done w v refl
  writer_at-Inv Writer.ends c w v = tt

  -- A step of the cache daemon keeps the invariant.
  pub writer_step-Inv :
      (c : Channel) → Inv file c → After (Inv file) (writer_step pread (length file) c)
  unfolding writer_step
  writer_step-Inv c v = writer_at-Inv c.writer c refl v

module _ (file : List ℕ) (c : Channel) (v : Inv file c) (r : c.reader ≡ Reader.takes) where
  holding : holds_full c.reader ≡ 1
  holding = rw r

  waiting : (c.sem_full + holds_full c.reader == 0) ≡ false
  waiting = ground (arith, holding)

  -- Behind the reader's packet nothing else waits.
  emptied : (c.sem_full + 0 == 0) ≡ true
  emptied = eq→== (c.sem_full + 0) 0 (omega (arith, v.token, holding))

  with_payload : c.output ++ payload c.packet ≡ take c.total file
  with_payload =
      let alive : is_alive c.reader ≡ true = rw r in
      let f : c.output ++ unread c ≡ take c.total file = v.front alive in rw waiting at f

  front_sent : c.output ++ payload c.packet ≡ take (length (c.output ++ payload c.packet)) file
  front_sent = rw with_payload (sym (take-length-take c.total file))

  -- The reader gives up and posts.
  gave_up-Inv :
      (p : Reader)
      → is_alive p ≡ false
      → holds_full p ≡ 0
      → Inv file (record c { reader = p; sem_empty = c.sem_empty + 1 })
  gave_up-Inv p dead none_held = record {
    sent = v.sent;
    asleep = λ e. absurd (false≢true (sym dead ∙ ap is_alive e));
    token = omega (arith, v.token, holding, none_held);
    front = λ alive. absurd (false≢true (sym dead ∙ alive));
    last = v.last;
    more = v.more;
    over = v.over;
    ended = λ e. absurd (false≢true (sym dead ∙ ap is_alive e));
  }

  sent-Inv :
      (b : Bool)
      → c.packet.stream_done ≡ b
      → Inv file (record c {
        output = c.output ++ payload c.packet;
        header_transferred = true;
        reader = if b then Reader.ends else Reader.waits;
        sem_empty = c.sem_empty + 1;
      })
  sent-Inv true done = record {
    sent = front_sent;
    asleep = λ h. cc;
    token = omega (arith, v.token, holding);
    front = λ _. rw (emptied, append-nil) with_payload;
    last = v.last;
    more = v.more;
    over = v.over;
    ended = λ _. (done, omega (arith, v.token, holding));
  }
  sent-Inv false again = record {
    sent = front_sent;
    asleep = λ _ _. again;
    token = omega (arith, v.token, holding);
    front = λ _. rw (emptied, append-nil) with_payload;
    last = v.last;
    more = v.more;
    over = v.over;
    ended = λ h. cc;
  }

  deliver-Inv : (sent : Bool) → Inv file (deliver sent c)
  unfolding deliver
  deliver-Inv sent = elim (Bool-cases (ltb 0 c.packet.valid_bytes && not sent)) [
    | inl lost ↦ rw lost (gave_up-Inv Reader.fails refl refl)
    | inr gone ↦ rw gone (sent-Inv c.packet.stream_done refl)
  ]

  take_packet-Inv : (s : Sends) → Inv file (take_packet s c)
  unfolding take_packet
  take_packet-Inv s =
      if-cases (Inv file) c.header_transferred (λ _. deliver-Inv s.body)
        (λ _.
          if-cases (Inv file) (c.packet.status == cache_status_notfound)
            (λ _. gave_up-Inv Reader.missing refl refl)
            (λ _.
              if-cases (Inv file) (not (c.packet.status == cache_status_ok))
                (λ _. gave_up-Inv Reader.fails refl refl)
                (λ _.
                  if-cases (Inv file) (not s.header) (λ _. gave_up-Inv Reader.fails refl refl)
                    (λ _. deliver-Inv s.body))))

module _ (file : List ℕ) (c : Channel) (v : Inv file c) (r : c.reader ≡ Reader.waits) where
  none_held : holds_full c.reader ≡ 0
  none_held = rw r

  taken-Inv :
      (c.sem_full == 0) ≡ false
      → Inv file (record c { sem_full = c.sem_full - 1; reader = Reader.takes })
  taken-Inv free =
      let alive : is_alive c.reader ≡ true = rw r in
      let one : c.sem_full ≡ 1 = ground (arith, v.token, none_held) in
      let f : c.output ++ unread c ≡ take c.total file = v.front alive in
      record {
        sent = v.sent;
        asleep = λ h. cc;
        token = omega (arith, v.token, none_held, one);
        front = λ _. rw one (rw (r, one) at f);
        last = v.last;
        more = v.more;
        over = v.over;
        ended = λ h. cc;
      }

reader_at-Inv :
    (file : List ℕ) (p : Reader) (s : Sends) (c : Channel)
    → c.reader ≡ p
    → Inv file c
    → After (Inv file) (reader_at p s c)
unfolding reader_at
reader_at-Inv file Reader.waits s c r v = elim (Bool-cases (c.sem_full == 0)) [
  | inl blocked ↦ rw blocked tt
  | inr free ↦ rw free (taken-Inv file c v r free)
]
reader_at-Inv file Reader.takes s c r v = take_packet-Inv file c v r s
reader_at-Inv file Reader.ends s c r v = tt
reader_at-Inv file Reader.missing s c r v = tt
reader_at-Inv file Reader.fails s c r v = tt

-- A step of the proxy's handler keeps the invariant.
pub reader_step-Inv :
    (file : List ℕ) (s : Sends) (c : Channel) → Inv file c → After (Inv file) (reader_step s c)
unfolding reader_step
reader_step-Inv file s c v = reader_at-Inv file c.reader s c refl v
