-- ===== src/Echo/Exchange.antt =====
-- The echo client with the echo server at the other end of its connection.
use mathlib.Core.Option.{some-injective}
use c_exercises.Base.{
  ℕ, zero, suc, ◌<◌, ◌≡◌, sym, ◌∙◌, ap, subst, some, List, [], ◌++◌, length, append-nil,
  append_assoc, ℤ,
}
use c_exercises.Net.{Net}
use c_exercises.Net.Ends.{Duplex, Sink}
use c_exercises.Echo.{Ending, hangs_up, gives_up, echo_client, echoclient_talk}
use c_exercises.Echo.Serving.{Echoed, echo_client-Echoes}
use c_exercises.Echo.Talking.{Talked, echoclient_talk-Talked}

-- The client's side is `net`, the server's `server`.
module _ (net server : Net) (duplex : Duplex net) (server_duplex : Duplex server)
    (sink : Sink) where
  open sink use {File, written}

  -- A front part of the message, one byte of it at least, is printed.
  pub record PrintsBack (message : List ℕ) (out out' : File) : Type 0 where
    pub answer : List ℕ
    pub rest : List ℕ
    pub some_byte : 0 < length answer
    pub in_front : message ≡ answer ++ rest
    pub on_output : written out' ≡ written out ++ answer

  -- What the server has sent is a front part of what has come in.
  Echoed-part :
      (fd : ℤ) (w : server.World) (e : Ending × server.World)
      → server.sent w fd ≡ []
      → Echoed server server_duplex fd w e
      → (rest : List ℕ) × (server.incoming w fd ≡ server.sent e.1 fd ++ rest)
  Echoed-part fd w (hangs_up, w') fresh e =
      let whole : server.sent w' fd ≡ server.incoming w fd =
        e ∙ ap (λ t. t ++ server.incoming w fd) fresh in
      ([], sym whole ∙ sym (append-nil (server.sent w' fd)))
  Echoed-part fd w (gives_up, w') fresh (out, rest, split, e) =
      let whole : server.sent w' fd ≡ out = e ∙ ap (λ t. t ++ out) fresh in
      (rest, split ∙ ap (λ t. t ++ rest) (sym whole))

  Talked-part :
      (fd : ℤ) (message echoed more : List ℕ) (w : net.World) (out : File)
      (end : ℕ × net.World × File)
      → message ≡ echoed ++ more
      → net.incoming w fd ≡ echoed
      → end.0 ≡ 0
      → Talked net duplex sink fd message w out end
      → PrintsBack message out end.2
  Talked-part fd message echoed more w out (suc code, w', out') part from_server exit t = cc
  Talked-part fd message echoed more w out (zero, w', out') part from_server exit (fits, s, p) =
      record {
        answer = p.answer;
        rest = p.rest ++ more;
        some_byte = p.some_byte;
        in_front =
            part
            ∙ ap (λ t. t ++ more) (sym from_server ∙ p.in_front)
            ∙ append_assoc p.answer p.rest more;
        on_output = p.on_output;
      }

  -- The server takes in the client's message on a fresh connection, and the client what the server has
  -- sent back. If the client then exits with 0, it has printed a front part of its own message.
  pub exchange-PrintsBack :
      (fd peer : ℤ) (message : List ℕ) (w : net.World) (ws : server.World) (out : File)
      (e : Ending × server.World)
      → echo_client server peer ws ≡ some e
      → server.sent ws peer ≡ []
      → server.incoming ws peer ≡ message
      → net.incoming w fd ≡ server.sent e.1 peer
      → (echoclient_talk net sink fd message w out).0 ≡ 0
      → PrintsBack message out (echoclient_talk net sink fd message w out).2
  exchange-PrintsBack fd peer message w ws out e run fresh from_client from_server exit =
      let echoes = echo_client-Echoes server server_duplex peer ws in
      let same : echoes.end ≡ e = some-injective echoes.end e (sym echoes.returns ∙ run) in
      let (more, split) =
        Echoed-part peer ws e fresh
          (subst (Echoed server server_duplex peer ws) same echoes.echoed) in
      Talked-part fd message (server.sent e.1 peer) more w out
        (echoclient_talk net sink fd message w out) (sym from_client ∙ split) from_server exit
        (echoclient_talk-Talked net duplex sink fd message w out)
