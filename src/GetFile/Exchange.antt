-- ===== src/GetFile/Exchange.antt =====
-- A request from gfclient.c to gfserver.c and back, each on its own end of the connection.
mod Tests
use mathlib.Core.Option.{some-injective}
use c_exercises.Base.{
  ℕ, suc, ◌+◌, ◌≤◌, ◌<◌, ◌≡◌, refl, sym, ◌∙◌, ap, subst, true, false, Option, some, List, [], ◌∷◌,
  ◌++◌, arith, length, take, take-append_left, append-nil, leb, if◌then◌else◌, ◌-◌, Bool-cases, inl,
  inr, ℤ, pos, negsuc, minus_one,
}
use c_exercises.Net.{Net}
use c_exercises.Net.Ends.{Duplex}
use c_exercises.Text.{size_mod}
use c_exercises.GetFile.Send.{Context, header_text, gf_ok, send_loop}
use c_exercises.GetFile.Send.Delivery.{Delivered, Delivers, send_loop-all}
use c_exercises.GetFile.Header.{find_header_tail, HeaderRead, found, buffer_size, read_header}
use c_exercises.GetFile.Header.Tail.{find_header_tail-grow}
use c_exercises.GetFile.Header.Reading.{Reads, read_header-Reads}
use c_exercises.GetFile.Client.{Request}
use c_exercises.GetFile.Client.Perform.{request_text, receive}
use c_exercises.GetFile.Client.Download.{Outcome, receive-Outcome}
use c_exercises.GetFile.Server.{serve_connection}
use c_exercises.GetFile.Server.Request.{IsPath}
use c_exercises.GetFile.Server.Answering.{serve_connection-answers}

module _ (client : Net) where
  sent_all :
      (fd : ℤ) (msg : List ℕ) (w : client.World) (k : ℕ) (x : ℤ × client.World)
      → client.sent w fd ≡ []
      → Delivered client fd msg w x
      → x.0 ≡ pos k
      → client.sent x.1 fd ≡ msg
  sent_all fd msg w k (pos n, w') empty d e = d.1 ∙ ap (λ t. t ++ msg) empty
  sent_all fd msg w k (negsuc n, w') empty d e = absurd (cc e)

  -- A request that `send` takes without an error is in the stream.
  request-sent :
      (fd : ℤ) (msg : List ℕ) (w w₁ : client.World) (k : ℕ)
      → client.sent w fd ≡ []
      → send_loop client (length msg + 1) fd msg (length msg) 0 w ≡ some (pos k, w₁)
      → client.sent w₁ fd ≡ msg
  request-sent fd msg w w₁ k empty sends =
      let all = send_loop-all client fd msg w in
      let same : all.result ≡ (pos k, w₁) =
        some-injective all.result (pos k, w₁) (sym all.returns ∙ sends) in
      sym (ap (λ x. client.sent x.1 fd) same)
      ∙ sent_all fd msg w k all.result empty all.delivered (ap (λ x. x.0) same)

-- A download over both ends of a connection on which nothing has been sent. The client's `send` takes its whole
-- request, the server reads the request's header, and its callback sends the header for a file of
-- fewer than 2 ^ 64 bytes and then the file. Then the server comes to the end of the connection and
-- hangs up, and the client that reads what the server has sent comes to its end as well: with -1
-- and nothing passed on, or with the front of the file passed on, whose first byte is zeroed in one
-- of the cases; 0 then means the whole file, and -1 that fewer bytes came in.
pub exchange-Downloads :
    (client server : Net)
    → Duplex server
    → (r : Request) (path file buf : List ℕ) (cfd : ℤ) (sfd k e : ℕ) (w w₁ w₂ : client.World)
      (v v₁ v₂ : server.World)
      (handler : Context → List ℕ → server.World → Option (Context × server.World))
    → IsPath path
    → length file < size_mod
    → r.has_writefunc ≡ true
    → client.sent w cfd ≡ []
    → send_loop client
        (length (request_text path) + 1)
        cfd
        (request_text path)
        (length (request_text path))
        0
        w
      ≡ some (pos k, w₁)
    → server.incoming v (pos sfd) ≡ client.sent w₁ cfd
    → read_header server (buffer_size + 1) (pos sfd) [] v ≡ some (found buf e, v₁)
    → handler (record { cont_cfd = pos sfd }) path v₁ ≡ some (record { cont_cfd = pos sfd }, v₂)
    → server.sent v₂ (pos sfd) ≡ header_text gf_ok (length file) ++ file
    → client.incoming w₂ cfd
      ≡ server.sent (server.close (pos sfd) (server.shutdown (pos sfd) v₂)) (pos sfd)
    → (serve_connection server (some handler) (pos sfd) v
        ≡ some (
          record { cont_cfd = minus_one },
          server.close (pos sfd) (server.shutdown (pos sfd) v₂),
        ))
      × Outcome client r.output file (length file) (receive client r cfd w₂)
exchange-Downloads client server duplex r path file buf cfd sfd k e w w₁ w₂ v v₁ v₂ handler is small
      is_set empty sends there reads answers sent_file back =
    let asked = request-sent client cfd (request_text path) w w₁ k empty sends in
    let kept =
      duplex.close_sent (pos sfd) (server.shutdown (pos sfd) v₂)
      ∙ duplex.shutdown_sent (pos sfd) v₂ in
    (
      serve_connection-answers server handler path buf sfd e v v₁ v₂ is (there ∙ asked) reads
          answers,
      receive-Outcome client r cfd (length file) file w₂ small is_set (back ∙ kept ∙ sent_file),
    )
