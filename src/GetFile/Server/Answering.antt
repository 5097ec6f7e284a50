-- ===== src/GetFile/Server/Answering.antt =====
-- What gfserver.c does with a request that gfclient.c has sent, behind its header.
use mathlib.Core.Option.{some-injective}
use c_exercises.Base.{
  ℕ, ◌+◌, ◌≤◌, ◌≡◌, refl, sym, ◌∙◌, ap, subst, Option, some, List, [], ◌++◌, arith, length,
  take-append_left, append-nil, pos, minus_one,
}
use c_exercises.Net.{Net, ◌>>=◌}
use c_exercises.GetFile.Send.{Context}
use c_exercises.GetFile.Header.{find_header_tail, found, buffer_size, read_header}
use c_exercises.GetFile.Header.Tail.{find_header_tail-grow}
use c_exercises.GetFile.Header.Reading.{Reads, read_header-Reads}
use c_exercises.GetFile.Client.Perform.{request_text}
use c_exercises.GetFile.Server.{
  header_len, parse_request, hang_up, answer_request, answer, call_handler, serve_connection,
}
use c_exercises.GetFile.Server.Request.{IsPath, parse_request-request_text}

header_len-le : (e : ℕ) → header_len e ≤ e
header_len-le e = ground arith

-- The request is read from the bytes up to its end.
parse_request-append :
    (buf rest : List ℕ) (e : ℕ)
    → e ≤ length buf
    → parse_request (buf ++ rest) e ≡ parse_request buf e
unfolding parse_request
parse_request-append buf rest e h =
    rw (take-append_left (header_len e) buf rest (omega (arith, h, header_len-le e))) refl

-- What has been read of a stream that holds a client's request gives the path.
parse_request-read :
    (path buf rest : List ℕ) (e : ℕ)
    → IsPath path
    → buf ++ rest ≡ request_text path
    → find_header_tail buf ≡ pos e
    → e ≤ length buf
    → parse_request buf e ≡ some path
parse_request-read path buf rest e is whole tail le =
    let (end, path_read) = parse_request-request_text path [] is in
    let same : buf ++ rest ≡ request_text path ++ [] =
      whole ∙ sym (append-nil (request_text path)) in
    let grown : find_header_tail (request_text path ++ []) ≡ pos e =
      subst (λ t. find_header_tail t ≡ pos e) same (find_header_tail-grow buf rest tail) in
    let at_end : e ≡ length (request_text path) = cc (grown, end) in
    sym (parse_request-append buf rest e le)
    ∙ ap (λ t. parse_request t e) same
    ∙ ap (parse_request (request_text path ++ [])) at_end
    ∙ path_read

module _ (server : Net) where
  hangs_up :
      (handler : Context → List ℕ → server.World → Option (Context × server.World)) (path : List ℕ)
      (sfd : ℕ) (v v' : server.World)
      → handler (record { cont_cfd = pos sfd }) path v ≡ some (record { cont_cfd = pos sfd }, v')
      → answer_request server (some handler) (pos sfd) (some path) v
        ≡ hang_up server (record { cont_cfd = pos sfd }) v'
  unfolding answer_request call_handler
  hangs_up handler path sfd v v' e = rw (e, ◌>>=◌)

  -- The server calls the callback with the path, and hangs up behind it.
  pub serve_connection-answers :
      (handler : Context → List ℕ → server.World → Option (Context × server.World))
      (path buf : List ℕ) (sfd e : ℕ) (v v₁ v₂ : server.World)
      → IsPath path
      → server.incoming v (pos sfd) ≡ request_text path
      → read_header server (buffer_size + 1) (pos sfd) [] v ≡ some (found buf e, v₁)
      → handler (record { cont_cfd = pos sfd }) path v₁ ≡ some (record { cont_cfd = pos sfd }, v₂)
      → serve_connection server (some handler) (pos sfd) v
        ≡ some
            (record { cont_cfd = minus_one }, server.close (pos sfd) (server.shutdown (pos sfd) v₂))
  unfolding serve_connection answer hang_up
  serve_connection-answers handler path buf sfd e v v₁ v₂ is comes reads answers =
      let reading = read_header-Reads server (pos sfd) v in
      let same : reading.result ≡ (found buf e, v₁) =
        some-injective reading.result (found buf e, v₁) (sym reading.returns ∙ reads) in
      let (split, _, tail, le, _) = subst (Reads server (pos sfd) v) same reading.reads in
      let path_read =
        parse_request-read path buf (server.incoming v₁ (pos sfd)) e is (sym split ∙ comes) tail
          le in
      rw (reads, path_read) (hangs_up handler path sfd v₁ v₂ answers)
