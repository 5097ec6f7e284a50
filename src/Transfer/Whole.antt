-- ===== src/Transfer/Whole.antt =====
-- The transfer client with the transfer server at the other end of its connection.
use mathlib.Core.Option.{some-injective}
use c_exercises.Base.{ℕ, ◌≡◌, sym, subst, ◌∙◌, ap, Option, some, List, [], ◌++◌, append-nil, ℤ}
use c_exercises.Net.{Net}
use c_exercises.Net.Ends.{Duplex, Sink, Accepts}
use c_exercises.Transfer.{serve_file, receive_file}
use c_exercises.Transfer.Blocks.{Gapped, serve_file-SendsFile}
use c_exercises.Transfer.Receiving.{receive_file-Receives}

-- The client's side is `net`, the server's `server`.
module _ (net server : Net) (duplex : Duplex net) (server_duplex : Duplex server)
    (sink : Sink) where
  open sink use {File, written}

  -- A client that exits with 0 has the file behind what its output held, except for the ends of 512-byte
  -- blocks of which a `send` of the server took no byte, and the whole file if every `send` of the
  -- server takes a byte at least.
  pub record Copies (peer : ℤ) (bytes : List ℕ) (file : File) (run : Option (ℕ × net.World × File))
      : Type 0 where
    pub end : ℕ × net.World × File
    pub returns : run ≡ some end
    pub copy : List ℕ
    pub on_file : end.0 ≡ 0 → written end.2 ≡ written file ++ copy
    pub gapped : Gapped server peer [] bytes copy
    pub whole : Accepts server peer → copy ≡ bytes

  -- The server has sent the file on a fresh connection, and the client takes in what the server has sent.
  -- The client comes to an end; if it exits with 0, its file holds what it held before and the server's
  -- file, of each 512-byte block of which only an end may be missing, and only if a `send` of the server
  -- of just this end took no byte. If every `send` takes a byte at least, it is the whole file.
  pub transfer-Copies :
      (fd peer : ℤ) (bytes : List ℕ) (w : net.World) (ws ws' : server.World) (file : File)
      → serve_file server peer bytes ws ≡ some ws'
      → server.sent ws peer ≡ []
      → net.incoming w fd ≡ server.sent ws' peer
      → Copies peer bytes file (receive_file net sink fd w file)
  transfer-Copies fd peer bytes w ws ws' file run fresh from_server =
      let r = receive_file-Receives net sink duplex fd w file in
      let s = serve_file-SendsFile server server_duplex peer bytes ws in
      let same : s.world ≡ ws' = some-injective s.world ws' (sym s.returns ∙ run) in
      let came : net.incoming w fd ≡ s.out =
        from_server
        ∙ ap (λ t. server.sent t peer) (sym same)
        ∙ s.sent_out
        ∙ ap (λ t. t ++ s.out) fresh in
      record {
        end = r.end;
        returns = r.returns;
        copy = s.out;
        on_file = λ exit.
            r.on_file
            ∙ ap (λ t. written file ++ t)
                (sym (append-nil r.part)
                  ∙ ap (λ t. r.part ++ t) (sym (r.whole exit))
                  ∙ sym r.split
                  ∙ came);
        gapped = subst (λ t. Gapped server peer t bytes s.out) fresh s.gapped;
        whole = s.whole;
      }
