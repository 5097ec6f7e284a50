-- ===== src/GetFile/Server/Serving.antt =====
-- `gfserver_serve` of projects/gflib/gfserver.c: the socket, and the loop over `accept`.
use c_exercises.Base.{
  ℕ, suc, ◌≡◌, refl, sym, ◌∙◌, ap, append_assoc, append-nil, ◌++◌, Bool, true, false, Option, none,
  some, List, [], ◌∷◌, length, if◌then◌else◌, ℤ, pos, negsuc, minus_one, is_negative,
}
use c_exercises.Net.{Net}
use c_exercises.Net.Ends.{Descriptors}
use c_exercises.GetFile.Send.{Context}
use c_exercises.GetFile.Server.{
  Server, Binding, bound, unbound, bind_loop, Handler, serve_connection,
}
use c_exercises.GetFile.Server.Connection.{Answers, serve_connection-Closes}

-- What the operating system answers: to `getaddrinfo` for a port, and to `listen` for a descriptor and
-- a backlog.
pub record Host : Type 0 where
  pub addresses : ℕ → Option (List (ℤ × Bool))
  pub listens : ℤ → ℤ → Bool

-- Where `gfserver_serve` is: it has returned, or it is blocked in `accept` on a descriptor, behind these
-- contexts of connections, as they were freed.
pub data Served : Type 0 where
  gives_up : Served
  awaits : ℤ → List Context → Served

module _ (net : Net) where
  open net use {World, close}

  abbrev pub and_then : Context → Option (List Context × World) → Option (List Context × World)
  and_then ctx none = none
  and_then ctx (some (later, w)) = some (ctx ∷ later, w)

  -- The loop, by what `accept` returns and whether the `calloc` of the context succeeds.
  unfoldable pub serve_loop : Handler net → List (ℤ × Bool) → World → Option (List Context × World)
  unfolding serve_connection
  serve_loop handler [] w = some ([], w)
  serve_loop handler ((clientfd, calloc_ok) ∷ rest) w = elim (is_negative clientfd) [
    | true ↦ serve_loop handler rest w
    | false ↦ elim calloc_ok [
      | false ↦ serve_loop handler rest (close clientfd w)
      | true ↦ elim (serve_connection net handler clientfd w) [
        | none ↦ none
        | some (ctx, w') ↦ and_then ctx (serve_loop handler rest w')
      ]
    ]
  ]

  abbrev pub with_contexts : ℤ → Option (List Context × World) → Option (Served × World)
  with_contexts listenfd none = none
  with_contexts listenfd (some (contexts, w)) = some (awaits listenfd contexts, w)

  -- From the end of the loop over the addresses on.
  abbrev pub with_binding :
      Server → Host → Handler net → List (ℤ × Bool) → Binding → World → Option (Served × World)
  with_binding s host handler accepted (unbound fd) w = some (gives_up, close fd w)
  with_binding s host handler accepted (bound fd) w = elim (is_negative fd) [
    | true ↦ some (gives_up, close fd w)
    | false ↦ elim (host.listens fd s.max_npending) [
      | false ↦ some (gives_up, close fd w)
      | true ↦ with_contexts fd (serve_loop handler accepted w)
    ]
  ]

  abbrev pub with_addresses :
      Server
      → Host
      → Handler net
      → List (ℤ × Bool)
      → Option (List (ℤ × Bool))
      → World
      → Option (Served × World)
  with_addresses s host handler accepted none w = some (gives_up, w)
  with_addresses s host handler accepted (some addresses) w =
      with_binding s host handler accepted (bind_loop minus_one addresses) w

  unfoldable pub gfserver_serve :
      Option Server → Host → Handler net → List (ℤ × Bool) → World → Option (Served × World)
  unfolding serve_loop bind_loop
  gfserver_serve none host handler accepted w = some (gives_up, w)
  gfserver_serve (some s) host handler accepted w =
      with_addresses s host handler accepted (host.addresses s.port) w

-- The descriptors of the connections that `accept` returns, and how many of them get a context.
abbrev pub connections : List (ℤ × Bool) → List ℤ
connections [] = []
connections ((clientfd, calloc_ok) ∷ rest) =
    if is_negative clientfd then connections rest else clientfd ∷ connections rest

abbrev pub usable : List (ℤ × Bool) → ℕ
usable [] = 0
usable ((clientfd, calloc_ok) ∷ rest) =
    if is_negative clientfd
    then usable rest
    else if calloc_ok
    then suc (usable rest)
    else usable rest

module _ (net : Net) (descriptors : Descriptors net) where
  open net use {World, close}
  open descriptors use {closed, close_closed}

  -- The loop comes back to `accept` behind every connection, and has closed just these, each once and in
  -- order.
  pub record ServesAll (accepted : List (ℤ × Bool)) (w : World)
      (run : Option (List Context × World)) : Type 0 where
    pub contexts : List Context
    pub world : World
    pub comes_back : run ≡ some (contexts, world)
    pub count : length contexts ≡ usable accepted
    pub all_closed : closed world ≡ closed w ++ connections accepted

  -- A connection that has been closed, and the loop behind it.
  one_closed :
      (fd : ℕ) (w : World) {w₁ w' : World} (rest : List ℤ)
      → closed w₁ ≡ closed w ++ pos fd ∷ []
      → closed w' ≡ closed w₁ ++ rest
      → closed w' ≡ closed w ++ pos fd ∷ rest
  one_closed fd w rest one later =
      later ∙ ap (λ t. t ++ rest) one ∙ append_assoc (closed w) (pos fd ∷ []) rest

  one_more :
      (accepted : List (ℤ × Bool)) (fd : ℕ) (ctx : Context) (w : World) {w₁ : World}
      (run : Option (List Context × World))
      → closed w₁ ≡ closed w ++ pos fd ∷ []
      → ServesAll accepted w₁ run
      → ServesAll ((pos fd, true) ∷ accepted) w (and_then net ctx run)
  one_more accepted fd ctx w run one later = record {
    contexts = ctx ∷ later.contexts;
    world = later.world;
    comes_back = ap (and_then net ctx) later.comes_back;
    count = ap suc later.count;
    all_closed = one_closed fd w (connections accepted) one later.all_closed;
  }

  serve_loop-ServesAll :
      (handler : Handler net) (accepted : List (ℤ × Bool)) (w : World)
      → Answers net descriptors handler
      → ServesAll accepted w (serve_loop net handler accepted w)
  unfolding serve_loop
  serve_loop-ServesAll handler [] w h = record {
    contexts = [];
    world = w;
    comes_back = refl;
    count = refl;
    all_closed = sym (append-nil (closed w));
  }
  serve_loop-ServesAll handler ((negsuc k, calloc_ok) ∷ rest) w h =
      let later = serve_loop-ServesAll handler rest w h in
      record {
        contexts = later.contexts;
        world = later.world;
        comes_back = later.comes_back;
        count = later.count;
        all_closed = later.all_closed;
      }
  serve_loop-ServesAll handler ((pos fd, false) ∷ rest) w h =
      let later = serve_loop-ServesAll handler rest (close (pos fd) w) h in
      record {
        contexts = later.contexts;
        world = later.world;
        comes_back = later.comes_back;
        count = later.count;
        all_closed = one_closed fd w (connections rest) (close_closed (pos fd) w) later.all_closed;
      }
  serve_loop-ServesAll handler ((pos fd, true) ∷ rest) w h =
      let one = serve_connection-Closes net descriptors handler fd w h in
      rw one.returns (
        one_more rest fd one.context w (serve_loop net handler rest one.world) one.once
          (serve_loop-ServesAll handler rest one.world h))

  -- A server whose loop over the addresses breaks on one, and whose socket listens, serves for ever: with a
  -- callback that comes back, and leaves its context as it is or gives it up through `gfs_abort`, whatever comes in on
  -- the connections, it comes back to `accept` behind every one of them. It has closed the descriptors
  -- that `accept` returned, each once and in this order, and no other ones.
  pub gfserver_serve-ServesAll :
      (s : Server) (host : Host) (handler : Handler net) (addresses accepted : List (ℤ × Bool))
      (fd : ℕ) (w : World)
      → host.addresses s.port ≡ some addresses
      → bind_loop minus_one addresses ≡ bound (pos fd)
      → host.listens (pos fd) s.max_npending ≡ true
      → Answers net descriptors handler
      → (contexts : List Context) × (w' : World) × (gfserver_serve net
            (some s)
            host
            handler
            accepted
            w
          ≡ some (awaits (pos fd) contexts, w'))
        × (length contexts ≡ usable accepted)
        × (closed w' ≡ closed w ++ connections accepted)
  unfolding gfserver_serve
  gfserver_serve-ServesAll s host handler addresses accepted fd w resolves binds listens h =
      let all = serve_loop-ServesAll handler accepted w h in
      (
        all.contexts,
        all.world,
        rw (gfserver_serve, resolves, binds, listens, all.comes_back) refl,
        all.count,
        all.all_closed,
      )
