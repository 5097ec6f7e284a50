-- ===== src/Sockets/Addresses.antt =====
-- Which address the loop over the results of `getaddrinfo` settles on, and what becomes of the others.
use c_exercises.Base.{
  ℕ, ◌≡◌, refl, ap, sym, subst, ◌∙◌, append-nil, ◌⊎◌, Bool, true, false, not, ◌&&◌, Option, none,
  some, List, [], ◌∷◌, ◌++◌, if◌then◌else◌, inl, inr, ℤ, pos, negsuc, minus_one, is_negative,
}
use c_exercises.Sockets.{
  Address, Start, exits, goes, first_socket, get_socket, Host, listening_socket, start_listening,
  keep_socket, ◌>>=◌,
}

-- An address that can be used: it has a socket, and `bind` or `connect` succeeds.
abbrev pub is_usable : Address → Bool
is_usable a = not (is_negative a.socket) && a.accepts

-- The socket of the first address that can be used.
abbrev pub usable_socket : List Address → Option ℤ
usable_socket [] = none
usable_socket (a ∷ rest) = if is_usable a then some a.socket else usable_socket rest

abbrev own_socket : ℤ → List ℤ
own_socket fd = if is_negative fd then [] else fd ∷ []

-- The sockets that are opened up to the first address that can be used.
abbrev pub opened_sockets : List Address → List ℤ
opened_sockets [] = []
opened_sockets (a ∷ rest) = own_socket a.socket ++ (if is_usable a then [] else opened_sockets rest)

-- What the set-up of a socket comes to: it goes on with the first usable socket and has closed all the
-- others that it opened; without a usable one it ends with code 1 and has closed all.
abbrev pub Settles : List Address → Start ℤ → Type 0
Settles addresses (goes closed fd) =
    (usable_socket addresses ≡ some fd)
    × (is_negative fd ≡ false)
    × (opened_sockets addresses ≡ closed ++ fd ∷ [])
Settles addresses (exits code closed) =
    (code ≡ 1) × (usable_socket addresses ≡ none) × (opened_sockets addresses ≡ closed)

-- One more address in front, which is not usable, and whose socket is closed if it has one.
refused-Settles :
    (fd : ℤ) (rest : List Address) (r : ℤ × List ℤ)
    → is_negative fd ≡ false
    → Settles rest (keep_socket r)
    → Settles (record { socket = fd; accepts = false } ∷ rest) (keep_socket (r.0, fd ∷ r.1))
refused-Settles (pos n) rest (pos m, closed) made s = (s.0, s.1, ap (λ t. pos n ∷ t) s.2)
refused-Settles (pos n) rest (negsuc m, closed) made s = (s.0, s.1, ap (λ t. pos n ∷ t) s.2)
refused-Settles (negsuc n) rest r made s = cc

first_socket-step :
    (fd own : ℤ) (accepts : Bool) (rest : List Address)
    → ((fd' : ℤ) → is_negative fd' ≡ true → Settles rest (keep_socket (first_socket fd' rest)))
    → let a : Address = record { socket = own; accepts = accepts } in
      Settles (a ∷ rest) (keep_socket (first_socket fd (a ∷ rest)))
unfolding first_socket
first_socket-step fd (pos n) true rest later = (refl, refl, refl)
first_socket-step fd (pos n) false rest later =
    refused-Settles (pos n) rest (first_socket minus_one rest) refl (later minus_one refl)
first_socket-step fd (negsuc n) accepts rest later =
    made_none (keep_socket (first_socket (negsuc n) rest)) (later (negsuc n) refl)
  where
    made_none :
        (s : Start ℤ)
        → Settles rest s
        → Settles (record { socket = negsuc n; accepts = accepts } ∷ rest) s
    made_none (goes closed fd) t = t
    made_none (exits code closed) t = t

first_socket-Settles :
    (fd : ℤ) (addresses : List Address)
    → is_negative fd ≡ true
    → Settles addresses (keep_socket (first_socket fd addresses))
unfolding first_socket
first_socket-Settles fd [] unset = rw unset (refl, refl, refl)
first_socket-Settles fd (a ∷ rest) unset =
    first_socket-step fd a.socket a.accepts rest (λ fd'. first_socket-Settles fd' rest)

-- The loop over the addresses takes the first one with a socket that `connect` or `bind` accepts, and
-- has closed every other socket it opened. Without such an address the program exits with 1 and has
-- closed every socket.
pub get_socket-Settles :
    (addresses : List Address) → Settles addresses (get_socket (some addresses))
unfolding get_socket
get_socket-Settles addresses = first_socket-Settles minus_one addresses refl

-- The same of a server, whose socket also has to listen: if `listen` fails, that socket is closed too.
abbrev pub Listens : Bool → List Address → Start ℤ → Type 0
Listens listens addresses (goes closed fd) =
    (listens ≡ true)
    × (usable_socket addresses ≡ some fd)
    × (opened_sockets addresses ≡ closed ++ fd ∷ [])
Listens listens addresses (exits code closed) =
    (code ≡ 1)
    × ((usable_socket addresses ≡ none) ⊎ (listens ≡ false))
    × (opened_sockets addresses ≡ closed)

start_listening-Listens :
    (listens : Bool) (addresses : List Address) (s : Start ℤ)
    → Settles addresses s
    → Listens listens addresses (s >>= start_listening listens)
start_listening-Listens listens addresses (exits code closed) s = (s.0, inl s.1, s.2)
start_listening-Listens true addresses (goes closed fd) s =
    (refl, s.0, s.2 ∙ ap (λ t. t ++ fd ∷ []) (sym (append-nil closed)))
start_listening-Listens false addresses (goes closed fd) s = (refl, inr refl, s.2)

-- A server goes on with the first socket that could be bound, after `listen`, and has closed every other
-- socket it opened; without one, or if `listen` fails, it exits with 1 and has closed every socket.
pub listening_socket-Listens :
    (host : Host) (port : ℕ) (backlog : ℤ) (addresses : List Address)
    → host.addresses port ≡ some addresses
    → Listens (host.listens backlog) addresses (listening_socket host port backlog)
unfolding listening_socket
listening_socket-Listens host port backlog addresses resolved =
    subst
      (λ a.
        Listens (host.listens backlog) addresses
          (get_socket a >>= start_listening (host.listens backlog)))
      (sym resolved)
      (start_listening-Listens (host.listens backlog) addresses (get_socket (some addresses))
        (get_socket-Settles addresses))
