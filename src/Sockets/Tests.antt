-- ===== src/Sockets/Tests.antt =====
-- An address without a socket, one in use, and one that works.
use c_exercises.Base.{refl, true, false, some, List, [], ◌∷◌, pos, minus_one}
use c_exercises.Echo.{is_positive}
use c_exercises.Sockets.{Address, Host, listening_socket}
use c_exercises.Sockets.Addresses.{Listens, listening_socket-Listens}

abbrev three_addresses : List Address
three_addresses =
    record { socket = minus_one; accepts = false }
    ∷ record { socket = pos 3; accepts = false }
    ∷ record { socket = pos 4; accepts = true }
    ∷ []

-- `listen` fails with a backlog of 0.
abbrev host : Host
host = record { addresses = λ port. some three_addresses; listens = is_positive }

listening_socket-Listens_example : Listens true three_addresses (listening_socket host 2000 (pos 5))
listening_socket-Listens_example = listening_socket-Listens host 2000 (pos 5) three_addresses refl
