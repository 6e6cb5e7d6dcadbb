-- ===== src/Tests/Service.antt =====
-- The theorem on a server that is started and serves clients, at work.
use peer_to_peer_fileshare.Base.{
  ◌≡◌, refl, true, false, none, inl, List, [], ◌∷◌, All, arith, list_eq, nat_eq, map, ◌++◌,
}
use peer_to_peer_fileshare.CString.{Text, codes}
use peer_to_peer_fileshare.Posix.Memory.{memory, memory-IsLawful, memory-IsReliable}
use peer_to_peer_fileshare.ConnectFile.{print_int, scan_connection}
use peer_to_peer_fileshare.Handle.Access.{users}
use peer_to_peer_fileshare.Handle.Reliable.Does.{Laid}
use peer_to_peer_fileshare.Request.{Stale, atoi}
use peer_to_peer_fileshare.Request.Opening.{plain-IsLine}
use peer_to_peer_fileshare.Request.Serve.{left, code_line}
use peer_to_peer_fileshare.Request.Orders.{registers, connects, publishes, deletes}
use peer_to_peer_fileshare.Request.Clients.{
  Client, Ask, orders, unregisters, finds, IsServed, serve_clients, spec_clients, day_of,
}
use peer_to_peer_fileshare.Start.Service.{server_refines}
use peer_to_peer_fileshare.Tests.Data.{ann, notes, address, started, ann-IsUser, notes-IsName}
use peer_to_peer_fileshare.Tests.Sockets.{table, errno, at_boot}
use peer_to_peer_fileshare.Tests.Starts.{argv, empty_disk, blank, listening_table, boots}

abbrev unset : Stale
unset f = []

abbrev noon : Text
noon = codes "25/11/2026 12:00:00"

abbrev asks : Ask → Client
asks a = record { stale = unset; address = address; time = noon; ask = a }

-- ann registers, connects, publishes a file, deletes it twice, asks where it is, leaves, and leaves again.
abbrev visitors : List Client
visitors =
    asks (orders (registers ann))
    ∷ asks (orders (connects ann (codes "4000")))
    ∷ asks (orders (publishes ann notes (codes "my notes")))
    ∷ asks (orders (deletes ann notes))
    ∷ asks (orders (deletes ann notes))
    ∷ asks (finds ann ann)
    ∷ asks (unregisters ann)
    ∷ asks (unregisters ann)
    ∷ []

registers-IsServed : IsServed (asks (orders (registers ann)))
registers-IsServed = record {
  sound = ann-IsUser;
  fitting = (plain-IsLine ann refl, omega arith);
  time_fits = (plain-IsLine noon refl, omega arith);
  is_someone = refl;
}

connects-IsServed : IsServed (asks (orders (connects ann (codes "4000"))))
connects-IsServed = record {
  sound = ann-IsUser;
  fitting = ((plain-IsLine ann refl, omega arith), (plain-IsLine (codes "4000") refl, omega arith));
  time_fits = (plain-IsLine noon refl, omega arith);
  is_someone = refl;
}

publishes-IsServed : IsServed (asks (orders (publishes ann notes (codes "my notes"))))
publishes-IsServed = record {
  sound = (ann-IsUser, notes-IsName);
  fitting = (
    (plain-IsLine ann refl, omega arith),
    (plain-IsLine notes refl, omega arith),
    (plain-IsLine (codes "my notes") refl, omega arith),
  );
  time_fits = (plain-IsLine noon refl, omega arith);
  is_someone = refl;
}

deletes-IsServed : IsServed (asks (orders (deletes ann notes)))
deletes-IsServed = record {
  sound = (ann-IsUser, notes-IsName);
  fitting = ((plain-IsLine ann refl, omega arith), (plain-IsLine notes refl, omega arith));
  time_fits = (plain-IsLine noon refl, omega arith);
  is_someone = refl;
}

finds-IsServed : IsServed (asks (finds ann ann))
finds-IsServed = record {
  sound = (ann-IsUser, ann-IsUser);
  fitting = ((plain-IsLine ann refl, omega arith), (plain-IsLine ann refl, omega arith));
  time_fits = (plain-IsLine noon refl, omega arith);
  is_someone = refl;
}

unregisters-IsServed : IsServed (asks (unregisters ann))
unregisters-IsServed = record {
  sound = ann-IsUser;
  fitting = (plain-IsLine ann refl, omega arith);
  time_fits = (plain-IsLine noon refl, omega arith);
  is_someone = refl;
}

visitors-AreServed : All IsServed visitors
visitors-AreServed = (
  registers-IsServed,
  (
    connects-IsServed,
    (
      publishes-IsServed,
      (
        deletes-IsServed,
        (deletes-IsServed, (finds-IsServed, (unregisters-IsServed, (unregisters-IsServed, tt)))),
      ),
    ),
  ),
)

server_refines_example :
    (day_of memory (serve_clients memory visitors started false [])
      ≡ spec_clients visitors (users memory blank) [])
    × Laid memory (serve_clients memory visitors started false []).files
server_refines_example =
    server_refines memory-IsLawful errno table memory-IsReliable argv true blank at_boot 3 started
      listening_table visitors (inl empty_disk) boots visitors-AreServed

-- What the visitors are sent.
sent_to :
    (spec_clients visitors (λ u. none) []).answers
    ≡ map
        (λ x. (left, x))
        (code_line 0
          ∷ code_line 0
          ∷ code_line 0
          ∷ code_line 0
          ∷ code_line 3
          ∷ (code_line 0 ++ (address ++ 0 ∷ []) ++ codes "4000" ++ 0 ∷ [])
          ∷ code_line 0
          ∷ code_line 1
          ∷ [])
unfolding spec_clients print_int scan_connection atoi
sent_to = refl
