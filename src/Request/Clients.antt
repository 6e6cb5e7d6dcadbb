-- ===== src/Request/Clients.antt =====
-- servidor.c: one thread after another, each for a client that connects, and what the map of accounts
-- says of the same clients.
use peer_to_peer_fileshare.Base.{ℕ, ◌≡◌, Bool, false, List, [], ◌∷◌, ◌++◌, ◌==◌, list_eq, nat_eq}
use peer_to_peer_fileshare.CString.{Text, codes}
use peer_to_peer_fileshare.Posix.{IsName, FileSystem}
use peer_to_peer_fileshare.Registry.{
  Registry, register_spec, connect_spec, publish_spec, delete_spec, disconnect_spec,
  unregister_spec,
}
use peer_to_peer_fileshare.Handle.Places.{IsUser}
use peer_to_peer_fileshare.Handle.Access.{users}
use peer_to_peer_fileshare.Handle.Account.{line}
use peer_to_peer_fileshare.Handle.Refines.Connect.{contact}
use peer_to_peer_fileshare.Handle.Reliable.Queries.{find_spec}
use peer_to_peer_fileshare.Request.{
  c_time_string, username, owner, rpc_string, Stale, no_user, atoi, tratar_peticion,
}
use peer_to_peer_fileshare.Request.Serve.{World, End, left, serve, lines, calm, code_line, Carried}
use peer_to_peer_fileshare.Request.Orders.{
  Order, registers, connects, publishes, deletes, disconnects, op_name, user_of, order_lines,
  AreCarried,
}
use peer_to_peer_fileshare.Request.Others.{file_lines_sent}

-- A request, but for the two that ask for a list.
pub data Ask : Type 0 where
  orders : Order → Ask
  unregisters : Text → Ask
  finds : Text → Text → Ask

-- A client: what the buffers of its thread hold at first, its address, the time that it sends, and what it
-- asks for.
pub record Client : Type 0 where
  pub stale : Stale
  pub address : Text
  pub time : Text
  pub ask : Ask

abbrev pub ask_lines : Ask → Text → List Text
ask_lines (orders o) time = order_lines o time
ask_lines (unregisters u) time = codes "UNREGISTER" ∷ time ∷ u ∷ []
ask_lines (finds u o) time = codes "GET_FILE" ∷ u ∷ o ∷ []

-- What the log is told of a request.
abbrev pub told_of : Ask → Text → List Text
told_of (orders o) time = rpc_string (user_of o) (op_name o) time ∷ []
told_of (unregisters u) time = rpc_string u (codes "UNREGISTER") time ∷ []
told_of (finds u o) time = []

-- The operation of the registry.
abbrev pub order_spec : Text → Order → Registry → ℕ × Registry
order_spec address (registers u) g = register_spec u g
order_spec address (connects u port) g = connect_spec u (contact address (atoi port)) g
order_spec address (publishes u f d) g = publish_spec u f (line d) g
order_spec address (deletes u f) g = delete_spec u f g
order_spec address (disconnects u) g = disconnect_spec u g

-- A code alone.
abbrev pub in_code : ℕ × Registry → Text × Registry
in_code (code, g) = (code_line code, g)

-- What is sent, and the registry afterwards.
abbrev pub ask_spec : Text → Ask → Registry → Text × Registry
ask_spec address (orders o) g = in_code (order_spec address o g)
ask_spec address (unregisters u) g = in_code (unregister_spec u g)
ask_spec address (finds u o) g = (file_lines_sent [] (find_spec u o g), g)

-- The names are ones that the buffers and the system hold.
abbrev pub AreSound : Ask → Type 0
AreSound (orders (registers u)) = IsUser u
AreSound (orders (connects u port)) = IsUser u
AreSound (orders (publishes u f d)) = IsUser u × IsName f
AreSound (orders (deletes u f)) = IsUser u × IsName f
AreSound (orders (disconnects u)) = IsUser u
AreSound (unregisters u) = IsUser u
AreSound (finds u o) = IsUser u × IsUser o

abbrev pub AreFitting : Ask → Type 0
AreFitting (orders o) = AreCarried o
AreFitting (unregisters u) = Carried username u
AreFitting (finds u o) = Carried username u × Carried owner o

abbrev pub asker : Ask → Text
asker (orders o) = user_of o
asker (unregisters u) = u
asker (finds u o) = u

pub record IsServed (c : Client) : Type 0 where
  pub sound : AreSound c.ask
  pub fitting : AreFitting c.ask
  pub time_fits : Carried c_time_string c.time
  pub is_someone : (asker c.ask == no_user) ≡ false

-- What came of some clients: how each thread ended and what it sent, the files, whether the mutex is
-- locked, and what the log was told.
pub record Day (S : Type 0) : Type 0 where
  pub answers : List (End × Text)
  pub files : S
  pub locked : Bool
  pub logged : List Text

abbrev pub with_answer : {S : Type 0} → End × Text → Day S → Day S
with_answer a d = record d { answers = a ∷ d.answers }

module _ (F : FileSystem) where
  -- A thread for the client, over a socket of its own.
  abbrev pub serve_client : Client → F.State → Bool → List Text → End × World F.State
  serve_client c s locked logged =
      serve (tratar_peticion F c.stale (λ t. 2))
        (record (calm c.address s (lines (ask_lines c.ask c.time) []) [] logged) {
          locked = locked;
        })

  abbrev pub then_day :
      End × World F.State → (F.State → Bool → List Text → Day F.State) → Day F.State
  then_day (e, w) k = with_answer (e, w.sent) (k w.files w.locked w.logged)

  -- The threads of the clients, each after the one before has ended.
  unfoldable pub serve_clients : List Client → F.State → Bool → List Text → Day F.State
  serve_clients [] s locked logged = record {
    answers = [];
    files = s;
    locked = locked;
    logged = logged;
  }
  serve_clients (c ∷ cs) s locked logged =
      then_day (serve_client c s locked logged) (serve_clients cs)

-- The same for the registry.
abbrev pub spec_day : Text × Registry → (Registry → Day Registry) → Day Registry
spec_day (sent, h) k = with_answer (left, sent) (k h)

unfoldable pub spec_clients : List Client → Registry → List Text → Day Registry
unfolding find_spec
spec_clients [] g logged = record { answers = []; files = g; locked = false; logged = logged }
spec_clients (c ∷ cs) g logged =
    spec_day (ask_spec c.address c.ask g) (λ h. spec_clients cs h (logged ++ told_of c.ask c.time))

abbrev pub day_of : (F : FileSystem) → Day F.State → Day Registry
day_of F d = record {
  answers = d.answers;
  files = users F d.files;
  locked = d.locked;
  logged = d.logged;
}
