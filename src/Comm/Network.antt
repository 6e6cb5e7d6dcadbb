-- ===== src/Comm/Network.antt =====
-- The calls of the operating system and of the C library that comm.c and servidor.c make on sockets, over
-- an unknown state. They are not code of the repository: `Network` names the calls, and
-- `IsLawfulNetwork` states what POSIX documents of them.
use peer_to_peer_fileshare.Base.{ℕ, ◌≤◌, ◌≡◌, Option, some, ◌==◌, nat_eq, if◌then◌else◌}
use peer_to_peer_fileshare.CString.{Text}

-- What stands behind a descriptor: nothing; something that is no socket of TCP; a socket as `socket`
-- makes it, with a port, or with a port and a queue; or one end of a connection.
pub data Endpoint : Type 0 where
  unused other fresh connection : Endpoint
  bound listening : ℕ → Endpoint

abbrev pub put : (ℕ → Endpoint) → ℕ → Endpoint → ℕ → Endpoint
put f d v e = if e == d then v else f e

-- `none` is a call that fails, which leaves the state as it was. The result of `setsockopt` is not
-- looked at. A port is what `htons` makes of the number.
pub record Network : Type 1 where
  pub State : Type 0
  pub endpoint : State → ℕ → Endpoint
  pub socket : State → Option (ℕ × State)
  pub setsockopt : State → ℕ → State
  pub bind : State → ℕ → ℕ → Option State
  pub listen : State → ℕ → Option State
  pub accept : State → ℕ → Option (ℕ × State)
  pub gethostbyname : State → Text → Option Text
  pub connect : State → ℕ → Text → ℕ → Option State
  pub close : State → ℕ → Option State

-- A bind to port 0 leaves the choice of the port to the system.
pub record IsLawfulNetwork (N : Network) : Type 0 where
  pub socket_some :
      (w : N.State) (d : ℕ) (x : N.State)
      → N.socket w ≡ some (d, x)
      → (N.endpoint w d ≡ unused) × (N.endpoint x ≡ put (N.endpoint w) d fresh)
  pub setsockopt_lem : (w : N.State) (d : ℕ) → N.endpoint (N.setsockopt w d) ≡ N.endpoint w
  pub bind_some :
      (w : N.State) (d p : ℕ) (x : N.State)
      → N.bind w d p ≡ some x
      → (q : ℕ) × (1 ≤ p → q ≡ p) × (N.endpoint x ≡ put (N.endpoint w) d (bound q))
  pub listen_some :
      (w : N.State) (d q : ℕ) (x : N.State)
      → N.endpoint w d ≡ bound q
      → N.listen w d ≡ some x
      → N.endpoint x ≡ put (N.endpoint w) d (listening q)
  pub accept_some :
      (w : N.State) (d c : ℕ) (x : N.State)
      → N.accept w d ≡ some (c, x)
      → (q : ℕ) × (N.endpoint w d ≡ listening q)
        × (N.endpoint w c ≡ unused)
        × (N.endpoint x ≡ put (N.endpoint w) c connection)
  pub connect_some :
      (w : N.State) (d : ℕ) (a : Text) (p : ℕ) (x : N.State)
      → N.connect w d a p ≡ some x
      → N.endpoint x ≡ put (N.endpoint w) d connection
  pub close_some :
      (w : N.State) (d : ℕ) (x : N.State)
      → N.close w d ≡ some x
      → N.endpoint x ≡ put (N.endpoint w) d unused
