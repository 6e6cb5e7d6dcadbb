-- ===== src/Comm/Sockets.antt =====
-- comm.c: `serverSocket`, `serverAccept`, `clientSocket` and `closeSocket`. A result of -1 is `failure`.
use peer_to_peer_fileshare.Base.{ℕ, ◌-◌, ◌%◌, Option, none, some}
use peer_to_peer_fileshare.Base.Int.{ℤ, pos, negsuc}
use peer_to_peer_fileshare.CString.{Text}
use peer_to_peer_fileshare.Comm.Network.{Network}

abbrev pub failure : ℤ
failure = negsuc 0

-- `htons(port)`: the conversion of the `int` to the 16 bits of a port.
unfoldable pub port_of : ℤ → ℕ
port_of (pos n) = n % 65536
port_of (negsuc n) = 65535 - n % 65536

module _ (N : Network) where
  open N use {State, socket, setsockopt, bind, listen, accept, gethostbyname, connect, close}

  abbrev pub after_listen : ℕ → State → Option State → ℤ × State
  after_listen sd w none = (failure, w)
  after_listen sd w (some x) = (pos sd, x)

  abbrev pub after_bind : ℕ → State → Option State → ℤ × State
  after_bind sd w none = (failure, w)
  after_bind sd w (some x) = after_listen sd x (listen x sd)

  -- Where `socket` fails the result is 0.
  abbrev pub after_socket : ℤ → State → Option (ℕ × State) → ℤ × State
  after_socket port w none = (pos 0, w)
  after_socket port w (some (sd, x)) =
      after_bind sd (setsockopt x sd) (bind (setsockopt x sd) sd (port_of port))

  -- The address is INADDR_ANY, whatever is given.
  unfoldable pub server_socket : ℤ → State → ℤ × State
  unfolding port_of
  server_socket port w = after_socket port w (socket w)

  abbrev pub after_accept : State → Option (ℕ × State) → ℤ × State
  after_accept w none = (failure, w)
  after_accept w (some (sc, x)) = (pos sc, x)

  unfoldable pub server_accept : ℕ → State → ℤ × State
  server_accept sd w = after_accept w (accept w sd)

  abbrev pub after_connect : ℕ → State → Option State → ℤ × State
  after_connect sd w none = (failure, w)
  after_connect sd w (some x) = (pos sd, x)

  abbrev pub after_host : ℕ → ℤ → State → Option Text → ℤ × State
  after_host sd port w none = (failure, w)
  after_host sd port w (some address) = after_connect sd w (connect w sd address (port_of port))

  abbrev pub after_client_socket : Text → ℤ → State → Option (ℕ × State) → ℤ × State
  after_client_socket remote port w none = (failure, w)
  after_client_socket remote port w (some (sd, x)) = after_host sd port x (gethostbyname x remote)

  unfoldable pub client_socket : Text → ℤ → State → ℤ × State
  unfolding port_of
  client_socket remote port w = after_client_socket remote port w (socket w)

  abbrev pub after_close : State → Option State → ℤ × State
  after_close w none = (failure, w)
  after_close w (some x) = (pos 0, x)

  unfoldable pub close_socket : ℕ → State → ℤ × State
  close_socket sd w = after_close w (close w sd)
