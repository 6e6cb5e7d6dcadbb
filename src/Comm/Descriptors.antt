-- ===== src/Comm/Descriptors.antt =====
-- What becomes of the descriptors that comm.c opens.
use peer_to_peer_fileshare.Base.{
  ℕ, ◌≤◌, ◌≡◌, refl, ap, ◌∙◌, inl, inr, Option, none, some, ◌==◌, nat_eq, ==_refl, fun_ext,
  Bool-cases,
}
use peer_to_peer_fileshare.Base.Int.{ℤ, pos}
use peer_to_peer_fileshare.CString.{Text}
use peer_to_peer_fileshare.Comm.Network.{
  Endpoint, unused, fresh, bound, listening, connection, put, Network, IsLawfulNetwork,
}
use peer_to_peer_fileshare.Comm.Sockets.{
  failure, port_of, after_listen, after_bind, after_socket, server_socket, after_connect,
  after_host, after_client_socket, client_socket,
}

put_twice : (f : ℕ → Endpoint) (d : ℕ) (u v : Endpoint) → put (put f d u) d v ≡ put f d v
put_twice f d u v =
    fun_ext
      λ e. elim (Bool-cases (e == d)) [ inl same ↦ rw same refl | inr differ ↦ rw differ refl ]

put_self : (f : ℕ → Endpoint) (d : ℕ) (v : Endpoint) → put f d v d ≡ v
put_self f d v = rw (==_refl d) refl

module _ {N : Network} (L : IsLawfulNetwork N) (w : N.State) where
  -- A descriptor that was unused is put to the use given, and nothing else has changed.
  abbrev pub Opened : ℕ → Endpoint → N.State → Type 0
  Opened d v x = (N.endpoint w d ≡ unused) × (N.endpoint x ≡ put (N.endpoint w) d v)

  -- How `serverSocket` can end: `socket` failed, with the result 0; `bind` or `listen` failed, with -1
  -- and an open descriptor left over; or the descriptor listens at the port, at one of the system's choice if it is 0.
  pub data Served (port : ℤ) : ℤ × N.State → Type 0 where
    no_socket : N.socket w ≡ none → Served port (pos 0, w)
    not_bound : (d : ℕ) (x : N.State) → Opened d fresh x → Served port (failure, x)
    not_heard : (d q : ℕ) (x : N.State) → Opened d (bound q) x → Served port (failure, x)
    listens :
        (d q : ℕ) (x : N.State)
        → (1 ≤ port_of port → q ≡ port_of port)
        → Opened d (listening q) x
        → Served port (pos d, x)

  module _ (port : ℤ) (d : ℕ) (free : N.endpoint w d ≡ unused) where
    after_listen-Served :
        (q : ℕ) (x : N.State)
        → (1 ≤ port_of port → q ≡ port_of port)
        → N.endpoint x ≡ put (N.endpoint w) d (bound q)
        → (o : Option N.State) → N.listen x d ≡ o
        → Served port (after_listen N d x o)
    after_listen-Served q x h e none f = not_heard d q x (free, e)
    after_listen-Served q x h e (some y) f = listens d q y h (
      free,
      L.listen_some x d q y (ap (λ (g : ℕ → Endpoint). g d) e ∙ put_self (N.endpoint w) d (bound q))
            f
          ∙ ap (λ (g : ℕ → Endpoint). put g d (listening q)) e
          ∙ put_twice (N.endpoint w) d (bound q) (listening q),
    )

    after_bind-Served :
        (x : N.State)
        → N.endpoint x ≡ put (N.endpoint w) d fresh
        → (o : Option N.State) → N.bind x d (port_of port) ≡ o
        → Served port (after_bind N d x o)
    after_bind-Served x e none f = not_bound d x (free, e)
    after_bind-Served x e (some y) f =
        let (q, h, g) = L.bind_some x d (port_of port) y f in
        after_listen-Served q y h
          (g
            ∙ ap (λ (g : ℕ → Endpoint). put g d (bound q)) e
            ∙ put_twice (N.endpoint w) d fresh (bound q))
          (N.listen y d) refl

  after_socket-Served :
      (port : ℤ) (o : Option (ℕ × N.State)) → N.socket w ≡ o → Served port (after_socket N port w o)
  after_socket-Served port none e = no_socket e
  after_socket-Served port (some (d, x)) e =
      let (free, f) = L.socket_some w d x e in
      after_bind-Served port d free (N.setsockopt x d) (L.setsockopt_lem x d ∙ f) _ refl

  -- `serverSocket` fails in `socket`, with the result 0; or in `bind` or `listen`, with -1 and one more
  -- descriptor open; or it returns a new descriptor that listens at the port, as `htons` cuts it to 16
  -- bits, or, if that is 0, at a port of the system's choice. No other descriptor changes.
  pub server_socket-Served : (port : ℤ) → Served port (server_socket N port w)
  unfolding server_socket
  server_socket-Served port = after_socket-Served port (N.socket w) refl

  -- How `clientSocket` can end: it is connected, or the result is -1, with the new descriptor left over
  -- unless `socket` failed.
  pub data Reached (remote : Text) (port : ℤ) : ℤ × N.State → Type 0 where
    no_descriptor : N.socket w ≡ none → Reached remote port (failure, w)
    stranded : (d : ℕ) (x : N.State) → Opened d fresh x → Reached remote port (failure, x)
    reaches :
        (d : ℕ) (a : Text) (v x : N.State)
        → N.gethostbyname v remote ≡ some a
        → N.connect v d a (port_of port) ≡ some x
        → Opened d connection x
        → Reached remote port (pos d, x)

  module _ (remote : Text) (port : ℤ) (d : ℕ) (x : N.State) (free : N.endpoint w d ≡ unused)
      (made : N.endpoint x ≡ put (N.endpoint w) d fresh) where
    after_connect-Reached :
        (a : Text)
        → N.gethostbyname x remote ≡ some a
        → (o : Option N.State) → N.connect x d a (port_of port) ≡ o
        → Reached remote port (after_connect N d x o)
    after_connect-Reached a h none e = stranded d x (free, made)
    after_connect-Reached a h (some y) e = reaches d a x y h e (
      free,
      L.connect_some x d a (port_of port) y e
          ∙ ap (λ (g : ℕ → Endpoint). put g d connection) made
          ∙ put_twice (N.endpoint w) d fresh connection,
    )

    after_host-Reached :
        (o : Option Text)
        → N.gethostbyname x remote ≡ o
        → Reached remote port (after_host N d port x o)
    after_host-Reached none e = stranded d x (free, made)
    after_host-Reached (some a) e = after_connect-Reached a e _ refl

  after_client_socket-Reached :
      (remote : Text) (port : ℤ) (o : Option (ℕ × N.State))
      → N.socket w ≡ o
      → Reached remote port (after_client_socket N remote port w o)
  after_client_socket-Reached remote port none e = no_descriptor e
  after_client_socket-Reached remote port (some (d, x)) e =
      let (free, f) = L.socket_some w d x e in after_host-Reached remote port d x free f _ refl

  -- `clientSocket` returns a new descriptor that is connected to the host's address and to the port, as
  -- `htons` cuts it; or it returns -1, with the new descriptor still open unless `socket` failed. No
  -- other descriptor changes.
  pub client_socket-Reached :
      (remote : Text) (port : ℤ) → Reached remote port (client_socket N remote port w)
  unfolding client_socket
  client_socket-Reached remote port = after_client_socket-Reached remote port (N.socket w) refl
