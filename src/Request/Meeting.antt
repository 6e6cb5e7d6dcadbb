-- ===== src/Request/Meeting.antt =====
-- A client that connects, and another that asks where it is, from bytes to bytes.
use peer_to_peer_fileshare.Base.{
  ℕ, ◌≡◌, refl, sym, ◌∙◌, ap, subst, ◌⊎◌, inl, inr, Bool-cases, Option-cases, ==_refl, false,
  Option, none, some, List, [], ◌∷◌, ◌++◌, ◌==◌, ==_iff, list_eq, nat_eq,
}
use mathlib.Core.Option.{some-injective}
use peer_to_peer_fileshare.Base.Int.{ℤ}
use peer_to_peer_fileshare.CString.{Text, codes}
use peer_to_peer_fileshare.Posix.{FileSystem, IsLawful, IsReliable}
use peer_to_peer_fileshare.ConnectFile.{print_int}
use peer_to_peer_fileshare.Comm.{ReadResult}
use peer_to_peer_fileshare.Registry.{Account, Registry, connect_spec, set}
use peer_to_peer_fileshare.Registry.Cases.{connect_again, connect_first}
use peer_to_peer_fileshare.Handle.Places.{IsUser}
use peer_to_peer_fileshare.Handle.Access.{users}
use peer_to_peer_fileshare.Handle.Account.{handle_connect}
use peer_to_peer_fileshare.Handle.Refines.Connect.{contact, connect_refines}
use peer_to_peer_fileshare.Handle.GetFile.{IsOnline, get_file-online}
use peer_to_peer_fileshare.Request.{
  c_time_string, username, owner, port_str, rpc_string, Stale, no_user, atoi, tratar_peticion,
}
use peer_to_peer_fileshare.Request.Serve.{left, serve, lines, calm, code_line, Carried}
use peer_to_peer_fileshare.Request.Orders.{connects, serve-order}
use peer_to_peer_fileshare.Request.Others.{file_lines_sent, serve-get_file}
use peer_to_peer_fileshare.Request.Peer.{
  Peers, inet_addrstrlen, get_client_address, get_client_address-IsWord,
}

-- After a code 0 of `connect_spec` the user is connected, who was connected before still is, and the user
-- was not.
module _ (o contact : Text) (g h : Registry) where
  connected_now :
      (a : Account)
      → g o ≡ some a
      → a.online ≡ none
      → h ≡ set o (some (record a { online = some contact })) g
      → IsOnline h o contact × ((u x : Text) → IsOnline g u x → IsOnline h u x)
  connected_now a k off e = (
    (record a { online = some contact }, ap (λ (r : Registry). r o) e ∙ rw (==_refl o) refl, refl),
    λ u x on. elim (Bool-cases (u == o)) [
      | inl same ↦
          let b = on.0 in
          let f : some a ≡ some b = sym k ∙ ap g (sym ((==_iff u o).0 same)) ∙ on.1 in
          absurd (cc (ap (λ (c : Account). c.online) (some-injective _ _ f), off, on.2))
      | inr differ ↦ (on.0, ap (λ (r : Registry). r u) e ∙ rw differ (on.1), on.2)
    ],
  )

  connect_spec-unknown : g o ≡ none → connect_spec o contact g ≡ (1, g)
  connect_spec-unknown n = rw (n, connect_spec) refl

  connect_spec-zero :
      (0, h) ≡ connect_spec o contact g
      → IsOnline h o contact × ((u x : Text) → IsOnline g u x → IsOnline h u x)
  connect_spec-zero e = elim (Option-cases (g o)) [
    | inl n ↦ absurd (cc (e, connect_spec-unknown n))
    | inr (a, k) ↦ elim (Option-cases a.online) [
      | inl off ↦ connected_now a k off (ap (λ r. r.1) (e ∙ connect_first g o k contact off))
      | inr (x, on) ↦ absurd (cc (e, connect_again g o k contact x on))
    ]
  ]

module _ {F : FileSystem} (L : IsLawful F) (s : F.State) where
  connect-IsOnline :
      {o : Text} (address : Text) (port : ℤ)
      → IsUser o
      → (handle_connect F o port address s).0 ≡ 0
      → IsOnline (users F (handle_connect F o port address s).1) o (contact address port)
        × ((u x : Text)
            → IsOnline (users F s) u x
            → IsOnline (users F (handle_connect F o port address s).1) u x)
  connect-IsOnline {o} address port h zero_code = elim (connect_refines L s h address port) [
    | inl (three, _) ↦ cc (zero_code, three)
    | inr e ↦
        connect_spec-zero o (contact address port) (users F s) _
          (ap (λ n. (n, users F (handle_connect F o port address s).1)) (sym zero_code) ∙ e)
  ]

module _ (F : FileSystem) (fuel : F.State → ℕ) (old : Stale) (sent : Text) (rest : List ReadResult)
    (logged : List Text) where
  -- The bytes of a CONNECT bring the files from `s` to `t` and are answered with 0, and the log is told.
  abbrev pub Connects : Option Text → Text → Text → Text → Text → F.State → F.State → Type 0
  Connects peer address time o port s t =
      serve (tratar_peticion F old fuel)
        (record (calm address s (lines (codes "CONNECT" ∷ time ∷ o ∷ port ∷ []) rest) sent logged) {
          peer = peer;
        })
      ≡ (
        left,
        record (calm address t rest (sent ++ code_line 0)
            (logged ++ rpc_string o (codes "CONNECT") time ∷ [])) { peer = peer },
      )

  -- The bytes of a GET_FILE are answered with 0, an address and a port, and no file changes.
  abbrev pub Finds : Text → Text → Text → F.State → Text → ℤ → Type 0
  Finds address u o t place port =
      serve (tratar_peticion F old fuel)
        (calm address t (lines (codes "GET_FILE" ∷ u ∷ o ∷ []) rest) sent logged)
      ≡ (
        left,
        calm address t rest (sent ++ code_line 0 ++ (place ++ 0 ∷ []) ++ (print_int port ++ 0 ∷ []))
            logged,
      )

module _ {F : FileSystem} (L : IsLawful F) (R : IsReliable F) (P : Peers) (fuel : F.State → ℕ)
    (old old' : Stale) (sc : ℕ) (address : Text) (s : F.State)
    (known : get_client_address P sc inet_addrstrlen ≡ some address) where
  -- A user connects, from a socket whose other end has an address, and is told 0; then any user that was
  -- connected before, or the same one, asks where it is, and is sent the code 0, that address and
  -- the port that was given. Calls on the files fail for no reason but the tree, the names are ones
  -- that the buffers hold and are not "__NO_USER__", the lines fit the buffers, and for both
  -- requests file_mutex is free, the log is up and the socket takes what is written.
  pub serve-connect-get_file :
      {u o x : Text} (port time address' sent sent' : Text) (rest rest' : List ReadResult)
      (logged logged' : List Text)
      → IsUser u
      → IsUser o
      → (u == no_user) ≡ false
      → (o == no_user) ≡ false
      → Carried c_time_string time
      → Carried port_str port
      → Carried username o
      → Carried username u
      → Carried owner o
      → (handle_connect F o (atoi port) address s).0 ≡ 0
      → IsOnline (users F s) u x ⊎ (u ≡ o)
      → let after = (handle_connect F o (atoi port) address s).1 in
        Connects F fuel old sent rest logged
          (get_client_address P sc inet_addrstrlen)
          address
          time
          o
          port
          s
          after
        × Finds F fuel old' sent' rest' logged' address' u o after address (atoi port)
  serve-connect-get_file {u} {o} {x} port time address' sent sent' rest rest' logged logged' hu ho
        nu someone ct cp co cu cow zero_code on =
      (
        ap
              (λ p.
                serve (tratar_peticion F old fuel)
                  (record (calm address s (lines (codes "CONNECT" ∷ time ∷ o ∷ port ∷ []) rest) sent
                    logged) { peer = p }))
              known
            ∙ serve-order F old fuel address time sent s rest logged (connects o port) ct (co, cp)
                someone
            ∙ ap (λ n. (left, calm address after rest (sent ++ code_line n) told)) zero_code
            ∙ ap
                (λ p.
                  (left, record (calm address after rest (sent ++ code_line 0) told) { peer = p }))
                (sym known),
        serve-get_file F old' fuel address' sent' after rest' logged' u o cu cow nu
            ∙ ap (λ r. (left, calm address' after rest' (file_lines_sent sent' r) logged'))
                (get_file-online L after R address (atoi port) hu ho
                  (get_client_address-IsWord P sc inet_addrstrlen address known) (asker on).1
                  now.0),
      )
    where
      after : F.State
      after = (handle_connect F o (atoi port) address s).1

      told : List Text
      told = logged ++ rpc_string o (codes "CONNECT") time ∷ []

      now :
          IsOnline (users F after) o (contact address (atoi port))
          × ((v y : Text) → IsOnline (users F s) v y → IsOnline (users F after) v y)
      now = connect-IsOnline L s address (atoi port) ho zero_code

      asker : IsOnline (users F s) u x ⊎ (u ≡ o) → (y : Text) × IsOnline (users F after) u y
      asker (inl before) = (x, now.1 u x before)
      asker (inr same) = (
        _,
        subst (λ v. IsOnline (users F after) v (contact address (atoi port))) (sym same) now.0,
      )
