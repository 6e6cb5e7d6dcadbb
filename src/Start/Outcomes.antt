-- ===== src/Start/Outcomes.antt =====
-- How `main` can come to an end before its loop, and what stands when it comes to its loop.
use peer_to_peer_fileshare.Base.{
  ℕ, ◌≤◌, ◌≡◌, refl, ap, ◌⊎◌, inl, inr, Bool, true, false, Bool-cases, ==_iff, ◌≢◌, none, some,
  List, [], ◌∷◌, ◌==◌, list_eq, nat_eq,
}
use peer_to_peer_fileshare.Base.Int.{ℤ, pos}
use peer_to_peer_fileshare.CString.{Text, codes}
use peer_to_peer_fileshare.Posix.{dir, is_present, FileSystem}
use peer_to_peer_fileshare.Handle.Paths.{data_directory}
use peer_to_peer_fileshare.Handle.Places.{base}
use peer_to_peer_fileshare.Request.{atoi}
use peer_to_peer_fileshare.Comm.Network.{Network, unused, put, listening}
use peer_to_peer_fileshare.Comm.Sockets.{failure, port_of, server_socket}
use peer_to_peer_fileshare.Start.Defs.{
  Errno, Outcome, stops, serves, after_socket, open_server, start,
}

module _ {F : FileSystem} (E : Errno F) (N : Network) where
  -- The arguments are not `-p` and a port, or `signal` failed.
  abbrev pub Refuses : List Text → Bool → Type 0
  Refuses argv set =
      (set ≡ false) ⊎ ((program port : Text) → argv ≢ program ∷ codes "-p" ∷ port ∷ [])

  -- To show something of each end of `main` before its loop, and of its coming to the loop.
  pub start_rule :
      (P : Outcome × F.State × N.State → Type 0) (argv : List Text) (set : Bool) (s : F.State)
      (w : N.State)
      → (Refuses argv set → P (stops (pos 1), s, w))
      → ((program port : Text)
          → set ≡ true
          → argv ≡ program ∷ codes "-p" ∷ port ∷ []
          → P (after_socket F N E s (server_socket N (atoi port) w)))
      → P (start F N E argv set s w)
  unfolding start
  start_rule P [] set s w h k = h (inr (λ a c e. cc))
  start_rule P (a ∷ []) set s w h k = h (inr (λ a' c' e. cc))
  start_rule P (a ∷ b ∷ []) set s w h k = h (inr (λ a' c' e. cc))
  start_rule P (a ∷ b ∷ c ∷ []) set s w h k = elim (Bool-cases (b == codes "-p")) [
    | inl e ↦ rw e (opens e set refl h)
    | inr e ↦ rw e (h (inr λ a' c' f. cc (e, (==_iff b (codes "-p")).1 (second f))))
  ]
    where
      second :
          {a' c' : Text}
          → ◌≡◌ {A = List Text} (a ∷ b ∷ c ∷ []) (a' ∷ codes "-p" ∷ c' ∷ [])
          → b ≡ codes "-p"
      second f = cc

      opens :
          (b == codes "-p") ≡ true
          → (v : Bool) → set ≡ v
          → (Refuses (a ∷ b ∷ c ∷ []) set → P (stops (pos 1), s, w))
          → P (open_server F N E v c s w)
      opens e true f h = k a c f (ap (λ x. a ∷ x ∷ c ∷ []) ((==_iff b (codes "-p")).0 e))
      opens e false f h = h (inl f)
  start_rule P (a ∷ b ∷ c ∷ d ∷ r) set s w h k = h (inr (λ a' c' e. cc))

  -- What the call of `serverSocket` did before the loop: a descriptor listens at the port, or `socket` failed
  -- and the descriptor is 0.
  abbrev pub Listens : N.State → ℤ → ℕ → N.State → Type 0
  Listens w port d x =
      ((N.socket w ≡ none) × (d ≡ 0) × (x ≡ w))
      ⊎ ((q : ℕ) × (1 ≤ port_of port → q ≡ port_of port)
          × (N.endpoint w d ≡ unused)
          × (N.endpoint x ≡ put (N.endpoint w) d (listening q)))

  -- The arguments are `-p` and the port, and `signal` did not fail.
  abbrev pub IsCalled : List Text → Bool → Text → Type 0
  IsCalled argv set port =
      (program : Text) × (set ≡ true) × (argv ≡ program ∷ codes "-p" ∷ port ∷ [])

  -- Something had the name of the data directory and nothing was changed, or the directory was made.
  abbrev pub HasPlace : F.State → F.State → Type 0
  HasPlace s t =
      ((is_present (F.node s (base F)) ≡ true) × (t ≡ s))
      ⊎ ((F.mkdir s data_directory ≡ some t) × (F.node t (base F) ≡ dir))

  -- How `main` can come to an end before its loop, or to its loop.
  pub data Starts (argv : List Text) (set : Bool) (s : F.State) (w : N.State)
      : Outcome × F.State × N.State → Type 0 where
    refuses : Refuses argv set → Starts argv set s w (stops (pos 1), s, w)
    hears_nothing :
        (port : Text) (x : N.State)
        → IsCalled argv set port
        → server_socket N (atoi port) w ≡ (failure, x)
        → Starts argv set s w (stops (pos 0), s, x)
    has_no_place :
        (port : Text) (d : ℕ) (x : N.State)
        → IsCalled argv set port
        → Listens w (atoi port) d x
        → F.mkdir s data_directory ≡ none
        → is_present (F.node s (base F)) ≡ false
        → Starts argv set s w (stops failure, s, x)
    comes_to_loop :
        (port : Text) (d : ℕ) (t : F.State) (x : N.State)
        → IsCalled argv set port
        → Listens w (atoi port) d x
        → HasPlace s t
        → Starts argv set s w (serves d, t, x)
