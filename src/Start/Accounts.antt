-- ===== src/Start/Accounts.antt =====
-- The accounts over the starts of the server.
use peer_to_peer_fileshare.Base.{
  ℕ, ◌≡◌, refl, ap, ◌∙◌, inl, inr, Bool, true, false, some, Option-cases, List, list_eq, nat_eq,
  arith,
}
use peer_to_peer_fileshare.Base.Int.{ℤ, pos, negsuc}
use peer_to_peer_fileshare.CString.{Text}
use peer_to_peer_fileshare.Posix.{dir, update, FileSystem, IsLawful, IsRelative}
use peer_to_peer_fileshare.Registry.View.{view, view-update_outside}
use peer_to_peer_fileshare.Registry.Deed.{Deed}
use peer_to_peer_fileshare.Request.History.{History}
use peer_to_peer_fileshare.Handle.Paths.{data_directory}
use peer_to_peer_fileshare.Handle.Places.{base, resolve-data_directory}
use peer_to_peer_fileshare.Handle.Access.{users}
use peer_to_peer_fileshare.Request.{Stale, atoi}
use peer_to_peer_fileshare.Request.Threads.{Threads, Run, opened}
use peer_to_peer_fileshare.Request.Evolution.{named}
use peer_to_peer_fileshare.Comm.Network.{Network}
use peer_to_peer_fileshare.Comm.Sockets.{server_socket}
use peer_to_peer_fileshare.Start.Outcomes.{start_rule}
use peer_to_peer_fileshare.Start.Defs.{
  Errno, serves, make_directory, after_directory, after_socket, start,
}

module _ {F : FileSystem} (L : IsLawful F) (E : Errno F) where
  made-users : (s t : F.State) → F.mkdir s data_directory ≡ some t → users F t ≡ users F s
  made-users s t e =
      ap (λ f. view f (base F)) ((L.mkdir_some s data_directory t e).1)
      ∙ ap (λ p. view (update (F.node s) p dir) (base F)) (resolve-data_directory L)
      ∙ view-update_outside (F.node s) (base F) (base F) dir (omega arith)

  make_directory-users : (s : F.State) → users F (make_directory F E s).1 ≡ users F s
  unfolding make_directory
  make_directory-users s = elim (Option-cases (F.mkdir s data_directory)) [
    | inl e ↦ rw e refl
    | inr (t, e) ↦ rw e (made-users s t e)
  ]

  module _ (N : Network) where
    after_directory-users :
        (d : ℕ) (w : N.State) (r : Bool × F.State)
        → users F (after_directory F N E d w r).1 ≡ users F r.1
    after_directory-users d w (true, t) = refl
    after_directory-users d w (false, t) = refl

    after_socket-users :
        (s : F.State) (r : ℤ × N.State) → users F (after_socket F N E s r).1 ≡ users F s
    after_socket-users s (negsuc n, w) = refl
    after_socket-users s (pos d, w) =
        after_directory-users d w (make_directory F E s) ∙ make_directory-users s

    -- No start of the server changes an account, whatever becomes of it.
    pub start-users :
        (argv : List Text) (set : Bool) (s : F.State) (w : N.State)
        → users F (start F N E argv set s w).1 ≡ users F s
    start-users argv set s w =
        start_rule E N (λ r. users F r.1 ≡ users F s) argv set s w (λ e. refl)
          (λ program port e f. after_socket-users s (server_socket N (atoi port) w))

  module _ (W : IsRelative F) (fuel : F.State → ℕ) (old : ℕ → Stale) (N : Network) where
    -- The files that starts of the server and runs of its threads lead to. A run can stop between any two
    -- calls of its threads; `start` can fail or be refused.
    pub data Lives (s : F.State) : F.State → Type 0 where
      untouched : Lives s s
      stopped :
          {t : F.State} (argv : List Text) (set : Bool) (w : N.State)
          → Lives s t
          → Lives s (start F N E argv set t w).1
      served :
          {t u : F.State} {x : N.State} {sd : ℕ} {v : Threads F.State} (argv : List Text)
          (set : Bool) (w : N.State)
          → Lives s t
          → start F N E argv set t w ≡ (serves sd, u, x)
          → Run (named L W fuel old) old (opened F old fuel u) v
          → Lives s v.files
