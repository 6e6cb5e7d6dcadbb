-- ===== src/Start/Defs.antt =====
-- What `main` does before its loop.
use peer_to_peer_fileshare.Base.{
  ℕ, ◌≡◌, Bool, true, false, Option, none, some, List, [], ◌∷◌, ◌==◌, list_eq, nat_eq,
  if◌then◌else◌,
}
use peer_to_peer_fileshare.Base.Int.{ℤ, pos, negsuc}
use peer_to_peer_fileshare.CString.{Text, codes}
use peer_to_peer_fileshare.Posix.{is_present, FileSystem}
use peer_to_peer_fileshare.Handle.Paths.{data_directory}
use peer_to_peer_fileshare.Request.{atoi}
use peer_to_peer_fileshare.Comm.Network.{Network}
use peer_to_peer_fileshare.Comm.Sockets.{failure, server_socket}

-- Whether `errno` is EEXIST when a call of `mkdir` has failed, which it is where something has the name,
-- and only there.
pub record Errno (F : FileSystem) : Type 0 where
  pub is_eexist : F.State → Text → Bool
  pub is_eexist_lem :
      (s : F.State) (p : Text)
      → F.mkdir s p ≡ none
      → is_eexist s p ≡ true
      → is_present (F.node s (F.resolve p)) ≡ true
  pub is_eexist_there :
      (s : F.State) (p : Text)
      → F.mkdir s p ≡ none
      → is_present (F.node s (F.resolve p)) ≡ true
      → is_eexist s p ≡ true

-- `main` returns a status, or it comes to its loop with `sd`.
pub data Outcome : Type 0 where
  stops : ℤ → Outcome
  serves : ℕ → Outcome

module _ (F : FileSystem) (E : Errno F) where
  -- The data directory is made, or there already.
  abbrev pub after_mkdir : F.State → Option F.State → Bool × F.State
  after_mkdir s none = (E.is_eexist s data_directory, s)
  after_mkdir s (some t) = (true, t)

  unfoldable pub make_directory : F.State → Bool × F.State
  make_directory s = after_mkdir s (F.mkdir s data_directory)

module _ (F : FileSystem) (N : Network) (E : Errno F) where
  abbrev pub after_directory : ℕ → N.State → Bool × F.State → Outcome × F.State × N.State
  after_directory sd w (true, s) = (serves sd, s, w)
  after_directory sd w (false, s) = (stops failure, s, w)

  abbrev pub after_socket : F.State → ℤ × N.State → Outcome × F.State × N.State
  after_socket s (pos sd, w) = after_directory sd w (make_directory F E s)
  after_socket s (negsuc n, w) = (stops (pos 0), s, w)

  -- From the arguments' test on; `set` says that `signal` did not fail.
  abbrev pub open_server : Bool → Text → F.State → N.State → Outcome × F.State × N.State
  open_server true port s w = after_socket s (server_socket N (atoi port) w)
  open_server false port s w = (stops (pos 1), s, w)

  unfoldable pub start : List Text → Bool → F.State → N.State → Outcome × F.State × N.State
  unfolding make_directory server_socket atoi
  start (program ∷ option ∷ port ∷ []) set s w =
      if option == codes "-p" then open_server set port s w else (stops (pos 1), s, w)
  start _ set s w = (stops (pos 1), s, w)
