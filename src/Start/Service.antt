-- ===== src/Start/Service.antt =====
-- A server that is started and then serves clients.
use peer_to_peer_fileshare.Base.{◌≡◌, sym, ap, ◌∙◌, Bool, false, List, [], All, ℕ, list_eq, nat_eq}
use peer_to_peer_fileshare.CString.{Text}
use peer_to_peer_fileshare.Posix.{FileSystem, IsLawful, IsReliable}
use peer_to_peer_fileshare.Handle.Access.{users}
use peer_to_peer_fileshare.Handle.Reliable.Does.{Laid}
use peer_to_peer_fileshare.Request.Clients.{Client, IsServed, serve_clients, spec_clients, day_of}
use peer_to_peer_fileshare.Request.Session.{serve_clients_refines}
use peer_to_peer_fileshare.Comm.Network.{Network}
use peer_to_peer_fileshare.Start.Defs.{Errno, serves, start}
use peer_to_peer_fileshare.Start.Accounts.{start-users}
use peer_to_peer_fileshare.Start.Directory.{IsStartable, new-Laid, start-ready}

module _ {F : FileSystem} (L : IsLawful F) (E : Errno F) (N : Network) where
  -- A server that is started where nothing has the name of the directory of users, or where it is laid out
  -- as the server leaves it, and that comes to its loop, serves clients that come one after the
  -- other, for anything but a list, as a map of accounts would, which is what the disk held
  -- before: from bytes to bytes each is sent what its operation on the map says, its thread ends
  -- with file_mutex free, the log is told of each in order but for GET_FILE, and at the end the
  -- users' directories show the map and are laid out as before. Calls on the files fail for no
  -- reason but the tree, the names are ones that the buffers and the system hold, the lines fit
  -- the buffers, no user is "__NO_USER__", the log is up, the clients' addresses are known and
  -- the sockets take what is written.
  pub server_refines :
      IsReliable F
      → (argv : List Text) (set : Bool) (s : F.State) (w : N.State) (d : ℕ) (t : F.State)
        (x : N.State) (cs : List Client)
      → IsStartable L (Laid F) s
      → start F N E argv set s w ≡ (serves d, t, x)
      → All IsServed cs
      → (day_of F (serve_clients F cs t false []) ≡ spec_clients cs (users F s) [])
        × Laid F (serve_clients F cs t false []).files
  server_refines R argv set s w d t x cs h e ok =
      let (same, kept) =
        serve_clients_refines L R cs t []
          (start-ready L E N (Laid F) (new-Laid L) argv set s w h d t x e) ok in
      (same ∙ ap (λ g. spec_clients cs g []) known, kept)
    where
      known : users F t ≡ users F s
      known = ap (λ r. users F r.1) (sym e) ∙ start-users L E N argv set s w
