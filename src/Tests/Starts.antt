-- ===== src/Tests/Starts.antt =====
-- The theorems on `main` before its loop at work.
use peer_to_peer_fileshare.Base.{
  ℕ, ◌≡◌, ◌≢◌, refl, true, false, some, List, [], ◌∷◌, list_eq, nat_eq,
}
use peer_to_peer_fileshare.CString.{Text, codes}
use peer_to_peer_fileshare.Posix.{absent}
use peer_to_peer_fileshare.Posix.Memory.{empty_tree, memory}
use peer_to_peer_fileshare.Request.History.{History}
use peer_to_peer_fileshare.Comm.Network.{fresh, bound, listening, other, put}
use peer_to_peer_fileshare.Comm.Sockets.{server_accept}
use peer_to_peer_fileshare.Start.{start, serves, make_directory}
use peer_to_peer_fileshare.Accept.{initial, run, main_moves}
use peer_to_peer_fileshare.Start.Deaf.{server_deaf}
use peer_to_peer_fileshare.Handle.Places.{base}
use peer_to_peer_fileshare.Handle.Tidy.Stable.{Tidy}
use peer_to_peer_fileshare.Tests.Data.{started}
use peer_to_peer_fileshare.Tests.Sockets.{
  table, table-IsLawfulNetwork, at_boot, exhausted, errno, Table,
}

abbrev pub argv : List Text
argv = codes "./server" ∷ codes "-p" ∷ codes "4200" ∷ []

abbrev pub listening_table : Table
listening_table = record {
  ends = put (put (put at_boot.ends 3 fresh) 3 (bound 4200)) 3 (listening 4200);
  next = 6;
}

-- A disk with nothing on it.
unfoldable pub blank : memory.State
unfolding memory
blank = empty_tree

pub boots : start memory table errno argv true blank at_boot ≡ (serves 3, started, listening_table)
unfolding start started memory blank
boots = refl

reboots : start memory table errno argv true started at_boot ≡ (serves 3, started, listening_table)
unfolding start started memory
reboots = refl

other-ne-listening : (q : ℕ) → other ≢ listening q
other-ne-listening q e = cc

-- No descriptor is left, and `main` has called `serverAccept` twice.
accepts_twice : run (main_moves 0 false true ∷ main_moves 0 true true ∷ []) initial ≡ some initial
unfolding run
accepts_twice = refl

directory_made : (make_directory memory errno blank).0 ≡ true
unfolding make_directory memory blank empty_tree
directory_made = refl

server_deaf_example :
    (start memory table errno argv true blank exhausted
      ≡ (serves 0, (make_directory memory errno blank).1, exhausted))
    × (initial ≡ initial)
unfolding server_accept
server_deaf_example =
    server_deaf errno table-IsLawfulNetwork (codes "./server") (codes "4200") blank exhausted refl
      directory_made other-ne-listening (main_moves 0 false true ∷ main_moves 0 true true ∷ [])
      initial (refl, (refl, tt)) accepts_twice

pub empty_disk : memory.node blank (base memory) ≡ absent
unfolding memory blank empty_tree
empty_disk = refl
