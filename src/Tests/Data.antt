-- ===== src/Tests/Data.antt =====
-- A tree in memory when the server starts, and with users, contacts and a file that one has published.
use peer_to_peer_fileshare.Base.{◌≡◌, list_eq, nat_eq, ◌∷◌, [], refl, List, arith}
use peer_to_peer_fileshare.Base.Int.{pos}
use peer_to_peer_fileshare.CString.{Text, codes}
use peer_to_peer_fileshare.Posix.{Place, Node, dir, IsName}
use peer_to_peer_fileshare.Posix.Memory.{empty_tree, memory}
use peer_to_peer_fileshare.ConnectFile.RoundTrip.{IsWord}
use peer_to_peer_fileshare.Handle.Places.{IsUser, base}
use peer_to_peer_fileshare.Handle.Account.{handle_register, handle_connect, handle_publish}
use peer_to_peer_fileshare.Handle.Purge.{or_same}

abbrev pub ann : Text
ann = codes "ann"

abbrev pub bob : Text
bob = codes "bobby"

abbrev pub notes : Text
notes = codes "notes"

abbrev pub address : Text
address = codes "10.0.0.7"

-- The tree when the server starts.
unfoldable pub started : memory.State
unfolding memory empty_tree
started = or_same empty_tree (memory.mkdir empty_tree (codes "./database"))

unfoldable with_ann : memory.State
unfolding memory started handle_register
with_ann = (handle_register memory ann started).1

unfoldable pub with_both : memory.State
unfolding memory with_ann handle_register
with_both = (handle_register memory bob with_ann).1

unfoldable pub ann_online : memory.State
unfolding memory with_both handle_connect
ann_online = (handle_connect memory ann (pos 4000) address with_both).1

unfoldable pub both_online : memory.State
unfolding memory ann_online handle_connect
both_online = (handle_connect memory bob (pos 4001) address ann_online).1

unfoldable pub with_notes : memory.State
unfolding memory ann_online handle_publish
with_notes = (handle_publish memory ann notes (codes "my notes") ann_online).1

ann-IsName : IsName ann
ann-IsName = record {
  nonempty = λ e. cc;
  no_slash = refl;
  name_max = omega arith;
  no_dot = λ e. cc;
  no_dot_dot = λ e. cc;
}

bob-IsName : IsName bob
bob-IsName = record {
  nonempty = λ e. cc;
  no_slash = refl;
  name_max = omega arith;
  no_dot = λ e. cc;
  no_dot_dot = λ e. cc;
}

pub notes-IsName : IsName notes
notes-IsName = record {
  nonempty = λ e. cc;
  no_slash = refl;
  name_max = omega arith;
  no_dot = λ e. cc;
  no_dot_dot = λ e. cc;
}

pub ann-IsUser : IsUser ann
ann-IsUser = record { name = ann-IsName; short = omega arith }

pub bob-IsUser : IsUser bob
bob-IsUser = record { name = bob-IsName; short = omega arith }

pub address-IsWord : IsWord address
address-IsWord = record {
  nonempty = λ e. cc;
  no_space = (refl, (refl, (refl, (refl, (refl, (refl, (refl, (refl, tt))))))));
}

abbrev pub two_users : List (Place × Node)
two_users =
    (bob ∷ codes "database" ∷ [], dir)
    ∷ (ann ∷ codes "database" ∷ [], dir)
    ∷ (codes "database" ∷ [], dir)
    ∷ []

pub database_place : base memory ≡ codes "database" ∷ []
unfolding memory
database_place = refl
