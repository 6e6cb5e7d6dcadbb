-- ===== src/Tests/Queries.antt =====
-- The theorems on `handle_get_file`, on long names and on the text of a `connect` file at work.
use peer_to_peer_fileshare.Base.{
  ◌≡◌, zero, suc, list_eq, nat_eq, ◌∷◌, [], ℕ, refl, some, arith, if◌then◌else◌,
}
use peer_to_peer_fileshare.Base.Int.{pos, negsuc}
use peer_to_peer_fileshare.CString.{Text, codes}
use peer_to_peer_fileshare.Posix.Memory.{memory, memory-IsLawful, memory-IsReliable}
use peer_to_peer_fileshare.ConnectFile.{scan_connection}
use peer_to_peer_fileshare.Handle.Contact.{write_connection-scan}
use peer_to_peer_fileshare.Handle.Refines.Connect.{contact}
use peer_to_peer_fileshare.Handle.Account.{write_connection}
use peer_to_peer_fileshare.Handle.Purge.{or_same}
use peer_to_peer_fileshare.Posix.{file}
use peer_to_peer_fileshare.Registry.View.{view}
use peer_to_peer_fileshare.Handle.Paths.{user_path, connect_path, files_path}
use peer_to_peer_fileshare.Handle.Access.{users}
use peer_to_peer_fileshare.Handle.Account.{handle_register, handle_connect}
use peer_to_peer_fileshare.Handle.Listing.{handle_get_file}
use peer_to_peer_fileshare.Handle.Refines.Connect.{contact}
use peer_to_peer_fileshare.Handle.GetFile.{IsOnline, get_file-online}
use peer_to_peer_fileshare.Handle.Names.{connect_long}
use peer_to_peer_fileshare.Tests.Data.{
  ann, bob, address, started, both_online, ann-IsUser, bob-IsUser, address-IsWord,
}

ann-IsOnline : IsOnline (users memory both_online) ann (contact address (pos 4000))
unfolding memory both_online view user_path connect_path files_path
ann-IsOnline = (_, refl, refl)

bob-IsOnline : IsOnline (users memory both_online) bob (contact address (pos 4001))
unfolding memory both_online view user_path connect_path files_path
bob-IsOnline = (_, refl, refl)

get_file-online_example : handle_get_file memory ann bob both_online ≡ (0, some (address, pos 4001))
get_file-online_example =
    get_file-online memory-IsLawful both_online memory-IsReliable address (pos 4001) ann-IsUser
      bob-IsUser address-IsWord ann-IsOnline bob-IsOnline

-- A name of 244 bytes.
abbrev repeat : ℕ → ℕ → Text
repeat c zero = []
repeat c (suc n) = c ∷ repeat c n

abbrev long_name : Text
long_name = repeat b'x' 244

connect_long_example :
    handle_connect memory long_name (pos 4000) address (handle_register memory long_name started).1
    ≡ (
      if memory.access (handle_register memory long_name started).1 (user_path long_name)
          then 2
          else 1,
      (handle_register memory long_name started).1,
    )
connect_long_example =
    connect_long memory long_name (pos 4000) address (handle_register memory long_name started).1
      (omega arith)

-- An empty file for a contact.
unfoldable new_file : memory.State
unfolding memory started handle_register user_path connect_path
new_file = or_same started (memory.fopen_write started (codes "contact"))

abbrev contact_kept : memory.State
contact_kept = (write_connection memory address (negsuc 41) (some (codes "contact")) new_file).1

file_empty : memory.node new_file (memory.resolve (codes "contact")) ≡ file []
unfolding memory new_file started
file_empty = refl

write_succeeds :
    write_connection memory address (negsuc 41) (some (codes "contact")) new_file
    ≡ (0, contact_kept)
unfolding memory new_file started write_connection
write_succeeds = refl

contact_is_read :
    memory.fopen_read contact_kept (codes "contact") ≡ some (contact address (negsuc 41))
unfolding memory new_file started write_connection
contact_is_read = refl

write_connection-scan_example :
    scan_connection (contact address (negsuc 41)) ≡ some (address, negsuc 41)
write_connection-scan_example =
    write_connection-scan memory-IsLawful new_file contact_kept (codes "contact") address
      (negsuc 41) file_empty (contact address (negsuc 41)) address-IsWord write_succeeds
      contact_is_read
