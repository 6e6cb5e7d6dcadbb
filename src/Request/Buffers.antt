-- ===== src/Request/Buffers.antt =====
-- The buffers that servidor.c fills with `sprintf`, which does not look at their sizes.
use peer_to_peer_fileshare.Base.{◌+◌, ◌*◌, ◌<◌, ◌++◌, ◌∷◌, length, length-append, arith}
use peer_to_peer_fileshare.CString.{Text, codes, space, buffer_size, max_filepath_length}
use peer_to_peer_fileshare.Request.{
  operation, c_time_string, username, owner, size_of, rpc_string, users_list_name,
  content_list_name,
}

-- For lines that `readLine` has left in the buffers, `rpc_string`, `user_list_name`, `users_connected_path`
-- and `user_content_name` have room for what `sprintf` puts there and for its NUL.
pub buffers_suffice :
    (op time u o : Text)
    → length op < size_of operation
    → length time < size_of c_time_string
    → length u < size_of username
    → length o < size_of owner
    → (length (rpc_string u op time) < 2 * buffer_size + 103)
      × (length (users_list_name u) < max_filepath_length * 2)
      × (length (content_list_name u o) < max_filepath_length * 3)
buffers_suffice op time u o a b c d = (
  omega (
    arith,
    a,
    b,
    c,
    length-append u (space ∷ (op ++ (space ∷ time))),
    length-append op (space ∷ time),
  ),
  omega (arith, c, length-append u (codes "_users_connected.txt")),
  omega (
    arith,
    c,
    d,
    length-append u (o ++ codes "_content.txt"),
    length-append o (codes "_content.txt"),
  ),
)
