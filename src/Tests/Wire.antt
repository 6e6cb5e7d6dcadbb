-- ===== src/Tests/Wire.antt =====
-- The theorems on lines over sockets at work.
use peer_to_peer_fileshare.Base.{
  ◌≡◌, ◌<◌, list_eq, nat_eq, ◌∷◌, [], ◌++◌, map, refl, length, List, arith,
}
use peer_to_peer_fileshare.CString.{codes}
use peer_to_peer_fileshare.Comm.{
  wrote, write_failed, delivered, send_message, write_line, got, eof, interrupted, received,
  read_line,
}
use peer_to_peer_fileshare.Comm.Delivery.{IsFaithful, send_message-IsFaithful}
use peer_to_peer_fileshare.Comm.Lines.{
  read_line-write_line, uninterrupted, on_rest, read_line-uninterrupted, read_line-bound,
}
use peer_to_peer_fileshare.Comm.Receive.{
  Waiting, bytes, fails, whole, lost, reading, recv_message, pieces, recv_message-whole,
  recv_message-starves,
}

-- The socket takes the six bytes of a message in two calls.
in_two :
    write_line (wrote 2 ∷ wrote 4 ∷ wrote 9 ∷ []) (codes "hello")
    ≡ delivered (codes "hello" ++ 0 ∷ []) (wrote 9 ∷ [])
unfolding write_line send_message
in_two = refl

read_line-write_line_example :
    read_line 4 (map got (codes "hello" ++ 0 ∷ []) ++ eof ∷ []) ≡ received (codes "hel") (eof ∷ [])
read_line-write_line_example =
    read_line-write_line (wrote 2 ∷ wrote 4 ∷ wrote 9 ∷ []) (wrote 9 ∷ []) 4 (codes "hello")
      (codes "hello" ++ 0 ∷ []) (eof ∷ []) (omega arith) (refl, (refl, (refl, (refl, (refl, tt)))))
      in_two

read_line-uninterrupted_example :
    read_line 8 (uninterrupted (got b'a' ∷ interrupted ∷ got 0 ∷ eof ∷ []))
    ≡ on_rest uninterrupted (read_line 8 (got b'a' ∷ interrupted ∷ got 0 ∷ eof ∷ []))
read_line-uninterrupted_example =
    read_line-uninterrupted 8 (got b'a' ∷ interrupted ∷ got 0 ∷ eof ∷ [])

cut_line : read_line 2 (got b'a' ∷ got b'b' ∷ got 0 ∷ []) ≡ received (codes "a") []
unfolding read_line
cut_line = refl

read_line-bound_example : length (codes "a") < 2
read_line-bound_example =
    read_line-bound 2 (codes "a") (got b'a' ∷ got b'b' ∷ got 0 ∷ []) [] cut_line

send_message-IsFaithful_example :
    IsFaithful (codes "hello") (send_message (wrote 2 ∷ write_failed ∷ []) (codes "hello"))
send_message-IsFaithful_example =
    send_message-IsFaithful (wrote 2 ∷ write_failed ∷ []) (codes "hello")

recv_message-whole_example :
    (left : List Waiting) × (recv_message (pieces (codes "he" ∷ [] ∷ codes "llo" ∷ [])) 4
      ≡ whole (codes "hell") left)
recv_message-whole_example =
    recv_message-whole (codes "he" ∷ [] ∷ codes "llo" ∷ []) 4 (omega arith) (omega arith)

recv_message-starves_example :
    recv_message (pieces (codes "he" ∷ codes "llo" ∷ [] ∷ [] ∷ [])) 8 ≡ reading (codes "hello")
recv_message-starves_example =
    recv_message-starves (codes "he" ∷ codes "llo" ∷ [] ∷ [] ∷ []) 8 (omega arith)

-- A call of `read` that fails ends the loop with -1; what is past the message stays unread.
fails_midway : recv_message (bytes (codes "he") ∷ fails ∷ []) 4 ≡ lost []
unfolding recv_message
fails_midway = refl

leaves_rest :
    recv_message (bytes (codes "hello") ∷ []) 2 ≡ whole (codes "he") (bytes (codes "llo") ∷ [])
unfolding recv_message
leaves_rest = refl
