-- ===== src/Tests/Requests.antt =====
-- The theorems on whole requests at work.
use peer_to_peer_fileshare.Base.{
  ◌≡◌, refl, list_eq, nat_eq, [], ◌∷◌, ◌+◌, ◌*◌, ◌<◌, length, ◌++◌, take, All, arith,
}
use peer_to_peer_fileshare.CString.{Text, codes, newline, buffer_size, max_filepath_length}
use peer_to_peer_fileshare.Posix.Memory.{memory}
use peer_to_peer_fileshare.Comm.{eof}
use peer_to_peer_fileshare.Request.{
  rpc_string, users_list_name, content_list_name, Stale, tratar_peticion, file_lines,
}
use peer_to_peer_fileshare.Request.FileLines.{joined, FitsLine, file_lines-joined}
use peer_to_peer_fileshare.Request.Opening.{plain-IsLine}
use peer_to_peer_fileshare.Request.Serve.{left, serve, then_line, lines, calm, code_line}
use peer_to_peer_fileshare.Request.Buffers.{buffers_suffice}
use peer_to_peer_fileshare.Request.Refused.{op_names, Refuses, serve-unknown, serve-no_user}
use peer_to_peer_fileshare.Request.Others.{file_lines_sent, serve-get_file, serve-unregister}
use peer_to_peer_fileshare.Handle.Listing.{handle_get_file}
use peer_to_peer_fileshare.Tests.Handlers.{ann_leaves}
use peer_to_peer_fileshare.Request.Orders.{publishes, order_lines, Answered, serve-order}
use peer_to_peer_fileshare.Tests.Data.{ann, bob, with_both, both_online, notes, address, ann_online}

abbrev unset : Stale
unset f = []

abbrev noon : Text
noon = codes "25/11/2026 12:00:00"

serve-order_example :
    serve (tratar_peticion memory unset (λ s. 2)) (
      calm address ann_online
        (lines (order_lines (publishes ann notes (codes "my notes")) noon) (eof ∷ []))
        []
        [])
    ≡ Answered memory unset
        (λ s. 2)
        address
        noon
        []
        ann_online
        (eof ∷ [])
        []
        (publishes ann notes (codes "my notes"))
serve-order_example =
    serve-order memory unset (λ s. 2) address noon [] ann_online (eof ∷ []) []
      (publishes ann notes (codes "my notes")) (plain-IsLine noon refl, omega arith)
      (
        (plain-IsLine ann refl, omega arith),
        (plain-IsLine notes refl, omega arith),
        (plain-IsLine (codes "my notes") refl, omega arith),
      )
      refl

abbrev two_lines : Text
two_lines = codes "ann" ++ newline ∷ (codes "4000" ++ newline ∷ [])

file_lines-joined_example :
    (joined (file_lines two_lines) ≡ two_lines) × All FitsLine (file_lines two_lines)
file_lines-joined_example = file_lines-joined two_lines

serve-get_file_example :
    serve
      (tratar_peticion memory unset (λ s. 2))
      (calm address both_online (lines (codes "GET_FILE" ∷ ann ∷ bob ∷ []) (eof ∷ [])) [] [])
    ≡ (
      left,
      calm address both_online
          (eof ∷ [])
          (file_lines_sent [] (handle_get_file memory ann bob both_online))
          [],
    )
serve-get_file_example =
    serve-get_file memory unset (λ s. 2) address [] both_online (eof ∷ []) [] ann bob
      (plain-IsLine ann refl, omega arith) (plain-IsLine bob refl, omega arith) refl

serve-unregister_example :
    serve
      (tratar_peticion memory unset (λ s. 1))
      (calm address with_both (lines (codes "UNREGISTER" ∷ noon ∷ ann ∷ []) (eof ∷ [])) [] [])
    ≡ (
      left,
      calm address ann_leaves.0.1
          (eof ∷ [])
          ([] ++ code_line ann_leaves.0.0)
          (rpc_string ann (codes "UNREGISTER") noon ∷ []),
    )
serve-unregister_example =
    serve-unregister memory unset (λ s. 1) address [] with_both (eof ∷ []) [] ann noon ann_leaves.0
      (plain-IsLine noon refl, omega arith) (plain-IsLine ann refl, omega arith) refl ann_leaves.1

serve-unknown_example :
    serve
      (tratar_peticion memory unset (λ s. 2))
      (calm address ann_online (then_line (codes "QUIT") (then_line noon (eof ∷ []))) [] [])
    ≡ (left, calm address ann_online (eof ∷ []) (code_line 1) [])
serve-unknown_example =
    serve-unknown memory unset (λ s. 2) address [] ann_online (eof ∷ []) [] (codes "QUIT") noon
      (refl, (refl, (refl, (refl, (refl, (refl, (refl, (refl, (refl, tt)))))))))
      (plain-IsLine (codes "QUIT") refl, omega arith) (plain-IsLine noon refl, omega arith)

serve-no_user_example :
    All (Refuses memory unset (λ s. 2) address [] ann_online (eof ∷ []) [] noon) (take 8 op_names)
serve-no_user_example =
    serve-no_user memory unset (λ s. 2) address [] ann_online (eof ∷ []) [] noon
      (plain-IsLine noon refl, omega arith)

buffers_suffice_example :
    (length (rpc_string ann (codes "LIST_CONTENT") noon) < 2 * buffer_size + 103)
    × (length (users_list_name ann) < max_filepath_length * 2)
    × (length (content_list_name ann bob) < max_filepath_length * 3)
buffers_suffice_example =
    buffers_suffice (codes "LIST_CONTENT") noon ann bob (omega arith) (omega arith) (omega arith)
      (omega arith)
