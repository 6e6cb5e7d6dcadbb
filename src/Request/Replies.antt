-- ===== src/Request/Replies.antt =====
-- The answers of `tratar_peticion` after the code, for `LIST_USERS`, `LIST_CONTENT` and `GET_FILE`.
use peer_to_peer_fileshare.Base.{
  ℕ, zero, suc, Bool, true, false, Option, none, some, List, [], ◌∷◌, ◌++◌, ◌==◌, nat_eq, length,
  drop, if◌then◌else◌,
}
use peer_to_peer_fileshare.Base.Int.{ℤ}
use peer_to_peer_fileshare.CString.{Text, codes, newline, buffer_size}
use peer_to_peer_fileshare.Posix.{FileSystem}
use peer_to_peer_fileshare.ConnectFile.{print_int}
use peer_to_peer_fileshare.Handle.Listing.{fgets}
use peer_to_peer_fileshare.Request.Tree.{
  Program, whether, writes, locks, unlocks, closes, thread_exit, call,
}
use peer_to_peer_fileshare.Request.Calls.{exit_error, send_result, refuse}

-- The lines that a loop over `fgets` reads from a file, on fuel. The thread holds `file_mutex` from the
-- first to the last of them, so the file stays as it is.
unfoldable pub get_lines : ℕ → Text → List Text
unfolding fgets
get_lines zero x = []
get_lines (suc fuel) x = elim (fgets buffer_size x) [
  | none ↦ []
  | some l ↦ l ∷ get_lines fuel (drop (length l) x)
]

-- Each line has a byte, so the length of the file is fuel enough.
unfoldable pub file_lines : Text → List Text
unfolding get_lines
file_lines x = get_lines (length x) x

-- The lines that the loop of `LIST_CONTENT` sends: not those that begin with a line end.
abbrev pub is_blank : Text → Bool
is_blank [] = false
is_blank (c ∷ l) = c == newline

unfoldable pub shown_lines : List Text → List Text
shown_lines [] = []
shown_lines (l ∷ ls) = let rest = shown_lines ls in if is_blank l then rest else l ∷ rest

-- What is sent for an empty list.
abbrev pub dashes : Text
dashes = codes "---------------"

abbrev pub users_list_name : Text → Text
users_list_name username = username ++ codes "_users_connected.txt"

abbrev pub content_list_name : Text → Text → Text
content_list_name username owner = username ++ (owner ++ codes "_content.txt")

module _ {S : Type 0} where
  -- The thread ends, with its connection closed.
  abbrev pub finished : Program S
  finished = closes thread_exit

  -- `send_result(sc, res)`, and the end of the thread if `res` is not 0.
  abbrev pub answer : ℕ → Program S → Program S
  answer res reply = send_result res (elim res [ zero ↦ reply | suc n ↦ exit_error ])

  -- The loop that sends lines; `fail` is what follows where one is not sent.
  unfoldable pub send_lines : List Text → Program S → Program S → Program S
  send_lines [] fail k = k
  send_lines (l ∷ ls) fail k = writes l (whether (send_lines ls fail k) fail)

  -- After `GET_FILE`.
  unfoldable pub file_reply : Text → ℤ → Program S
  file_reply client_address client_port =
      writes client_address
        (whether (writes (print_int client_port) (whether finished (refuse 2))) (refuse 2))

module _ (F : FileSystem) where
  open F use {State, access, remove, fopen_read}

  -- `remove` of the list's file, and whether it was removed.
  abbrev pub removal : Text → State → Bool × State
  removal path s = elim (remove s path) [ none ↦ (false, s) | some t ↦ (true, t) ]

  -- From the opened file on: the dashes or the lines, and the removal of the file.
  unfoldable pub send_file : (Text → List Text) → Text → Option Text → Program State
  unfolding send_lines file_lines shown_lines
  send_file lines path none = unlocks exit_error
  send_file lines path (some []) =
      writes dashes
        (whether (call (removal path) (λ removed. unlocks finished)) (unlocks exit_error))
  send_file lines path (some (c ∷ x)) =
      send_lines (lines (c ∷ x)) (unlocks exit_error)
        (call (removal path) (whether (unlocks finished) (unlocks exit_error)))

  -- After `LIST_USERS`.
  unfoldable pub users_reply : Text → ℕ → Program State
  unfolding send_file
  users_reply username n_users =
      let path = users_list_name username in
      send_result n_users (
        locks (
          call (λ s. (access s path, s))
            (whether (call (λ s. (fopen_read s path, s)) (send_file file_lines path))
              (unlocks exit_error))))

  -- After `LIST_CONTENT`.
  unfoldable pub content_reply : Text → Text → ℕ → Program State
  unfolding send_file
  content_reply username owner n_content =
      let path = content_list_name username owner in
      send_result n_content (
        locks
          (call (λ s. (fopen_read s path, s)) (send_file (λ x. shown_lines (file_lines x)) path)))
