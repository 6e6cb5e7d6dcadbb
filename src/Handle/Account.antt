-- ===== src/Handle/Account.antt =====
-- The handlers that change one user's directory: `handle_register`, `handle_connect` with
-- `write_connection`, `handle_publish`, `handle_delete` and `handle_disconnect`.
use peer_to_peer_fileshare.Base.{ℕ, zero, suc, Option, none, some, [], ◌∷◌, ◌++◌, if◌then◌else◌}
use peer_to_peer_fileshare.Base.Int.{ℤ}
use peer_to_peer_fileshare.CString.{Text, newline}
use peer_to_peer_fileshare.Posix.{FileSystem}
use peer_to_peer_fileshare.ConnectFile.{print_int}
use peer_to_peer_fileshare.Handle.Paths.{user_path, connect_path, files_path, published_path}

-- `fprintf(file, "%s\n", s)`
abbrev pub line : Text → Text
line s = s ++ newline ∷ []

module _ (F : FileSystem) where
  open F use {State, access, mkdir, remove, fopen_write, fprintf}

  unfoldable pub handle_register : Text → State → ℕ × State
  handle_register username s =
      let dirpath = user_path username in
      if access s dirpath
      then (1, s)
      else elim (mkdir s dirpath) [ none ↦ (2, s) | some t ↦ (0, t) ]

  -- The stream is the path that it was opened at; `none` is the null pointer.
  unfoldable pub write_connection : Text → ℤ → Option Text → State → ℕ × State
  write_connection address port none s = (1, s)
  write_connection address port (some file) s =
      let (address_written, t) = fprintf s file (line address) in
      let (port_written, u) = fprintf t file (line (print_int port)) in
      if address_written then if port_written then (0, u) else (3, u) else (2, t)

  -- The rest of `handle_connect`, from the test of its call of `write_connection`.
  unfoldable pub connect_folder : Text → ℕ × State → ℕ × State
  connect_folder username (suc code, s) = (3, s)
  connect_folder username (zero, s) =
      let user_files = files_path username in
      if access s user_files
      then (0, s)
      else elim (mkdir s user_files) [ none ↦ (3, s) | some t ↦ (0, t) ]

  unfoldable pub handle_connect : Text → ℤ → Text → State → ℕ × State
  unfolding write_connection connect_folder
  handle_connect username port address s =
      let user_connect = connect_path username in
      if access s (user_path username)
      then if access s user_connect then (2, s) else elim (fopen_write s user_connect) [
        | none ↦ (3, s)
        | some t ↦ connect_folder username (write_connection address port (some user_connect) t)
      ]
      else (1, s)

  unfoldable pub handle_publish : Text → Text → Text → State → ℕ × State
  handle_publish username filename description s =
      let user = user_path username in
      let new_file_path = published_path user filename in
      if access s user
      then if access s (connect_path username)
        then if access s new_file_path then (3, s) else elim (fopen_write s new_file_path) [
          | none ↦ (4, s)
          | some t ↦ (0, (fprintf t new_file_path (line description)).1)
        ]
        else (2, s)
      else (1, s)

  unfoldable pub handle_delete : Text → Text → State → ℕ × State
  handle_delete username filename s =
      let user = user_path username in
      let file_to_delete = published_path user filename in
      if access s user
      then if access s (connect_path username)
        then if access s file_to_delete
          then elim (remove s file_to_delete) [ none ↦ (4, s) | some t ↦ (0, t) ]
          else (3, s)
        else (2, s)
      else (1, s)

  unfoldable pub handle_disconnect : Text → State → ℕ × State
  handle_disconnect username s =
      let user_connect = connect_path username in
      if access s (user_path username)
      then if access s user_connect
        then elim (remove s user_connect) [ none ↦ (3, s) | some t ↦ (0, t) ]
        else (2, s)
      else (1, s)
