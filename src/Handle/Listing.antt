-- ===== src/Handle/Listing.antt =====
-- The handlers that answer questions: `handle_list_users`, `handle_list_content` and
-- `handle_get_file`. Their output streams are paths; what is printed there goes to the file system.
use peer_to_peer_fileshare.Base.{
  ℕ, zero, suc, ◌+◌, ◌-◌, Option, none, some, List, [], ◌∷◌, ◌++◌, ◌==◌, nat_eq, if◌then◌else◌,
}
use peer_to_peer_fileshare.Base.Int.{ℤ}
use peer_to_peer_fileshare.CString.{Text, newline, space, buffer_size}
use peer_to_peer_fileshare.Posix.{FileSystem, Dirent, dt_dir, dt_reg}
use peer_to_peer_fileshare.ConnectFile.{print_int, scan_connection}
use peer_to_peer_fileshare.Handle.Paths.{
  data_directory, user_path, connect_path, entry_connect_path, files_path, content_path,
}
use peer_to_peer_fileshare.Handle.Account.{line}
use peer_to_peer_fileshare.Handle.Purge.{is_link}

-- One round of a loop: it goes on with a count and a state, or returns a code with them.
pub data Round {ℓ} (S : Type ℓ) : Type ℓ where
  go : ℕ → S → Round S
  stop : ℕ → ℕ → S → Round S

-- The loop over the entries of a directory; its result is the code, the count and the state.
unfoldable pub each_entry {ℓ} :
    {S : Type ℓ} → (Dirent → ℕ → S → Round S) → List Dirent → ℕ → S → ℕ × ℕ × S
each_entry body [] n s = (0, n, s)
each_entry body (e ∷ es) n s = elim (body e n s) [
  | go m t ↦ each_entry body es m t
  | stop code m t ↦ (code, m, t)
]

-- `fgets(buf, n + 1, file)`: a line with its end, or the first n bytes; `none` is the null pointer.
unfoldable pub first_line : ℕ → Text → Text
first_line zero s = []
first_line (suc n) [] = []
first_line (suc n) (c ∷ s) = let rest = first_line n s in if c == newline then c ∷ [] else c ∷ rest

unfoldable pub fgets : ℕ → Text → Option Text
unfolding first_line
fgets size [] = none
fgets size (c ∷ s) = some (first_line (size - 1) (c ∷ s))

-- What `handle_list_users` prints for a user, and what `handle_list_content` prints for a file.
abbrev pub user_lines : Text → Text → ℤ → Text
user_lines name address port = line name ++ (line address ++ line (print_int port))

abbrev pub content_start : Text → Text
content_start name = 9 ∷ name

abbrev pub content_end : Text → Text
content_end description = space ∷ line description

module _ (F : FileSystem) where
  open F use {State, access, fprintf, fopen_read, opendir}

  unfoldable pub list_user : Text → Dirent → ℕ → State → Round State
  list_user user_list e n s =
      let user_connect_path = entry_connect_path e.d_name in
      elim e.d_type [
        | dt_reg ↦ go n s
        | dt_dir ↦
            if is_link e.d_name
            then go n s
            else if access s user_connect_path
            then elim (fopen_read s user_connect_path) [
              | none ↦ stop 4 n s
              | some x ↦ elim (scan_connection x) [
                | none ↦ stop 5 n s
                | some (address, port) ↦
                    go (n + 1) (fprintf s user_list (user_lines e.d_name address port)).1
              ]
            ]
            else go n s
      ]

  unfoldable pub handle_list_users : Text → ℕ → Text → State → ℕ × ℕ × State
  unfolding list_user each_entry
  handle_list_users username n_connections user_list s =
      if access s (user_path username)
      then if access s (connect_path username)
        then elim (opendir s data_directory) [
          | none ↦ (3, n_connections, s)
          | some es ↦ each_entry (list_user user_list) es n_connections s
        ]
        else (2, n_connections, s)
      else (1, n_connections, s)

  -- The count goes up, and the name is printed, before the file is opened.
  unfoldable pub list_file : Text → Text → Dirent → ℕ → State → Round State
  unfolding fgets
  list_file owner content_list e n s = elim e.d_type [
    | dt_dir ↦ go n s
    | dt_reg ↦
        if is_link e.d_name
        then go n s
        else let t = (fprintf s content_list (content_start e.d_name)).1 in
          elim (fopen_read t (content_path owner e.d_name)) [
            | none ↦ stop 4 (n + 1) t
            | some x ↦ elim (fgets buffer_size x) [
              | none ↦ stop 4 (n + 1) t
              | some description ↦ go (n + 1) (fprintf t content_list (content_end description)).1
            ]
          ]
  ]

  unfoldable pub handle_list_content : Text → Text → ℕ → Text → State → ℕ × ℕ × State
  unfolding list_file each_entry
  handle_list_content username owner num_content content_list s =
      let owner_path = user_path owner in
      if access s (user_path username)
      then if access s (connect_path username)
        then elim (opendir s data_directory) [
          | none ↦ (4, num_content, s)
          | some _ ↦
              if access s owner_path
              then if access s (connect_path owner)
                then elim (opendir s (files_path owner)) [
                  | none ↦ (4, num_content, s)
                  | some es ↦ each_entry (list_file owner_path content_list) es num_content s
                ]
                else (0, num_content, s)
              else (3, num_content, s)
        ]
        else (2, num_content, s)
      else (1, num_content, s)

  -- `*address` and `*port` are read by the caller only after a 0.
  unfoldable pub handle_get_file : Text → Text → State → ℕ × Option (Text × ℤ)
  handle_get_file username owner s =
      if access s (user_path username)
      then if access s (connect_path username)
        then elim (fopen_read s (connect_path owner)) [
          | none ↦ (2, none)
          | some x ↦ elim (scan_connection x) [
            | none ↦ (2, none)
            | some (address, port) ↦ (0, some (address, port))
          ]
        ]
        else (2, none)
      else (2, none)
