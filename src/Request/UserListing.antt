-- ===== src/Request/UserListing.antt =====
-- `tratar_peticion` on a whole `LIST_USERS`.
use peer_to_peer_fileshare.Base.{
  ℕ, ◌+◌, ◌≡◌, ◌≢◌, refl, ap, sym, subst, ◌∙◌, true, false, Option, some, List, [], ◌∷◌, ◌++◌, ◌==◌,
  list_eq, nat_eq, arith,
}
use peer_to_peer_fileshare.Base.Int.{ℤ}
use peer_to_peer_fileshare.CString.{Text, codes}
use peer_to_peer_fileshare.Posix.{
  absent, file, dir, is_present, IsName, Dirent, FileSystem, IsLawful, IsReliable, IsRelative,
}
use peer_to_peer_fileshare.ConnectFile.{scan_connection}
use peer_to_peer_fileshare.Registry.{Registry}
use peer_to_peer_fileshare.Comm.{ReadResult}
use peer_to_peer_fileshare.Handle.Places.{base}
use peer_to_peer_fileshare.Handle.Access.{users}
use peer_to_peer_fileshare.Handle.Listing.{handle_list_users}
use peer_to_peer_fileshare.Handle.ListUsers.{
  NamesEach, contact_of, list_text, list_count, list_users-listing,
}
use peer_to_peer_fileshare.Handle.GetFile.{IsOnline}
use peer_to_peer_fileshare.Handle.Writing.{update_self}
use peer_to_peer_fileshare.Handle.Unregister.Accounts.{not_under}
use peer_to_peer_fileshare.Request.{
  c_time_string, username, answer, rpc_string, Stale, no_user, after_list, file_lines,
  users_list_name, users_reply, open_users, list_users_section, request_list_users, branches,
  dispatch, tratar_peticion,
}
use peer_to_peer_fileshare.Request.Opening.{plain-IsLine, serve-with_username, serve-start}
use peer_to_peer_fileshare.Request.Serve.{left, serve, then_line, lines, calm, code_line, Carried}
use peer_to_peer_fileshare.Request.UserList.{shown_list, holding, serve-users_reply}
use peer_to_peer_fileshare.Request.ListFiles.{
  working_dir, IsShort, IsShort-IsUser, users_list_name-IsName, outside, users-outside,
}

module _ (F : FileSystem) (old : Stale) (fuel : F.State → ℕ) (address sent : Text)
    (rest : List ReadResult) (logged : List Text) (u time : Text) where
  abbrev told : List Text
  told = logged ++ rpc_string u (codes "LIST_USERS") time ∷ []

  -- The request as far as the calls on the files let it.
  list_users_run :
      (n : ℕ) (x : Text) (s t v : F.State)
      → Carried c_time_string time
      → Carried username u
      → (u == no_user) ≡ false
      → open_users F u s ≡ (some (0, n), t)
      → F.access t (users_list_name u) ≡ true
      → F.fopen_read t (users_list_name u) ≡ some x
      → F.remove t (users_list_name u) ≡ some v
      → serve
          (tratar_peticion F old fuel)
          (calm address s (lines (codes "LIST_USERS" ∷ time ∷ u ∷ []) rest) sent logged)
        ≡ (
          left,
          calm address v rest
              (((sent ++ code_line 0) ++ code_line n) ++ shown_list file_lines x)
              told,
        )
  unfolding serve dispatch branches request_list_users list_users_section
  list_users_run n x s t v k h someone runs there opens gone =
      serve-start F old address sent fuel (codes "LIST_USERS") time s (then_line u rest) logged refl
        (plain-IsLine (codes "LIST_USERS") refl, omega arith) k
      ∙ serve-with_username F old address sent 3 (codes "LIST_USERS") time (list_users_section F) u
          s rest logged h someone
      ∙ ap
          (λ (r : Option (ℕ × ℕ) × F.State).
            serve (after_list 3 (λ res m. answer res (users_reply F u m)) r.0)
              (holding (calm address r.1 rest sent told)))
          runs
      ∙ serve-users_reply F address rest told u n x t v (sent ++ code_line 0) there opens gone

module _ {F : FileSystem} (L : IsLawful F) (R : IsReliable F) (W : IsRelative F) (s : F.State)
    {u x : Text} (h : IsShort u) (on : IsOnline (users F s) u x) where
  abbrev path : Text
  path = users_list_name u

  is_path : IsName path
  is_path = users_list_name-IsName h

  -- What `open_users` leaves: the list in its file, and the accounts as they were.
  abbrev Opened : Registry → Type 0
  Opened g =
      (es : List Dirent) × (t : F.State) × NamesEach (contact_of g) es
      × (open_users F u s ≡ (some (0, list_count g es), t))
      × (F.node t (F.resolve path) ≡ file (list_text g es))
      × (users F t ≡ g)

  abbrev pub AreReadable : Type 0
  AreReadable =
      (v y : Text)
      → contact_of (users F s) v ≡ some y
      → (a : Text × ℤ) × (scan_connection y ≡ some a)

  open_users-run :
      (t v : F.State) (n : ℕ)
      → F.fopen_write s path ≡ some t
      → handle_list_users F u 0 path t ≡ (0, 0 + n, v)
      → open_users F u s ≡ (some (0, n), v)
  unfolding open_users
  open_users-run t v n made run =
      rw (open_users, made)
        (ap (λ (r : ℕ × ℕ × F.State). (some (r.0, r.1), r.2)) run
          ∙ ap (λ m. (some (0, m), v)) (add_zero n))
    where
      add_zero : (m : ℕ) → 0 + m ≡ m
      add_zero m = omega arith

  open_users-listing :
      AreReadable → F.node s (path ∷ F.resolve (codes ".")) ≢ dir → Opened (users F s)
  open_users-listing readable free =
      let at = W.resolve_name path is_path in
      let (t, made) =
        R.fopen_write_ok s path path (F.resolve (codes ".")) is_path at (working_dir L s h on)
          free in
      let empty = (L.fopen_write_some s path t made).1 in
      let same = users-outside L W s is_path t (file []) empty in
      let (es, v, all, run, full) =
        list_users-listing L t R path []
          (not_under (base F) (F.resolve path) (outside L W s is_path))
          (subst
            (λ g.
              (w y : Text)
              → contact_of g w ≡ some y
              → (a : Text × ℤ) × (scan_connection y ≡ some a))
            (sym same) readable)
          0 (IsShort-IsUser h) (subst (λ g. IsOnline g u x) (sym same) on)
          (ap (λ f. f (F.resolve path)) empty
            ∙ update_self (F.node s) (F.resolve path) (file [])) in
      subst Opened same (
        es,
        v,
        all,
        open_users-run t v (list_count (users F t) es) made run,
        ap (λ f. f (F.resolve path)) full
            ∙ update_self (F.node t) (F.resolve path) (file (list_text (users F t) es)),
        users-outside L W t is_path v (file (list_text (users F t) es)) full,
      )

module _ {F : FileSystem} (L : IsLawful F) (R : IsReliable F) (W : IsRelative F) (s : F.State)
    {u x : Text} (h : IsShort u) (on : IsOnline (users F s) u x) (old : Stale) (fuel : F.State → ℕ)
    (address time sent : Text) (rest : List ReadResult) (logged : List Text) where
  -- LIST_USERS of a connected user, from the bytes of the request to those of the answer: the code 0, how
  -- many users are connected, and the lines of a list that has the name, address and port of each, in
  -- the order of a listing that names every connected user and no name twice. The file for the list is
  -- gone afterwards and no account has changed. The system's calls fail for no reason but the tree, the
  -- user's name is one that the system holds, with at most 120 bytes, and not "__NO_USER__", every
  -- connect file can be read, no directory has the name of the list's file, the lines fit the
  -- buffers, the mutex is free, the log is up and the socket takes what is written.
  pub serve-list_users :
      AreReadable L R W s h on
      → F.node s (users_list_name u ∷ F.resolve (codes ".")) ≢ dir
      → Carried c_time_string time
      → Carried username u
      → (u == no_user) ≡ false
      → (es : List Dirent) × (t : F.State) × NamesEach (contact_of (users F s)) es
        × (serve
              (tratar_peticion F old fuel)
              (calm address s (lines (codes "LIST_USERS" ∷ time ∷ u ∷ []) rest) sent logged)
            ≡ (
              left,
              calm address t rest
                  (((sent ++ code_line 0) ++ code_line (list_count (users F s) es))
                    ++ shown_list file_lines (list_text (users F s) es))
                  (logged ++ rpc_string u (codes "LIST_USERS") time ∷ []),
            ))
        × (F.node t (F.resolve (users_list_name u)) ≡ absent)
        × (users F t ≡ users F s)
  serve-list_users readable free k l someone =
      let (es, t, all, run, holds, same) = open_users-listing L R W s h on readable free in
      let name = users_list_name-IsName h in
      let (v, gone) =
        R.remove_ok t (users_list_name u) (users_list_name u) (list_text (users F s) es)
          (F.resolve (codes ".")) (W.resolve_name (users_list_name u) name)
          (ap (F.node t) (sym (W.resolve_name (users_list_name u) name)) ∙ holds) in
      let left_tree = (L.remove_some t (users_list_name u) v gone).2 in
      (
        es,
        v,
        all,
        list_users_run F old fuel address sent rest logged u time (list_count (users F s) es)
            (list_text (users F s) es) s t v k l someone run
            (L.access_lem t (users_list_name u) ∙ ap is_present holds)
            (R.fopen_read_ok t (users_list_name u) (list_text (users F s) es) holds) gone,
        ap (λ f. f (F.resolve (users_list_name u))) left_tree
            ∙ update_self (F.node t) (F.resolve (users_list_name u)) absent,
        users-outside L W t name v absent left_tree ∙ same,
      )
