-- ===== src/Request/ContentListing.antt =====
-- `tratar_peticion` on a whole `LIST_CONTENT`.
use peer_to_peer_fileshare.Base.{
  ℕ, ◌+◌, ◌≡◌, ◌≢◌, refl, ap, sym, subst, ◌∙◌, false, Option, some, List, [], ◌∷◌, ◌++◌, ◌==◌,
  list_eq, nat_eq, arith,
}
use peer_to_peer_fileshare.CString.{Text, codes, buffer_size}
use peer_to_peer_fileshare.Posix.{
  absent, file, dir, IsName, Dirent, FileSystem, IsLawful, IsReliable, IsRelative,
}
use peer_to_peer_fileshare.Registry.{Registry}
use peer_to_peer_fileshare.Comm.{ReadResult}
use peer_to_peer_fileshare.Handle.Places.{base, files_place}
use peer_to_peer_fileshare.Handle.Access.{users}
use peer_to_peer_fileshare.Handle.Listing.{fgets, handle_list_content}
use peer_to_peer_fileshare.Handle.ListUsers.{NamesEach}
use peer_to_peer_fileshare.Handle.ListContent.{
  file_of, content_text, content_count, list_content-listing,
}
use peer_to_peer_fileshare.Handle.GetFile.{IsOnline}
use peer_to_peer_fileshare.Handle.Writing.{update_self}
use peer_to_peer_fileshare.Handle.Unregister.Accounts.{not_under}
use peer_to_peer_fileshare.Request.{
  c_time_string, username, owner, Program, read_into, refuse, answer, rpc_string, Stale, no_user,
  after_list, content_list_name, content_reply, open_content, list_content_section,
  request_list_content, branches, dispatch, tratar_peticion,
}
use peer_to_peer_fileshare.Request.Opening.{
  plain-IsLine, serve-read_into, serve-with_username, serve-start,
}
use peer_to_peer_fileshare.Request.Serve.{left, serve, then_line, lines, calm, code_line, Carried}
use peer_to_peer_fileshare.Request.UserList.{
  shown_list, content_lines, holding, serve-content_reply,
}
use peer_to_peer_fileshare.Request.ListFiles.{
  working_dir, IsShort, IsShort-IsUser, content_list_name-IsName, kept_below, outside,
  users-outside,
}

module _ (F : FileSystem) (old : Stale) (fuel : F.State → ℕ) (address sent : Text)
    (rest : List ReadResult) (logged : List Text) (u o time : Text) where
  abbrev told : List Text
  told = logged ++ rpc_string u (codes "LIST_CONTENT") time ∷ []

  abbrev read_owner : Text → Program F.State
  read_owner v = read_into owner old (refuse 4) (list_content_section F v)

  -- The request as far as the calls on the files let it.
  list_content_run :
      (n : ℕ) (x : Text) (s t v : F.State)
      → Carried c_time_string time
      → Carried username u
      → Carried owner o
      → (u == no_user) ≡ false
      → open_content F u o s ≡ (some (0, n), t)
      → F.fopen_read t (content_list_name u o) ≡ some x
      → F.remove t (content_list_name u o) ≡ some v
      → serve
          (tratar_peticion F old fuel)
          (calm address s (lines (codes "LIST_CONTENT" ∷ time ∷ u ∷ o ∷ []) rest) sent logged)
        ≡ (
          left,
          calm address v rest
              (((sent ++ code_line 0) ++ code_line n) ++ shown_list content_lines x)
              told,
        )
  unfolding serve dispatch branches request_list_content list_content_section
  list_content_run n x s t v k h l someone runs opens gone =
      serve-start F old address sent fuel (codes "LIST_CONTENT") time s (lines (u ∷ o ∷ []) rest)
        logged refl (plain-IsLine (codes "LIST_CONTENT") refl, omega arith) k
      ∙ serve-with_username F old address sent 4 (codes "LIST_CONTENT") time read_owner u s
          (then_line o rest) logged h someone
      ∙ serve-read_into F old address sent owner (refuse 4) (list_content_section F u) o s rest told
          l
      ∙ ap
          (λ (r : Option (ℕ × ℕ) × F.State).
            serve (after_list 4 (λ res m. answer res (content_reply F u o m)) r.0)
              (holding (calm address r.1 rest sent told)))
          runs
      ∙ serve-content_reply F address rest told u o n x t v (sent ++ code_line 0) opens gone

module _ {F : FileSystem} (L : IsLawful F) (R : IsReliable F) (W : IsRelative F) (s : F.State)
    {u o x y : Text} (h : IsShort u) (k : IsShort o) (on : IsOnline (users F s) u x)
    (shares : IsOnline (users F s) o y) where
  abbrev path : Text
  path = content_list_name u o

  is_path : IsName path
  is_path = content_list_name-IsName h k

  -- What `open_content` leaves: the list in its file, and the accounts as they were.
  abbrev Opened : Registry → Type 0
  Opened g =
      (es : List Dirent) × (t : F.State) × NamesEach (file_of g o) es
      × (open_content F u o s ≡ (some (0, content_count g o es), t))
      × (F.node t (F.resolve path) ≡ file (content_text g o es))
      × (users F t ≡ g)

  -- Every description that the owner published has a line.
  abbrev pub HaveLines : Type 0
  HaveLines =
      (f d : Text) → file_of (users F s) o f ≡ some d → (e : Text) × (fgets buffer_size d ≡ some e)

  open_content-run :
      (t v : F.State) (n : ℕ)
      → F.fopen_write s path ≡ some t
      → handle_list_content F u o 0 path t ≡ (0, 0 + n, v)
      → open_content F u o s ≡ (some (0, n), v)
  unfolding open_content
  open_content-run t v n made run =
      rw (open_content, made)
        (ap (λ (r : ℕ × ℕ × F.State). (some (r.0, r.1), r.2)) run
          ∙ ap (λ m. (some (0, m), v)) (add_zero n))
    where
      add_zero : (m : ℕ) → 0 + m ≡ m
      add_zero m = omega arith

  open_content-listing :
      HaveLines
      → F.node s (files_place F o) ≡ dir
      → F.node s (path ∷ F.resolve (codes ".")) ≢ dir
      → Opened (users F s)
  open_content-listing have folder free =
      let at = W.resolve_name path is_path in
      let (t, made) =
        R.fopen_write_ok s path path (F.resolve (codes ".")) is_path at (working_dir L s h on)
          free in
      let empty = (L.fopen_write_some s path t made).1 in
      let same = users-outside L W s is_path t (file []) empty in
      let (es, v, all, run, full) =
        list_content-listing L R t path [] 0 (IsShort-IsUser h) (IsShort-IsUser k)
          (subst (λ g. IsOnline g u x) (sym same) on)
          (subst (λ g. IsOnline g o y) (sym same) shares)
          (not_under (base F) (F.resolve path) (outside L W s is_path))
          (subst
            (λ g.
              (f d : Text) → file_of g o f ≡ some d → (e : Text) × (fgets buffer_size d ≡ some e))
            (sym same) have)
          (kept_below L W s is_path t (file []) (files_place F o) empty (omega arith) ∙ folder)
          (ap (λ f. f (F.resolve path)) empty
            ∙ update_self (F.node s) (F.resolve path) (file [])) in
      subst Opened same (
        es,
        v,
        all,
        open_content-run t v (content_count (users F t) o es) made run,
        ap (λ f. f (F.resolve path)) full
            ∙ update_self (F.node t) (F.resolve path) (file (content_text (users F t) o es)),
        users-outside L W t is_path v (file (content_text (users F t) o es)) full,
      )

module _ {F : FileSystem} (L : IsLawful F) (R : IsReliable F) (W : IsRelative F) (s : F.State)
    {u o x y : Text} (h : IsShort u) (k : IsShort o) (on : IsOnline (users F s) u x)
    (shares : IsOnline (users F s) o y) (old : Stale) (fuel : F.State → ℕ)
    (address time sent : Text) (rest : List ReadResult) (logged : List Text) where
  -- LIST_CONTENT of a connected user about a connected owner, from the bytes of the request to those of the
  -- answer: the code 0, how many files the owner has published, and the lines, but for empty ones, of a
  -- list that has the name and the description of each, in the order of a listing that names every one
  -- and no name twice. The file for the list is gone afterwards and no account has changed. The
  -- system's calls fail for no reason but the tree, both names are ones that the system holds, with at
  -- most 120 bytes, the user's is not "__NO_USER__", the owner's directory files is there and every
  -- description in it has a line, no directory has the name of the list's file, the lines fit the
  -- buffers, the mutex is free, the log is up and the socket takes what is written.
  pub serve-list_content :
      HaveLines L R W s h k on shares
      → F.node s (files_place F o) ≡ dir
      → F.node s (content_list_name u o ∷ F.resolve (codes ".")) ≢ dir
      → Carried c_time_string time
      → Carried username u
      → Carried owner o
      → (u == no_user) ≡ false
      → (es : List Dirent) × (t : F.State) × NamesEach (file_of (users F s) o) es
        × (serve
              (tratar_peticion F old fuel)
              (calm address s (lines (codes "LIST_CONTENT" ∷ time ∷ u ∷ o ∷ []) rest) sent logged)
            ≡ (
              left,
              calm address t rest
                  (((sent ++ code_line 0) ++ code_line (content_count (users F s) o es))
                    ++ shown_list content_lines (content_text (users F s) o es))
                  (logged ++ rpc_string u (codes "LIST_CONTENT") time ∷ []),
            ))
        × (F.node t (F.resolve (content_list_name u o)) ≡ absent)
        × (users F t ≡ users F s)
  serve-list_content have folder free a b c someone =
      let (es, t, all, run, holds, same) =
        open_content-listing L R W s h k on shares have folder free in
      let path = content_list_name u o in
      let name = content_list_name-IsName h k in
      let at = W.resolve_name path name in
      let text = content_text (users F s) o es in
      let (v, gone) =
        R.remove_ok t path path text (F.resolve (codes ".")) at (ap (F.node t) (sym at) ∙ holds) in
      let left_tree = (L.remove_some t path v gone).2 in
      (
        es,
        v,
        all,
        list_content_run F old fuel address sent rest logged u o time
            (content_count (users F s) o es) text s t v a b c someone run
            (R.fopen_read_ok t path text holds) gone,
        ap (λ f. f (F.resolve path)) left_tree ∙ update_self (F.node t) (F.resolve path) absent,
        users-outside L W t name v absent left_tree ∙ same,
      )
