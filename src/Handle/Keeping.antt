-- ===== src/Handle/Keeping.antt =====
-- What the loops of `handle_list_users` and `handle_list_content` write, on any system.
use peer_to_peer_fileshare.Base.{
  ℕ, ◌+◌, ◌≡◌, if◌then◌else◌, Bool, true, false, Option, none, some, List, [], ◌∷◌,
}
use peer_to_peer_fileshare.Base.Int.{ℤ}
use peer_to_peer_fileshare.CString.{Text, buffer_size}
use peer_to_peer_fileshare.Posix.{
  Place, Node, Dirent, EntryType, dt_dir, dt_reg, FileSystem, IsLawful,
}
use peer_to_peer_fileshare.ConnectFile.{scan_connection}
use peer_to_peer_fileshare.Handle.Paths.{user_path, connect_path, files_path, data_directory}
use peer_to_peer_fileshare.Handle.Purge.{is_link}
use peer_to_peer_fileshare.Handle.Listing.{
  Round, go, stop, each_entry, fgets, user_lines, content_start, content_end, list_user, list_file,
  handle_list_users, handle_list_content,
}
use peer_to_peer_fileshare.Handle.Writing.{Open, printed_some}

abbrev state_of : {S : Type 0} → Round S → S
state_of (go n s) = s
state_of (stop c n s) = s

abbrev pub last : {S : Type 0} → ℕ × ℕ × S → S
last (code, n, s) = s

module _ {S : Type 0} (P : S → Type 0) where
  next_round :
      (r : Round S) (f : ℕ → S → ℕ × ℕ × S)
      → P (state_of r)
      → ((m : ℕ) (t : S) → P t → P (last (f m t)))
      → P (last (elim r [ go m t ↦ f m t | stop c m t ↦ (c, m, t) ]))
  next_round (go m t) f q h = h m t q
  next_round (stop c m t) f q h = q

  pub each_entry-keeps :
      (body : Dirent → ℕ → S → Round S)
      → ((e : Dirent) (n : ℕ) (s : S) → P s → P (state_of (body e n s)))
      → (es : List Dirent) (n : ℕ) (s : S) → P s
      → P (last (each_entry body es n s))
  unfolding each_entry
  each_entry-keeps body h [] n s p = p
  each_entry-keeps body h (e ∷ es) n s p =
      next_round (body e n s) (each_entry body es) (h e n s p) (each_entry-keeps body h es)

module _ {F : FileSystem} (L : IsLawful F) (f : Place → Node) (path : Text) (p : Place) where
  -- The tree is `f`, but for the list's file.
  abbrev pub Keeps : F.State → Type 0
  Keeps s = (got : Text) × Open L f path p s got

  module _ (r : F.resolve path ≡ p) where
    fprintf-Keeps : (s : F.State) (x : Text) → Keeps s → Keeps (F.fprintf s path x).1
    fprintf-Keeps s x (old, o) = printed_some L f path p s old x r o

    module _ (name : Text) (n : ℕ) (s : F.State) (k : Keeps s) where
      scanned-Keeps :
          (o : Option (Text × ℤ))
          → Keeps (
              state_of (elim o [
                | none ↦ stop 5 n s
                | some (address, port) ↦
                    go (n + 1) (F.fprintf s path (user_lines name address port)).1
              ]))
      scanned-Keeps none = k
      scanned-Keeps (some (address, port)) = fprintf-Keeps s (user_lines name address port) k

      user-Keeps :
          (t : EntryType) (link here : Bool) (o : Option Text)
          → Keeps (
              state_of (elim t [
                | dt_reg ↦ go n s
                | dt_dir ↦
                    if link
                    then go n s
                    else if here
                    then elim o [
                      | none ↦ stop 4 n s
                      | some x ↦ elim (scan_connection x) [
                        | none ↦ stop 5 n s
                        | some (address, port) ↦
                            go (n + 1) (F.fprintf s path (user_lines name address port)).1
                      ]
                    ]
                    else go n s
              ]))
      user-Keeps dt_reg link here o = k
      user-Keeps dt_dir true here o = k
      user-Keeps dt_dir false false o = k
      user-Keeps dt_dir false true none = k
      user-Keeps dt_dir false true (some x) = scanned-Keeps (scan_connection x)

    list_user-Keeps :
        (e : Dirent) (n : ℕ) (s : F.State) → Keeps s → Keeps (state_of (list_user F path e n s))
    unfolding list_user
    list_user-Keeps e n s k = user-Keeps e.d_name n s k e.d_type (is_link e.d_name) _ _

    -- Whatever fails, `handle_list_users` writes to the list's file only.
    pub handle_list_users-Keeps :
        (u : Text) (n : ℕ) (s : F.State) → Keeps s → Keeps (last (handle_list_users F u n path s))
    unfolding handle_list_users
    handle_list_users-Keeps u n s k =
        asked (F.access s (user_path u)) (F.access s (connect_path u)) (F.opendir s data_directory)
      where
        asked :
            (known connected : Bool) (o : Option (List Dirent))
            → Keeps (
                last (
                  if known
                  then if connected
                    then elim o [
                      | none ↦ (3, n, s)
                      | some es ↦ each_entry (list_user F path) es n s
                    ]
                    else (2, n, s)
                  else (1, n, s)))
        asked false connected o = k
        asked true false o = k
        asked true true none = k
        asked true true (some es) =
            each_entry-keeps Keeps (list_user F path) list_user-Keeps es n s k

    module _ (description : Text → Option Text) (name : Text) (n : ℕ) (s : F.State)
        (k : Keeps s) where
      abbrev named : F.State
      named = (F.fprintf s path (content_start name)).1

      named-Keeps : Keeps named
      named-Keeps = fprintf-Keeps s (content_start name) k

      told-Keeps :
          (o : Option Text)
          → Keeps (
              state_of (elim o [
                | none ↦ stop 4 (n + 1) named
                | some d ↦ go (n + 1) (F.fprintf named path (content_end d)).1
              ]))
      told-Keeps none = named-Keeps
      told-Keeps (some d) = fprintf-Keeps named (content_end d) named-Keeps

      file-Keeps :
          (t : EntryType) (link : Bool) (o : Option Text)
          → Keeps (
              state_of (elim t [
                | dt_dir ↦ go n s
                | dt_reg ↦ if link then go n s else elim o [
                  | none ↦ stop 4 (n + 1) named
                  | some x ↦ elim (description x) [
                    | none ↦ stop 4 (n + 1) named
                    | some d ↦ go (n + 1) (F.fprintf named path (content_end d)).1
                  ]
                ]
              ]))
      file-Keeps dt_dir link o = k
      file-Keeps dt_reg true o = k
      file-Keeps dt_reg false none = named-Keeps
      file-Keeps dt_reg false (some x) = told-Keeps (description x)

    list_file-Keeps :
        (owner : Text) (e : Dirent) (n : ℕ) (s : F.State)
        → Keeps s
        → Keeps (state_of (list_file F owner path e n s))
    unfolding list_file
    list_file-Keeps owner e n s k =
        file-Keeps (fgets buffer_size) e.d_name n s k e.d_type (is_link e.d_name) _

    -- Whatever fails, `handle_list_content` writes to the list's file only.
    pub handle_list_content-Keeps :
        (u o : Text) (n : ℕ) (s : F.State)
        → Keeps s
        → Keeps (last (handle_list_content F u o n path s))
    unfolding handle_list_content
    handle_list_content-Keeps u o n s k =
        asked (F.access s (user_path u)) (F.access s (connect_path u)) (F.opendir s data_directory)
          (F.access s (user_path o)) (F.access s (connect_path o)) (F.opendir s (files_path o))
      where
        asked :
            (known connected : Bool) (all : Option (List Dirent)) (owns offers : Bool)
            (files : Option (List Dirent))
            → Keeps (
                last (
                  if known
                  then if connected
                    then elim all [
                      | none ↦ (4, n, s)
                      | some _ ↦
                          if owns
                          then if offers
                            then elim files [
                              | none ↦ (4, n, s)
                              | some es ↦ each_entry (list_file F (user_path o) path) es n s
                            ]
                            else (0, n, s)
                          else (3, n, s)
                    ]
                    else (2, n, s)
                  else (1, n, s)))
        asked false connected all owns offers files = k
        asked true false all owns offers files = k
        asked true true none owns offers files = k
        asked true true (some a) false offers files = k
        asked true true (some a) true false files = k
        asked true true (some a) true true none = k
        asked true true (some a) true true (some es) =
            each_entry-keeps Keeps (list_file F (user_path o) path) (list_file-Keeps (user_path o))
              es n s k
