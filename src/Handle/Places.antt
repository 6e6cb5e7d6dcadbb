-- ===== src/Handle/Places.antt =====
-- Where the paths of servidor_handle.c lead, for users whose names the buffers hold.
use peer_to_peer_fileshare.Base.{
  ◌≤◌, ◌≡◌, refl, sym, ap, ◌∙◌, ◌∷◌, ◌++◌, append_assoc, length, length-append, arith,
}
use peer_to_peer_fileshare.CString.{Text, codes, slash, snprintf_fits}
use peer_to_peer_fileshare.Posix.{Place, IsName, FileSystem, IsLawful}
use peer_to_peer_fileshare.Handle.Paths.{
  data_directory, user_path, connect_path, entry_connect_path, files_path, published_path,
  content_path,
}

-- A user name that is one component of a path, and short enough for `./database/<name>/connect`
-- and its NUL in 256 bytes.
pub record IsUser (u : Text) : Type 0 where
  pub name : IsName u
  pub short : length u ≤ 236

pub connect-IsName : IsName (codes "connect")
connect-IsName = record {
  nonempty = λ e. cc;
  no_slash = refl;
  name_max = omega arith;
  no_dot = λ e. cc;
  no_dot_dot = λ e. cc;
}

pub files-IsName : IsName (codes "files")
files-IsName = record {
  nonempty = λ e. cc;
  no_slash = refl;
  name_max = omega arith;
  no_dot = λ e. cc;
  no_dot_dot = λ e. cc;
}

module _ {u : Text} (h : IsUser u) where
  pub user_path_lem : user_path u ≡ data_directory ++ u
  unfolding user_path
  user_path_lem = snprintf_fits 256 _ (omega (arith, h.short))

  connect_path_lem : connect_path u ≡ (data_directory ++ u) ++ codes "/connect"
  unfolding connect_path
  connect_path_lem =
      snprintf_fits 256 _ (omega (arith, h.short, length-append u (codes "/connect")))

  files_path_lem : files_path u ≡ (data_directory ++ u) ++ codes "/files"
  unfolding files_path
  files_path_lem = snprintf_fits 256 _ (omega (arith, h.short, length-append u (codes "/files")))

  module _ {f : Text} (name : IsName f) where
    published_path_lem :
        published_path (user_path u) f ≡ ((data_directory ++ u) ++ codes "/files") ++ slash ∷ f
    unfolding published_path
    published_path_lem =
        ap (λ x. published_path x f) user_path_lem
        ∙ snprintf_fits 512 _
            (omega (arith, h.short, name.name_max, length-append u (codes "/files/" ++ f)))
        ∙ sym (append_assoc (data_directory ++ u) (codes "/files") (slash ∷ f))

    content_path_lem :
        content_path (user_path u) f ≡ ((data_directory ++ u) ++ codes "/files") ++ slash ∷ f
    unfolding content_path
    content_path_lem =
        ap (λ x. content_path x f) user_path_lem
        ∙ snprintf_fits 518 _
            (omega (arith, h.short, name.name_max, length-append u (codes "/files/" ++ f)))
        ∙ sym (append_assoc (data_directory ++ u) (codes "/files") (slash ∷ f))

entry_connect_path_lem :
    {u : Text} → IsName u → entry_connect_path u ≡ (data_directory ++ u) ++ codes "/connect"
unfolding entry_connect_path
entry_connect_path_lem {u} h =
    snprintf_fits 512 _ (omega (arith, h.name_max, length-append u (codes "/connect")))

module _ (F : FileSystem) where
  -- `./database`
  abbrev pub base : Place
  base = F.resolve (codes "./database")

  abbrev pub user_place : Text → Place
  user_place u = u ∷ base

  abbrev pub connect_place : Text → Place
  connect_place u = codes "connect" ∷ u ∷ base

  abbrev pub files_place : Text → Place
  files_place u = codes "files" ∷ u ∷ base

  abbrev pub published_place : Text → Text → Place
  published_place u f = f ∷ codes "files" ∷ u ∷ base

module _ {F : FileSystem} (L : IsLawful F) where
  pub resolve-data_directory : F.resolve data_directory ≡ base F
  resolve-data_directory = L.resolve_slash b'.' (codes "/database")

  below_user : {u : Text} → IsName u → F.resolve (data_directory ++ u) ≡ user_place F u
  below_user {u} h = L.resolve_child b'.' (codes "/database") u h

  pub resolve-user_path : {u : Text} → IsUser u → F.resolve (user_path u) ≡ user_place F u
  resolve-user_path h = rw (user_path_lem h) (below_user h.name)

  below_connect :
      {u : Text}
      → IsName u
      → F.resolve ((data_directory ++ u) ++ codes "/connect") ≡ connect_place F u
  below_connect {u} h =
      L.resolve_child b'.' (codes "/database/" ++ u) (codes "connect") connect-IsName
      ∙ ap (λ p. codes "connect" ∷ p) (below_user h)

  below_files :
      {u : Text} → IsUser u → F.resolve ((data_directory ++ u) ++ codes "/files") ≡ files_place F u
  below_files {u} h =
      L.resolve_child b'.' (codes "/database/" ++ u) (codes "files") files-IsName
      ∙ ap (λ p. codes "files" ∷ p) (below_user h.name)

  below_published :
      {u f : Text}
      → IsUser u
      → IsName f
      → F.resolve (((data_directory ++ u) ++ codes "/files") ++ slash ∷ f) ≡ published_place F u f
  below_published {u} {f} h name =
      L.resolve_child b'.' ((codes "/database/" ++ u) ++ codes "/files") f name
      ∙ ap (λ p. f ∷ p) (below_files h)

  pub resolve-connect_path : {u : Text} → IsUser u → F.resolve (connect_path u) ≡ connect_place F u
  resolve-connect_path h = rw (connect_path_lem h) (below_connect h.name)

  pub resolve-entry_connect_path :
      {u : Text} → IsName u → F.resolve (entry_connect_path u) ≡ connect_place F u
  resolve-entry_connect_path h = rw (entry_connect_path_lem h) (below_connect h)

  pub resolve-files_path : {u : Text} → IsUser u → F.resolve (files_path u) ≡ files_place F u
  resolve-files_path h = rw (files_path_lem h) (below_files h)

  pub resolve-published_path :
      {u f : Text}
      → IsUser u
      → IsName f
      → F.resolve (published_path (user_path u) f) ≡ published_place F u f
  resolve-published_path h name = rw (published_path_lem h name) (below_published h name)

  pub resolve-content_path :
      {u f : Text}
      → IsUser u
      → IsName f
      → F.resolve (content_path (user_path u) f) ≡ published_place F u f
  resolve-content_path h name = rw (content_path_lem h name) (below_published h name)
