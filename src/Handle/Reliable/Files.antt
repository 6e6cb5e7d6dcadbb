-- ===== src/Handle/Reliable/Files.antt =====
-- `handle_publish` and `handle_delete` on a reliable system.
use peer_to_peer_fileshare.Base.{
  ◌≡◌, ◌≢◌, refl, sym, subst, ◌∙◌, ap, inl, inr, Bool-cases, true, false, some, [], ◌∷◌, arith,
  list_eq, nat_eq,
}
use peer_to_peer_fileshare.CString.{Text, codes}
use peer_to_peer_fileshare.Posix.{
  Node, absent, dir, file, is_present, is_dir, IsName, FileSystem, IsLawful, IsReliable,
}
use peer_to_peer_fileshare.Registry.{publish_spec, delete_spec}
use peer_to_peer_fileshare.Registry.Cases.{
  publish_offline, publish_again, publish_first, delete_offline, delete_missing, delete_there,
}
use peer_to_peer_fileshare.Registry.View.{view, text_of, view-update_published}
use peer_to_peer_fileshare.Handle.Paths.{user_path, published_path}
use peer_to_peer_fileshare.Handle.Places.{
  IsUser, base, connect_place, files_place, published_place, resolve-published_path,
}
use peer_to_peer_fileshare.Handle.Access.{users, access-published_path}
use peer_to_peer_fileshare.Handle.Standing.{
  unknown, offline, online, standing, absent_of, text_of_present,
}
use peer_to_peer_fileshare.Handle.Writing.{opened, printed, holds}
use peer_to_peer_fileshare.Handle.Account.{line, handle_publish, handle_delete}
use peer_to_peer_fileshare.Handle.Refines.Publish as Publish
use peer_to_peer_fileshare.Handle.Refines.Delete as Delete
use peer_to_peer_fileshare.Handle.Layout.{IsLaid, IsLaid-published, file_of}
use peer_to_peer_fileshare.Handle.Reliable.Does.{Laid, Does, does}

present_of_text : (v : Node) (x : Text) → text_of v ≡ some x → is_present v ≡ true
present_of_text v x h = ground arith

ne_dir : (v : Node) → is_dir v ≡ false → v ≢ dir
ne_dir v h e = cc (h, ap is_dir e)

module _ {F : FileSystem} (L : IsLawful F) (R : IsReliable F) (s : F.State) (laid : Laid F s)
    {u f : Text} (h : IsUser u) (n : IsName f) where
  -- A connected user has its folder.
  folder :
      (x : Text)
      → text_of (F.node s (connect_place F u)) ≡ some x
      → F.node s (files_place F u) ≡ dir
  folder x o = (laid.kept u).folder_there (present_of_text _ x o)

  pub publish-Does :
      (d : Text) → Does F (handle_publish F u f d s) (publish_spec u f (line d) (users F s))
  unfolding handle_publish
  publish-Does d = elim (standing L s h) [
    | unknown p a v ↦ does F 1 s _ (ground arith) refl (rw (v, publish_spec)) laid
    | offline p a c v o ↦
        does F 2 s _ (ground arith) refl (publish_offline _ u v f (line d) (ap text_of o)) laid
    | online x p a c v o ↦ elim (Bool-cases (is_present (F.node s (published_place F u f)))) [
      | inl there ↦
          does F 3 s _ (ground (arith, access-published_path L s h n)) refl
            (publish_again _ u v o f (line d) (text_of_present _ there).1) laid
      | inr free ↦
          let r = resolve-published_path L h n in
          let (t, e) =
            R.fopen_write_ok s (published_path (user_path u) f) f (codes "files" ∷ u ∷ base F) n r
              (folder x o) (ne_dir _ (laid.shallow u (codes "files") f)) in
          let first = opened L (F.node s) _ _ s t r refl e in
          let whole =
            R.fprintf_ok t (published_path (user_path u) f) (line d) []
              (holds L (F.node s) _ _ t [] r first) in
          let shown = printed L (F.node s) _ _ t [] (line d) r first whole in
          does F 0 _ _ (ground (arith, access-published_path L s h n))
            (Publish.shows L s h n _ (line d) p shown)
            (publish_first _ u v o f (line d) (ap text_of (absent_of _ free)))
            (subst (λ g. IsLaid g (base F)) (sym shown)
              (IsLaid-published (F.node s) (base F) laid u f (file (line d)) refl))
    ]
  ]

  pub delete-Does : Does F (handle_delete F u f s) (delete_spec u f (users F s))
  unfolding handle_delete
  delete-Does = elim (standing L s h) [
    | unknown p a v ↦ does F 1 s _ (ground arith) refl (rw (v, delete_spec)) laid
    | offline p a c v o ↦
        does F 2 s _ (ground arith) refl (delete_offline _ u v f (ap text_of o)) laid
    | online x p a c v o ↦ elim (Bool-cases (is_present (F.node s (published_place F u f)))) [
      | inr free ↦
          does F 3 s _ (ground (arith, access-published_path L s h n)) refl
            (delete_missing _ u v o f (ap text_of (absent_of _ free))) laid
      | inl there ↦
          let (y, d) = text_of_present _ there in
          let (t, e) =
            R.remove_ok s (published_path (user_path u) f) f y (codes "files" ∷ u ∷ base F)
              (resolve-published_path L h n) (file_of _ y d (laid.shallow u (codes "files") f)) in
          does F 0 t _ (ground (arith, access-published_path L s h n))
            (ap (λ g. view g (base F)) (Delete.gone L s h n t e)
              ∙ view-update_published (F.node s) (base F) u f absent p)
            (delete_there _ u v o f d)
            (subst (λ g. IsLaid g (base F)) (sym (Delete.gone L s h n t e))
              (IsLaid-published (F.node s) (base F) laid u f absent refl))
    ]
  ]
