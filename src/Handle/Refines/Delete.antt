-- ===== src/Handle/Refines/Delete.antt =====
-- `handle_delete` against `delete_spec`.
use peer_to_peer_fileshare.Base.{
  ◌≡◌, refl, ◌∙◌, ap, ◌⊎◌, inl, inr, Bool-cases, Option-cases, none, some, arith,
}
use peer_to_peer_fileshare.CString.{Text}
use peer_to_peer_fileshare.Posix.{absent, is_present, update, IsName, FileSystem, IsLawful}
use peer_to_peer_fileshare.Registry.{delete_spec}
use peer_to_peer_fileshare.Registry.Cases.{delete_offline, delete_missing, delete_there}
use peer_to_peer_fileshare.Registry.View.{view, text_of, view-update_published}
use peer_to_peer_fileshare.Handle.Paths.{user_path, published_path}
use peer_to_peer_fileshare.Handle.Places.{IsUser, base, published_place, resolve-published_path}
use peer_to_peer_fileshare.Handle.Access.{users, access-published_path, Carries, carries}
use peer_to_peer_fileshare.Handle.Standing.{
  unknown, offline, online, standing, text_of_present, absent_of,
}
use peer_to_peer_fileshare.Handle.Account.{handle_delete}

module _ {F : FileSystem} (L : IsLawful F) (s : F.State) {u f : Text} (h : IsUser u)
    (n : IsName f) where
  pub gone :
      (t : F.State)
      → F.remove s (published_path (user_path u) f) ≡ some t
      → F.node t ≡ update (F.node s) (published_place F u f) absent
  gone t e =
      (L.remove_some s _ t e).2
      ∙ ap (λ p. update (F.node s) p absent) (resolve-published_path L h n)

  pub delete_refines :
      (F.remove s (published_path (user_path u) f) ≡ none) × (handle_delete F u f s ≡ (4, s))
      ⊎ Carries F (handle_delete F u f s) (delete_spec u f (users F s))
  unfolding handle_delete
  delete_refines = elim (standing L s h) [
    | unknown p a v ↦ inr (carries F 1 s _ (ground arith) refl (rw (v, delete_spec)))
    | offline p a c v o ↦
        inr (carries F 2 s _ (ground arith) refl (delete_offline _ u v f (ap text_of o)))
    | online x p a c v o ↦ elim (Bool-cases (is_present (F.node s (published_place F u f)))) [
      | inr free ↦ inr (
          carries F 3 s _ (ground (arith, access-published_path L s h n)) refl
            (delete_missing _ u v o f (ap text_of (absent_of _ free))))
      | inl there ↦ elim (Option-cases (F.remove s (published_path (user_path u) f))) [
        | inl e ↦ inl (e, ground (arith, access-published_path L s h n))
        | inr (t, e) ↦ inr (
            carries F 0 t _ (ground (arith, access-published_path L s h n))
              (ap (λ g. view g (base F)) (gone t e)
                ∙ view-update_published (F.node s) (base F) u f absent p)
              (delete_there _ u v o f (text_of_present _ there).1))
      ]
    ]
  ]
