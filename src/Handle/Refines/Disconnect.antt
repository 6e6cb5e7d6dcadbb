-- ===== src/Handle/Refines/Disconnect.antt =====
-- `handle_disconnect` against `disconnect_spec`.
use peer_to_peer_fileshare.Base.{◌≡◌, refl, ◌∙◌, ap, ◌⊎◌, inl, inr, Option-cases, none, some, arith}
use peer_to_peer_fileshare.CString.{Text}
use peer_to_peer_fileshare.Posix.{absent, update, FileSystem, IsLawful}
use peer_to_peer_fileshare.Registry.{disconnect_spec}
use peer_to_peer_fileshare.Registry.View.{view, view-update_connect}
use peer_to_peer_fileshare.Handle.Paths.{connect_path}
use peer_to_peer_fileshare.Handle.Places.{IsUser, base, connect_place, resolve-connect_path}
use peer_to_peer_fileshare.Handle.Access.{users, Carries, carries}
use peer_to_peer_fileshare.Handle.Standing.{unknown, offline, online, standing}
use peer_to_peer_fileshare.Handle.Account.{handle_disconnect}

module _ {F : FileSystem} (L : IsLawful F) (s : F.State) {u : Text} (h : IsUser u) where
  pub gone :
      (t : F.State)
      → F.remove s (connect_path u) ≡ some t
      → F.node t ≡ update (F.node s) (connect_place F u) absent
  gone t e =
      (L.remove_some s (connect_path u) t e).2
      ∙ ap (λ p. update (F.node s) p absent) (resolve-connect_path L h)

  pub disconnect_refines :
      (F.remove s (connect_path u) ≡ none) × (handle_disconnect F u s ≡ (3, s))
      ⊎ Carries F (handle_disconnect F u s) (disconnect_spec u (users F s))
  unfolding handle_disconnect
  disconnect_refines = elim (standing L s h) [
    | unknown p a v ↦ inr (carries F 1 s _ (ground arith) refl (rw (v, disconnect_spec)))
    | offline p a c v o ↦ inr (carries F 2 s _ (ground arith) refl (rw (v, disconnect_spec, o)))
    | online x p a c v o ↦ elim (Option-cases (F.remove s (connect_path u))) [
      | inl e ↦ inl (e, ground arith)
      | inr (t, e) ↦ inr (
          carries F 0 t _ (ground arith)
            (ap (λ f. view f (base F)) (gone t e)
              ∙ view-update_connect (F.node s) (base F) u absent p)
            (rw (v, disconnect_spec, o)))
    ]
  ]
