-- ===== src/Handle/Reliable/Names.antt =====
-- `handle_register` and `handle_disconnect` on a reliable system.
use peer_to_peer_fileshare.Base.{refl, sym, subst, ◌∙◌, ap, inl, inr, Bool-cases, some, ◌∷◌, arith}
use peer_to_peer_fileshare.CString.{Text, codes}
use peer_to_peer_fileshare.Posix.{absent, is_present, FileSystem, IsLawful, IsReliable}
use peer_to_peer_fileshare.Registry.{register_spec, disconnect_spec}
use peer_to_peer_fileshare.Registry.View.{view, view-some, view-none, view-update_connect}
use peer_to_peer_fileshare.Handle.Paths.{user_path, connect_path}
use peer_to_peer_fileshare.Handle.Places.{
  IsUser, base, user_place, resolve-user_path, resolve-connect_path,
}
use peer_to_peer_fileshare.Handle.Standing.{unknown, offline, online, standing, absent_of}
use peer_to_peer_fileshare.Handle.Account.{handle_register, handle_disconnect}
use peer_to_peer_fileshare.Handle.Refines.Register as Register
use peer_to_peer_fileshare.Handle.Refines.Disconnect as Disconnect
use peer_to_peer_fileshare.Handle.Access.{users}
use peer_to_peer_fileshare.Handle.Layout.{IsLaid, file_of, IsLaid-home, IsLaid-offline}
use peer_to_peer_fileshare.Handle.Reliable.Does.{Laid, Does, does}

module _ {F : FileSystem} (L : IsLawful F) (R : IsReliable F) (s : F.State) (laid : Laid F s)
    {u : Text} (h : IsUser u) where
  pub register-Does : Does F (handle_register F u s) (register_spec u (users F s))
  register-Does = elim (Bool-cases (is_present (F.node s (user_place F u)))) [
    | inl here ↦
        does F 1 s _ (Register.registered L s h here) refl
          (rw (view-some _ _ _ here, register_spec)) laid
    | inr free ↦
        let (t, e) =
          R.mkdir_ok s (user_path u) u (base F) h.name (resolve-user_path L h) laid.database
            (absent_of _ free) in
        does F 0 t _ (Register.made L s h (some t) e free) (Register.fresh L s h t e free)
          (rw (view-none _ _ _ free, register_spec))
          (subst (λ f. IsLaid f (base F)) (sym (Register.node-made L s h t e))
            (IsLaid-home (F.node s) (base F) laid u))
  ]

  pub disconnect-Does : Does F (handle_disconnect F u s) (disconnect_spec u (users F s))
  unfolding handle_disconnect
  disconnect-Does = elim (standing L s h) [
    | unknown p a v ↦ does F 1 s _ (ground arith) refl (rw (v, disconnect_spec)) laid
    | offline p a c v o ↦ does F 2 s _ (ground arith) refl (rw (v, disconnect_spec, o)) laid
    | online x p a c v o ↦
        let (t, e) =
          R.remove_ok s (connect_path u) (codes "connect") x (u ∷ base F) (resolve-connect_path L h)
            (file_of _ x o (laid.kept u).contact_file) in
        does F 0 t _ (ground arith)
          (ap (λ f. view f (base F)) (Disconnect.gone L s h t e)
            ∙ view-update_connect (F.node s) (base F) u absent p)
          (rw (v, disconnect_spec, o))
          (subst (λ f. IsLaid f (base F)) (sym (Disconnect.gone L s h t e))
            (IsLaid-offline (F.node s) (base F) laid u))
  ]
