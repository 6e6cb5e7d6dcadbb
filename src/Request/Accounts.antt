-- ===== src/Request/Accounts.antt =====
-- What the calls of `tratar_peticion` on the files do to the accounts.
use peer_to_peer_fileshare.Base.{ℕ, ◌≡◌, inl, inr, sym, subst, ap}
use peer_to_peer_fileshare.Base.Int.{ℤ}
use peer_to_peer_fileshare.CString.{Text}
use peer_to_peer_fileshare.Posix.{IsName, FileSystem, IsLawful}
use peer_to_peer_fileshare.Registry.{Registry}
use peer_to_peer_fileshare.Registry.Deed.{
  Deed, nothing, registered, connected, published, deleted, disconnected,
}
use peer_to_peer_fileshare.Handle.Places.{IsUser}
use peer_to_peer_fileshare.Handle.Access.{users, Carries}
use peer_to_peer_fileshare.Handle.Account.{
  handle_register, handle_connect, handle_publish, handle_delete, handle_disconnect,
}
use peer_to_peer_fileshare.Handle.Refines.Register.{register_refines}
use peer_to_peer_fileshare.Handle.Refines.Connect.{contact, connect_refines}
use peer_to_peer_fileshare.Handle.Refines.Publish.{publish_refines}
use peer_to_peer_fileshare.Handle.Refines.Delete.{delete_refines}
use peer_to_peer_fileshare.Handle.Refines.Disconnect.{disconnect_refines}

module _ {F : FileSystem} (L : IsLawful F) (s : F.State) where
  -- A state in which one operation on the accounts has been done.
  abbrev pub Follows : F.State → Type 0
  Follows t = Deed (users F s) (users F t)

  same_state : (t : F.State) → t ≡ s → Follows t
  same_state t e = subst Follows (sym e) nothing

  carried :
      (r : ℕ × F.State) (spec : ℕ × Registry)
      → Deed (users F s) spec.1
      → Carries F r spec
      → Follows r.1
  carried r spec d e = subst (Deed (users F s)) (sym (ap (λ x. x.1) e)) d

  module _ {u : Text} (h : IsUser u) where
    pub register-Follows : Follows (handle_register F u s).1
    register-Follows = elim (register_refines L s h) [
      | inl (e, g) ↦ same_state _ (ap (λ r. r.1) g)
      | inr c ↦ carried _ _ (registered u) c
    ]

    pub connect-Follows :
        (address : Text) (port : ℤ) → Follows (handle_connect F u port address s).1
    connect-Follows address port = elim (connect_refines L s h address port) [
      | inl (c, inl (e, g)) ↦ same_state _ g
      | inl (c, inr (t, e, why, got, g)) ↦ subst (Deed (users F s)) (sym g) (connected u got)
      | inr c ↦ carried _ _ (connected u (contact address port)) c
    ]

    pub disconnect-Follows : Follows (handle_disconnect F u s).1
    disconnect-Follows = elim (disconnect_refines L s h) [
      | inl (e, g) ↦ same_state _ (ap (λ r. r.1) g)
      | inr c ↦ carried _ _ (disconnected u) c
    ]

    module _ {f : Text} (n : IsName f) where
      pub publish-Follows : (d : Text) → Follows (handle_publish F u f d s).1
      publish-Follows d = elim (publish_refines L s h n d) [
        | inl (e, g) ↦ same_state _ (ap (λ r. r.1) g)
        | inr (got, w, c) ↦ carried _ _ (published u f got) c
      ]

      pub delete-Follows : Follows (handle_delete F u f s).1
      delete-Follows = elim (delete_refines L s h n) [
        | inl (e, g) ↦ same_state _ (ap (λ r. r.1) g)
        | inr c ↦ carried _ _ (deleted u f) c
      ]
