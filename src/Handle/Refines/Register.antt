-- ===== src/Handle/Refines/Register.antt =====
-- `handle_register` against `register_spec`.
use peer_to_peer_fileshare.Base.{
  ◌≡◌, refl, ◌∙◌, ap, ◌⊎◌, inl, inr, Bool-cases, Option-cases, true, false, Option, none, some, ◌∷◌,
  arith,
}
use peer_to_peer_fileshare.CString.{Text, codes}
use peer_to_peer_fileshare.Posix.{absent, dir, is_present, update, FileSystem, IsLawful}
use peer_to_peer_fileshare.Registry.{register_spec, set, new_account}
use peer_to_peer_fileshare.Registry.View.{view, view-some, view-none, view-update_user}
use peer_to_peer_fileshare.Handle.Paths.{user_path}
use peer_to_peer_fileshare.Handle.Places.{IsUser, base, user_place, resolve-user_path}
use peer_to_peer_fileshare.Handle.Access.{users, access-user_path, absent_below, Carries, carries}
use peer_to_peer_fileshare.Handle.Account.{handle_register}

module _ {F : FileSystem} (L : IsLawful F) (s : F.State) {u : Text} (h : IsUser u) where
  pub registered : is_present (F.node s (user_place F u)) ≡ true → handle_register F u s ≡ (1, s)
  unfolding handle_register
  registered here = ground (arith, access-user_path L s h)

  pub made :
      (o : Option F.State)
      → F.mkdir s (user_path u) ≡ o
      → is_present (F.node s (user_place F u)) ≡ false
      → handle_register F u s ≡ elim o [ none ↦ (2, s) | some t ↦ (0, t) ]
  unfolding handle_register
  made o e free = rw (access-user_path L s h, free, e)

  pub node-made :
      (t : F.State)
      → F.mkdir s (user_path u) ≡ some t
      → F.node t ≡ update (F.node s) (user_place F u) dir
  node-made t e =
      (L.mkdir_some s (user_path u) t e).1
      ∙ ap (λ p. update (F.node s) p dir) (resolve-user_path L h)

  pub fresh :
      (t : F.State)
      → F.mkdir s (user_path u) ≡ some t
      → is_present (F.node s (user_place F u)) ≡ false
      → users F t ≡ set u (some new_account) (users F s)
  fresh t e free =
      ap (λ f. view f (base F)) (node-made t e)
      ∙ view-update_user (F.node s) (base F) u (nothing (codes "connect"))
          (λ x. absent_below L s _ x (rw (nothing (codes "files"))))
    where
      nothing : (n : Text) → F.node s (n ∷ user_place F u) ≡ absent
      nothing n = absent_below L s _ n (ground arith)

  pub register_refines :
      (F.mkdir s (user_path u) ≡ none) × (handle_register F u s ≡ (2, s))
      ⊎ Carries F (handle_register F u s) (register_spec u (users F s))
  register_refines = elim (Bool-cases (is_present (F.node s (user_place F u)))) [
    | inl here ↦
        inr (carries F 1 s _ (registered here) refl (rw (view-some _ _ _ here, register_spec)))
    | inr free ↦ elim (Option-cases (F.mkdir s (user_path u))) [
      | inl e ↦ inl (e, made none e free)
      | inr (t, e) ↦ inr (
          carries F 0 t _ (made (some t) e free) (fresh t e free)
            (rw (view-none _ _ _ free, register_spec)))
    ]
  ]
