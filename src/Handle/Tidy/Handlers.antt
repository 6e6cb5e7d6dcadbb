-- ===== src/Handle/Tidy/Handlers.antt =====
-- Every handler keeps the properties of the tree that no change which the server makes can break.
use peer_to_peer_fileshare.Base.{
  ◌<◌, ◌≡◌, sym, subst, ap, ◌∙◌, refl, none, some, [], length, arith, Bool-cases, Option-cases, inl,
  inr, ℕ, zero, suc, if◌then◌else◌,
}
use peer_to_peer_fileshare.Base.Int.{ℤ}
use peer_to_peer_fileshare.CString.{Text}
use peer_to_peer_fileshare.Posix.{Place, Node, absent, dir, update, IsName, FileSystem, IsLawful}
use peer_to_peer_fileshare.ConnectFile.{print_int}
use peer_to_peer_fileshare.Handle.Paths.{user_path, connect_path, files_path, published_path}
use peer_to_peer_fileshare.Handle.Places.{
  IsUser, base, connect_place, published_place, resolve-user_path, resolve-connect_path,
  resolve-files_path, resolve-published_path,
}
use peer_to_peer_fileshare.Handle.Writing.{Open, opened, printed_some}
use peer_to_peer_fileshare.Handle.Account.{
  line, handle_register, write_connection, connect_folder, handle_connect, handle_publish,
  handle_delete, handle_disconnect,
}
use peer_to_peer_fileshare.Handle.Tidy.Stable.{IsStable}

module _ {F : FileSystem} (L : IsLawful F) (P : (Place → Node) → Type 0)
    (C : IsStable (base F) P) where
  over :
      (f : Place → Node) (t : F.State) (p q : Place) (v : Node)
      → F.node t ≡ update f p v
      → p ≡ q
      → P (update f q v)
      → P (F.node t)
  over f t p q v e r h = subst (λ g. P g) (sym (e ∙ ap (λ x. update f x v) r)) h

  removed-keeps :
      (s t : F.State) (path : Text) (p : Place)
      → F.resolve path ≡ p
      → length (base F) < length p
      → P (F.node s)
      → F.remove s path ≡ some t
      → P (F.node t)
  removed-keeps s t path p r apart h e =
      over (F.node s) t _ p absent (L.remove_some s path t e).2 r (C.gone (F.node s) p apart h)

  module _ {u : Text} (k : IsUser u) (s : F.State) (h : P (F.node s)) where
    pub register-keeps : P (F.node (handle_register F u s).1)
    unfolding handle_register
    register-keeps = elim (Bool-cases (F.access s (user_path u))) [
      | inl there ↦ rw there h
      | inr free ↦ elim (Option-cases (F.mkdir s (user_path u))) [
        | inl e ↦ rw (free, e) h
        | inr (t, e) ↦
            rw (free, e)
              (over (F.node s) t _ _ dir (L.mkdir_some s _ t e).1 (resolve-user_path L k)
                (C.home (F.node s) u h))
      ]
    ]

    -- The two tests that the other handlers begin with.
    standing-keeps :
        (r : ℕ × F.State)
        → P (F.node r.1)
        → (let x : ℕ × F.State =
              if F.access s (user_path u)
              then if F.access s (connect_path u) then r else (2, s)
              else (1, s) in
            P (F.node x.1))
    standing-keeps r g = elim (Bool-cases (F.access s (user_path u))) [
      | inr x ↦ rw x h
      | inl x ↦ elim (Bool-cases (F.access s (connect_path u))) [
        | inr y ↦ rw (x, y) h
        | inl y ↦ rw (x, y) g
      ]
    ]

    removal_tried :
        (c : ℕ) (path : Text) (p : Place)
        → F.resolve path ≡ p
        → length (base F) < length p
        → (r : ℕ × F.State) → r ≡ elim (F.remove s path) [ none ↦ (c, s) | some t ↦ (0, t) ]
        → P (F.node r.1)
    removal_tried c path p at apart r e = elim (Option-cases (F.remove s path)) [
      | inl f ↦ rw (e, f) h
      | inr (t, f) ↦ rw (e, f) (removed-keeps s t path p at apart h f)
    ]

    pub disconnect-keeps : P (F.node (handle_disconnect F u s).1)
    unfolding handle_disconnect
    disconnect-keeps =
        standing-keeps _ (removal_tried 3 _ _ (resolve-connect_path L k) (omega arith) _ refl)

    -- The `connect` file is open.
    connecting :
        (t : F.State) (got : Text)
        → Open L (F.node s) (connect_path u) (connect_place F u) t got
        → P (F.node t)
    connecting t got o = subst (λ g. P g) (sym o) (C.contact (F.node s) u got h)

    write-keeps :
        (address : Text) (port : ℤ) (t : F.State)
        → Open L (F.node s) (connect_path u) (connect_place F u) t []
        → P (F.node (write_connection F address port (some (connect_path u)) t).1)
    unfolding write_connection
    write-keeps address port t o =
        let r = resolve-connect_path L k in
        let (x, one) = printed_some L _ _ _ t [] (line address) r o in
        let (y, two) = printed_some L _ _ _ _ x (line (print_int port)) r one in
        ground (arith, connecting _ x one, connecting _ y two)

    folder-keeps : (r : ℕ × F.State) → P (F.node r.1) → P (F.node (connect_folder F u r).1)
    unfolding connect_folder
    folder-keeps (suc c, t) g = g
    folder-keeps (zero, t) g = elim (Bool-cases (F.access t (files_path u))) [
      | inl there ↦ rw there g
      | inr free ↦ elim (Option-cases (F.mkdir t (files_path u))) [
        | inl e ↦ rw (free, e) g
        | inr (v, e) ↦
            rw (free, e)
              (over (F.node t) v _ _ dir (L.mkdir_some t _ v e).1 (resolve-files_path L k)
                (C.folder (F.node t) u g))
      ]
    ]

    pub connect-keeps :
        (port : ℤ) (address : Text) → P (F.node (handle_connect F u port address s).1)
    unfolding handle_connect
    connect-keeps port address = elim (Bool-cases (F.access s (user_path u))) [
      | inr x ↦ rw x h
      | inl x ↦ elim (Bool-cases (F.access s (connect_path u))) [
        | inl y ↦ rw (x, y) h
        | inr y ↦ elim (Option-cases (F.fopen_write s (connect_path u))) [
          | inl e ↦ rw (x, y, e) h
          | inr (t, e) ↦
              rw (x, y, e)
                (folder-keeps _ (
                  write-keeps address port t
                    (opened L (F.node s) _ _ s t (resolve-connect_path L k) refl e)))
        ]
      ]
    ]

    module _ {f : Text} (n : IsName f) where
      publishing :
          (t : F.State) (got : Text)
          → Open L (F.node s) (published_path (user_path u) f) (published_place F u f) t got
          → P (F.node t)
      publishing t got o = subst (λ g. P g) (sym o) (C.published (F.node s) u f got h)

      pub publish-keeps : (d : Text) → P (F.node (handle_publish F u f d s).1)
      unfolding handle_publish
      publish-keeps d =
          standing-keeps _ (elim (Bool-cases (F.access s (published_path (user_path u) f))) [
            | inl y ↦ rw y h
            | inr y ↦ elim (Option-cases (F.fopen_write s (published_path (user_path u) f))) [
              | inl e ↦ rw (y, e) h
              | inr (t, e) ↦
                  let r = resolve-published_path L k n in
                  let (x, o) =
                    printed_some L _ _ _ t [] (line d) r (opened L (F.node s) _ _ s t r refl e) in
                  rw (y, e) (publishing _ x o)
            ]
          ])

      pub delete-keeps : P (F.node (handle_delete F u f s).1)
      unfolding handle_delete
      delete-keeps =
          standing-keeps _ (elim (Bool-cases (F.access s (published_path (user_path u) f))) [
            | inr y ↦ rw y h
            | inl y ↦ rw y (removal_tried 4 _ _ (resolve-published_path L k n) (omega arith) _ refl)
          ])
