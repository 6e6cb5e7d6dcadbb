-- ===== src/Handle/Refines/Publish.antt =====
-- `handle_publish` against `publish_spec`.
use peer_to_peer_fileshare.Base.{
  ◌≡◌, refl, ◌∙◌, ap, ◌⊎◌, inl, inr, Bool-cases, Option-cases, none, some, true, false, [], ◌∷◌,
  arith,
}
use peer_to_peer_fileshare.CString.{Text}
use peer_to_peer_fileshare.Posix.{file, is_present, IsName, FileSystem, IsLawful}
use peer_to_peer_fileshare.Registry.{publish_spec, set, set_file}
use peer_to_peer_fileshare.Registry.Cases.{publish_offline, publish_again, publish_first}
use peer_to_peer_fileshare.Registry.View.{view, account_at, text_of, view-update_published}
use peer_to_peer_fileshare.Handle.Paths.{user_path, published_path}
use peer_to_peer_fileshare.Handle.Places.{IsUser, base, published_place, resolve-published_path}
use peer_to_peer_fileshare.Handle.Access.{users, access-published_path, Carries, carries}
use peer_to_peer_fileshare.Handle.Standing.{
  unknown, offline, online, standing, text_of_present, absent_of,
}
use peer_to_peer_fileshare.Handle.Writing.{Open, opened, printed, printed_some}
use peer_to_peer_fileshare.Handle.Account.{line, handle_publish}

module _ {F : FileSystem} (L : IsLawful F) (s : F.State) {u f : Text} (h : IsUser u)
    (n : IsName f) where
  pub shows :
      (t : F.State) (got : Text)
      → is_present (F.node s (u ∷ base F)) ≡ true
      → Open L (F.node s) (published_path (user_path u) f) (published_place F u f) t got
      → users F t
        ≡ set u
            (some (record (account_at (F.node s) (base F) u) {
              files = set_file f (some got) (account_at (F.node s) (base F) u).files;
            }))
            (users F s)
  shows t got p o =
      ap (λ g. view g (base F)) o ∙ view-update_published (F.node s) (base F) u f (file got) p

  -- What the file holds after the one `fprintf` on it: the whole line, or else the call failed.
  abbrev pub Written : Text → Text → Type 0
  Written description got =
      (got ≡ line description)
      ⊎ ((t : F.State) × (F.fopen_write s (published_path (user_path u) f) ≡ some t)
          × ((F.fprintf t (published_path (user_path u) f) (line description)).0 ≡ false))

  written :
      (description : Text) (t : F.State)
      → F.fopen_write s (published_path (user_path u) f) ≡ some t
      → (got : Text) × Written description got
        × Open L
            (F.node s)
            (published_path (user_path u) f)
            (published_place F u f)
            (F.fprintf t (published_path (user_path u) f) (line description)).1
            got
  written d t e = elim (Bool-cases (F.fprintf t (published_path (user_path u) f) (line d)).0) [
    | inl ok ↦ (line d, inl refl, printed L _ _ _ t [] (line d) r o ok)
    | inr short ↦
        let (got, shown) = printed_some L (F.node s) _ _ t [] (line d) r o in
        (got, inr (t, e, short), shown)
  ]
    where
      r : F.resolve (published_path (user_path u) f) ≡ published_place F u f
      r = resolve-published_path L h n

      o : Open L (F.node s) (published_path (user_path u) f) (published_place F u f) t []
      o = opened L (F.node s) _ _ s t r refl e

  -- A connected user's new file is published with the given line as its description, or with some
  -- part of it if `fprintf` failed; a user that is not registered, not connected or has published
  -- the name gets code 1, 2 or 3 and nothing changes; or `fopen` of the file fails, with code 4
  -- and nothing changed. The names of the user and of the file are ones that the buffers and the
  -- system hold.
  pub publish_refines :
      (description : Text)
      → (F.fopen_write s (published_path (user_path u) f) ≡ none)
          × (handle_publish F u f description s ≡ (4, s))
        ⊎ ((got : Text) × Written description got
            × Carries F (handle_publish F u f description s) (publish_spec u f got (users F s)))
  unfolding handle_publish
  publish_refines d = elim (standing L s h) [
    | unknown p a v ↦
        inr (line d, inl refl, carries F 1 s _ (ground arith) refl (rw (v, publish_spec)))
    | offline p a c v o ↦ inr (
      line d,
      inl refl,
      carries F 2 s _ (ground arith) refl (publish_offline _ u v f (line d) (ap text_of o)),
    )
    | online x p a c v o ↦ elim (Bool-cases (is_present (F.node s (published_place F u f)))) [
      | inl there ↦ inr (
        line d,
        inl refl,
        carries F 3 s _ (ground (arith, access-published_path L s h n)) refl
            (publish_again _ u v o f (line d) (text_of_present _ there).1),
      )
      | inr free ↦ elim (Option-cases (F.fopen_write s (published_path (user_path u) f))) [
        | inl e ↦ inl (e, ground (arith, access-published_path L s h n))
        | inr (t, e) ↦
            let (got, w, shown) = written d t e in
            inr (
              got,
              w,
              carries F 0 _ _ (ground (arith, access-published_path L s h n)) (shows _ got p shown)
                  (publish_first _ u v o f got (ap text_of (absent_of _ free))),
            )
      ]
    ]
  ]
