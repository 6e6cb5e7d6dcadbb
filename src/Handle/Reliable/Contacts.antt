-- ===== src/Handle/Reliable/Contacts.antt =====
-- `handle_connect` on a reliable system.
use peer_to_peer_fileshare.Base.{
  ◌≡◌, refl, sym, subst, ◌∙◌, ap, inl, inr, Bool-cases, true, false, some, [], ◌∷◌, arith, ◌==◌,
  list_eq, nat_eq,
}
use peer_to_peer_fileshare.Base.Int.{ℤ}
use peer_to_peer_fileshare.CString.{Text, codes}
use peer_to_peer_fileshare.Posix.{
  Place, Node, dir, is_present, update, FileSystem, IsLawful, IsReliable,
}
use peer_to_peer_fileshare.Registry.{connect_spec}
use peer_to_peer_fileshare.Registry.Cases.{connect_again, connect_first}
use peer_to_peer_fileshare.Registry.View.{text_of, ne_length}
use peer_to_peer_fileshare.ConnectFile.{print_int}
use peer_to_peer_fileshare.Handle.Paths.{connect_path, files_path}
use peer_to_peer_fileshare.Handle.Places.{
  IsUser, base, user_place, connect_place, files_place, connect-IsName, files-IsName,
  resolve-connect_path, resolve-files_path,
}
use peer_to_peer_fileshare.Handle.Access.{users, access-files_path}
use peer_to_peer_fileshare.Handle.Standing.{unknown, offline, online, standing, absent_of}
use peer_to_peer_fileshare.Handle.Writing.{opened, printed, holds}
use peer_to_peer_fileshare.Handle.Account.{line, write_connection, connect_folder, handle_connect}
use peer_to_peer_fileshare.Handle.Refines.Connect.{contact, Holds, shows, folder, runs}
use peer_to_peer_fileshare.Handle.Layout.{IsLaid, IsLaid-online, update_same}
use peer_to_peer_fileshare.Handle.Reliable.Does.{Laid, Does, does}

module _ {F : FileSystem} (L : IsLawful F) (R : IsReliable F) (s : F.State) (laid : Laid F s)
    {u : Text} (h : IsUser u) where
  -- Both lines are written to the new file.
  written :
      (address : Text) (port : ℤ) (t : F.State)
      → Holds L s h t []
      → (t' : F.State) × (write_connection F address port (some (connect_path u)) t ≡ (0, t'))
        × Holds L s h t' (contact address port)
  unfolding write_connection
  written address port t o =
      let r = resolve-connect_path L h in
      let one = R.fprintf_ok t (connect_path u) (line address) [] (holds L _ _ _ t [] r o) in
      let first = printed L (F.node s) _ _ t [] (line address) r o one in
      let two =
        R.fprintf_ok _ (connect_path u) (line (print_int port)) (line address)
          (holds L _ _ _ _ (line address) r first) in
      (
        _,
        rw (one, two),
        printed L (F.node s) _ _ _ (line address) (line (print_int port)) r first two,
      )

  module _ (p : is_present (F.node s (user_place F u)) ≡ true) (t : F.State) (x : Text)
      (o : Holds L s h t x) where
    elsewhere : (q : Place) → (q == connect_place F u) ≡ false → F.node t q ≡ F.node s q
    elsewhere q e = ap (λ (f : Place → Node). f q) o ∙ rw e refl

    home : F.node t (u ∷ base F) ≡ dir
    home =
        elsewhere (u ∷ base F) (ne_length (u ∷ base F) (codes "connect" ∷ u ∷ base F) (omega arith))
        ∙ (laid.kept u).home_dir p

    with_folder : IsLaid (update (F.node t) (files_place F u) dir) (base F)
    with_folder =
        subst (λ g. IsLaid (update g (files_place F u) dir) (base F)) (sym o)
          (IsLaid-online (F.node s) (base F) laid u x)

    there_before : is_present (F.node t (files_place F u)) ≡ true → F.node t (files_place F u) ≡ dir
    there_before e =
        elsewhere (files_place F u) refl
        ∙ (laid.kept u).folder_dir (sym (ap is_present (elsewhere (files_place F u) refl)) ∙ e)

    made_folder :
        (t' : F.State)
        → F.mkdir t (files_path u) ≡ some t'
        → F.node t' ≡ update (F.node t) (files_place F u) dir
    made_folder t' e =
        (L.mkdir_some t (files_path u) t' e).1
        ∙ ap (λ q. update (F.node t) q dir) (resolve-files_path L h)

    -- The folder for the files is there or made.
    foldered :
        (t' : F.State) × (connect_folder F u (0, t) ≡ (0, t'))
        × (users F t' ≡ users F t)
        × Laid F t'
    unfolding connect_folder
    foldered = elim (Bool-cases (is_present (F.node t (files_place F u)))) [
      | inl there ↦ (
        t,
        rw (access-files_path L t h, there),
        refl,
        subst (λ f. IsLaid f (base F)) (update_same (F.node t) _ dir (there_before there))
            with_folder,
      )
      | inr missing ↦
          let (t', e) =
            R.mkdir_ok t (files_path u) (codes "files") (u ∷ base F) files-IsName
              (resolve-files_path L h) home (absent_of _ missing) in
          (
            t',
            rw (access-files_path L t h, missing, e),
            folder L s h t t' e,
            subst (λ f. IsLaid f (base F)) (sym (made_folder t' e)) with_folder,
          )
    ]

  pub connect-Does :
      (address : Text) (port : ℤ)
      → Does F
          (handle_connect F u port address s)
          (connect_spec u (contact address port) (users F s))
  connect-Does address port = elim (standing L s h) [
    | unknown p a v ↦
        does F 1 s _ (unfold handle_connect in ground arith) refl (rw (v, connect_spec)) laid
    | online x p a c v o ↦
        does F 2 s _ (unfold handle_connect in ground arith) refl (connect_again _ u v _ x o) laid
    | offline p a c v o ↦
        let (t, e) =
          R.fopen_write_ok s (connect_path u) (codes "connect") (u ∷ base F) connect-IsName
            (resolve-connect_path L h) ((laid.kept u).home_dir p) (λ d. cc) in
        let (t', w, shown) =
          written address port t (opened L (F.node s) _ _ s t (resolve-connect_path L h) refl e) in
        let (t'', f, same, kept) = foldered p t' _ shown in
        does F 0 t'' _ (runs L s h address port t a c e ∙ ap (connect_folder F u) w ∙ f)
          (same ∙ shows L s h t' _ p shown) (connect_first _ u v _ (ap text_of o)) kept
  ]
