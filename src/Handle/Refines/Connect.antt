-- ===== src/Handle/Refines/Connect.antt =====
-- `handle_connect` and `write_connection` against `connect_spec`.
use peer_to_peer_fileshare.Base.{
  ℕ, suc, ◌≡◌, refl, sym, subst, ◌∙◌, ap, ◌⊎◌, inl, inr, Bool-cases, Option-cases, none, some, true,
  false, [], ◌∷◌, ◌++◌, arith,
}
use peer_to_peer_fileshare.Base.Int.{ℤ}
use peer_to_peer_fileshare.CString.{Text}
use peer_to_peer_fileshare.Posix.{file, dir, is_present, update, FileSystem, IsLawful}
use peer_to_peer_fileshare.Registry.{connect_spec, set}
use peer_to_peer_fileshare.Registry.Cases.{connect_again, connect_first}
use peer_to_peer_fileshare.Registry.View.{
  view, account_at, text_of, view-update_connect, view-update_files,
}
use peer_to_peer_fileshare.ConnectFile.{print_int}
use peer_to_peer_fileshare.Handle.Paths.{user_path, connect_path, files_path}
use peer_to_peer_fileshare.Handle.Places.{
  IsUser, base, user_place, connect_place, resolve-connect_path, resolve-files_path,
}
use peer_to_peer_fileshare.Handle.Access.{users, Carries, carries}
use peer_to_peer_fileshare.Handle.Standing.{unknown, offline, online, standing}
use peer_to_peer_fileshare.Handle.Writing.{Open, opened, printed, printed_some}
use peer_to_peer_fileshare.Handle.Account.{line, write_connection, connect_folder, handle_connect}

-- What a whole `connect` file holds.
abbrev pub contact : Text → ℤ → Text
contact address port = line address ++ line (print_int port)

module _ {F : FileSystem} (L : IsLawful F) (s : F.State) {u : Text} (h : IsUser u) where
  abbrev pub Holds : F.State → Text → Type 0
  Holds = Open L (F.node s) (connect_path u) (connect_place F u)

  -- One of the two calls of `fprintf` on the new file fails.
  abbrev pub Short : Text → ℤ → F.State → Type 0
  Short address port t =
      ((F.fprintf t (connect_path u) (line address)).0 ≡ false)
      ⊎ ((F.fprintf (F.fprintf t (connect_path u) (line address)).1 (connect_path u)
            (line (print_int port))).0
          ≡ false)

  -- A call of `write_connection` on the new file: it returns 0 and has written both lines, or another
  -- code.
  write_cases :
      (address : Text) (port : ℤ) (t : F.State)
      → Holds t []
      → ((c : ℕ) × (t' : F.State) × (got : Text) × Short address port t
          × (write_connection F address port (some (connect_path u)) t ≡ (suc c, t'))
          × Holds t' got)
        ⊎ ((t' : F.State) × (write_connection F address port (some (connect_path u)) t ≡ (0, t'))
            × Holds t' (contact address port))
  unfolding write_connection
  write_cases address port t o = elim (Bool-cases (F.fprintf t (connect_path u) (line address)).0) [
    | inr short ↦
        let (got, shown) = printed_some L _ _ _ t [] (line address) r o in
        inl (1, _, got, inl short, rw short, shown)
    | inl ok ↦
        let first = printed L _ _ _ t [] (line address) r o ok in
        elim (Bool-cases
          (F.fprintf (F.fprintf t (connect_path u) (line address)).1 (connect_path u)
            (line (print_int port))).0) [
              | inr short ↦
                  let (got, shown) =
                    printed_some L _ _ _ _ (line address) (line (print_int port)) r first in
                  inl (2, _, got, inr short, rw (ok, short), shown)
              | inl both ↦ inr (
                _,
                rw (ok, both),
                printed L _ _ _ _ (line address) (line (print_int port)) r first both,
              )
            ]
  ]
    where
      r : F.resolve (connect_path u) ≡ connect_place F u
      r = resolve-connect_path L h

  pub shows :
      (t : F.State) (got : Text)
      → is_present (F.node s (u ∷ base F)) ≡ true
      → Holds t got
      → users F t
        ≡ set u (some (record (account_at (F.node s) (base F) u) { online = some got })) (users F s)
  shows t got p o =
      ap (λ g. view g (base F)) o ∙ view-update_connect (F.node s) (base F) u (file got) p

  -- Making the folder for the files changes nothing that the registry shows.
  pub folder : (t t' : F.State) → F.mkdir t (files_path u) ≡ some t' → users F t' ≡ users F t
  folder t t' e =
      ap (λ g. view g (base F))
        ((L.mkdir_some t _ t' e).1 ∙ ap (λ p. update (F.node t) p dir) (resolve-files_path L h))
      ∙ view-update_files (F.node t) (base F) u dir

  folder_cases :
      (t : F.State)
      → (F.mkdir t (files_path u) ≡ none) × (connect_folder F u (0, t) ≡ (3, t))
        ⊎ ((t' : F.State) × (connect_folder F u (0, t) ≡ (0, t')) × (users F t' ≡ users F t))
  unfolding connect_folder
  folder_cases t = elim (Bool-cases (F.access t (files_path u))) [
    | inl there ↦ inr (t, ground arith, refl)
    | inr missing ↦ elim (Option-cases (F.mkdir t (files_path u))) [
      | inl e ↦ inl (e, ground arith)
      | inr (t', e) ↦ inr (t', ground arith, folder t t' e)
    ]
  ]

  pub runs :
      (address : Text) (port : ℤ) (t : F.State)
      → F.access s (user_path u) ≡ true
      → F.access s (connect_path u) ≡ false
      → F.fopen_write s (connect_path u) ≡ some t
      → handle_connect F u port address s
        ≡ connect_folder F u (write_connection F address port (some (connect_path u)) t)
  unfolding handle_connect
  runs address port t a c e = rw (a, c, e)

  stops : (c : ℕ) (t : F.State) → connect_folder F u (suc c, t) ≡ (3, t)
  unfolding connect_folder
  stops c t = refl

  -- Why a call returns 3 and what it leaves: `fopen` fails and nothing changes; or `fprintf` fails or
  -- `mkdir` of the folder for the files does, and the user stays connected with what was written.
  abbrev pub Failed : Text → ℤ → ℕ × F.State → Type 0
  Failed address port r =
      (r.0 ≡ 3)
      × (((F.fopen_write s (connect_path u) ≡ none) × (r.1 ≡ s))
          ⊎ ((t : F.State) × (F.fopen_write s (connect_path u) ≡ some t)
              × (Short address port t ⊎ (F.mkdir r.1 (files_path u) ≡ none))
              × (got : Text) × (users F r.1 ≡ (connect_spec u got (users F s)).1)))

  failed :
      (address : Text) (port : ℤ) (r : ℕ × F.State) (first t : F.State) (got : Text)
      → F.fopen_write s (connect_path u) ≡ some first
      → Short address port first ⊎ (F.mkdir t (files_path u) ≡ none)
      → r ≡ (3, t)
      → is_present (F.node s (user_place F u)) ≡ true
      → users F s u ≡ some (account_at (F.node s) (base F) u)
      → text_of (F.node s (connect_place F u)) ≡ none
      → Holds t got
      → Failed address port r
  failed address port r first t got opens why e p v o shown = (
    ap (λ x. x.0) e,
    inr (
      first,
      opens,
      subst (λ (x : ℕ × F.State). Short address port first ⊎ (F.mkdir x.1 (files_path u) ≡ none))
          (sym e) why,
      got,
      ap (λ x. users F x.1) e
          ∙ shows t got p shown
          ∙ ap (λ x. x.1) (sym (connect_first _ u v got o)),
    ),
  )

  pub connect_refines :
      (address : Text) (port : ℤ)
      → Failed address port (handle_connect F u port address s)
        ⊎ Carries F
            (handle_connect F u port address s)
            (connect_spec u (contact address port) (users F s))
  connect_refines address port = elim (standing L s h) [
    | unknown p a v ↦
        inr (carries F 1 s _ (unfold handle_connect in ground arith) refl (rw (v, connect_spec)))
    | online x p a c v o ↦
        inr
          (carries F 2 s _ (unfold handle_connect in ground arith) refl (connect_again _ u v _ x o))
    | offline p a c v o ↦ elim (Option-cases (F.fopen_write s (connect_path u))) [
      | inl e ↦ inl (unfold handle_connect in (ground arith, inl (e, ground arith)))
      | inr (t, e) ↦
          elim (write_cases address port t
            (opened L (F.node s) _ _ s t (resolve-connect_path L h) refl e)) [
              | inl (n, t', got, short, w, shown) ↦ inl (
                  failed address port _ t t' got e (inl short)
                    (runs address port t a c e ∙ ap (connect_folder F u) w ∙ stops n t') p v
                    (ap text_of o) shown)
              | inr (t', w, shown) ↦ elim (folder_cases t') [
                | inl (none_made, f) ↦ inl (
                    failed address port _ t t' _ e (inr none_made)
                      (runs address port t a c e ∙ ap (connect_folder F u) w ∙ f) p v (ap text_of o)
                      shown)
                | inr (t'', f, same) ↦ inr (
                    carries F 0 t'' _ (runs address port t a c e ∙ ap (connect_folder F u) w ∙ f)
                      (same ∙ shows t' _ p shown) (connect_first _ u v _ (ap text_of o)))
              ]
            ]
    ]
  ]
