-- ===== src/Handle/Unregister/Ends.antt =====
-- `remove_files_in_directory` and `handle_unregister` return, whatever calls fail.
use peer_to_peer_fileshare.Base.{
  ℕ, zero, suc, ◌≡◌, refl, sym, ◌∙◌, ap, subst, ◌⊎◌, inl, inr, Bool-cases, Option-cases, true,
  Option, none, some, List, [], ◌∷◌, ◌++◌, nat_eq, list_eq,
}
use peer_to_peer_fileshare.CString.{Text, slash}
use peer_to_peer_fileshare.Posix.{
  Place, Node, is_present, Dirent, EntryType, dt_dir, dt_reg, entry_type, IsName, IsEntry,
  AreEntries, FileSystem, IsLawful,
}
use peer_to_peer_fileshare.Handle.Places.{IsUser, user_place}
use peer_to_peer_fileshare.Handle.Paths.{user_path}
use peer_to_peer_fileshare.Handle.Purge.{
  is_link, entry_path, delete_entry, purge_entry, purge_loop, remove_files_in_directory,
  handle_unregister,
}
use peer_to_peer_fileshare.Handle.Unregister.Deletion.{
  OnlyDeletes, OnlyDeletes-trans, Fits, Fits-OnlyDeletes,
}
use peer_to_peer_fileshare.Handle.Unregister.Frame.{
  Frames, entry_path_lem, purge_entry_link, purge_entry_name, purge_entry-OnlyDeletes,
  AreEntries-Listed, remove_files_in_directory-Frames,
}
use peer_to_peer_fileshare.Handle.Unregister.Clean.{
  dir_of, opens, deleted_dir, next_round, link_or_name,
}
use peer_to_peer_fileshare.Handle.Unregister.Accounts.{
  inner, same_path, same_place, unknown_user, removed,
}

module _ {F : FileSystem} (L : IsLawful F) where
  -- A call on fuel for `n` levels of directories returns.
  abbrev Returns : ℕ → (F.State → Text → Option F.State) → Type 0
  Returns n below =
      (s : F.State) (c : ℕ) (p : Text)
      → Fits n (F.node s) (F.resolve (c ∷ p))
      → (t : F.State) × (below s (c ∷ p) ≡ some t)

  module _ (fuel : ℕ) (below : F.State → Text → Option F.State) (sub : Returns fuel below)
      (frame : Frames L below) (f : Place → Node) (c : ℕ) (p : Text)
      (fits : Fits (suc fuel) f (F.resolve (c ∷ p))) where
    -- One entry of the directory `c ∷ p`, which held `f` when the loop began.
    entry_returns :
        (s : F.State) (n : Text) (k : EntryType)
        → IsName n
        → k ≡ entry_type (f (n ∷ F.resolve (c ∷ p)))
        → OnlyDeletes (F.resolve (c ∷ p)) f (F.node s)
        → (t : F.State) × (delete_entry F below (entry_path (c ∷ p) n) s k ≡ some t)
    unfolding delete_entry
    entry_returns s n dt_reg h e d = (_, refl)
    entry_returns s n dt_dir h e d =
        let deep = Fits-OnlyDeletes fuel _ _ _ _ d (fits n (dir_of _ e)) in
        let (t, ran) =
          sub s c (p ++ slash ∷ n)
            (subst (Fits fuel (F.node s)) (sym (L.resolve_child c p n h)) deep) in
        (_, deleted_dir F below _ s t (ap (below s) (entry_path_lem (c ∷ p) n h) ∙ ran))

    step_returns :
        (s : F.State) (e : Dirent)
        → (is_link e.d_name ≡ true) ⊎ (IsName e.d_name × IsEntry f (F.resolve (c ∷ p)) e)
        → OnlyDeletes (F.resolve (c ∷ p)) f (F.node s)
        → (t : F.State) × (purge_entry F below (c ∷ p) s e ≡ some t)
    step_returns s e (inl link) d = (s, purge_entry_link L below c p s e link)
    step_returns s e (inr (name, (here, type))) d =
        let (t, ran) = entry_returns s e.d_name e.d_type name type d in
        (t, purge_entry_name L below c p s e name ∙ ran)

    loop_returns :
        (es : List Dirent) (s : F.State)
        → AreEntries f (F.resolve (c ∷ p)) es
        → OnlyDeletes (F.resolve (c ∷ p)) f (F.node s)
        → (t : F.State) × (purge_loop F below (c ∷ p) s es ≡ some t)
    loop_returns [] s a d = (s, unfold purge_loop in refl)
    loop_returns (e ∷ es) s (listed, once, rest) d =
        let (t, ran) = step_returns s e (link_or_name listed) d in
        let step =
          purge_entry-OnlyDeletes L below c p frame s t e
            (AreEntries-Listed L f (F.resolve (c ∷ p)) (e ∷ es) (listed, once, rest)).0 ran in
        let (v, ran') = loop_returns es t rest (OnlyDeletes-trans _ _ _ _ d step) in
        (v, next_round F below (c ∷ p) s t e es ran ∙ ran')

  remove_files_in_directory-Returns : (fuel : ℕ) → Returns fuel (remove_files_in_directory F fuel)
  remove_files_in_directory-Returns zero s c p fits = absurd fits
  remove_files_in_directory-Returns (suc fuel) s c p fits =
      elim (Option-cases (F.opendir s (c ∷ p))) [
        | inl e ↦ (s, opens F fuel s (c ∷ p) none e)
        | inr (es, e) ↦
            let (here, entries, complete) = L.opendir_some s (c ∷ p) es e in
            let (t, ran) =
              loop_returns fuel (remove_files_in_directory F fuel)
                (remove_files_in_directory-Returns fuel) (remove_files_in_directory-Frames L fuel)
                (F.node s) c p fits es s entries (λ q. inl refl) in
            (t, opens F fuel s (c ∷ p) (some es) e ∙ ran)
      ]

  module _ (s : F.State) {u : Text} (h : IsUser u) where
    -- On fuel for the depth of the user's directory `handle_unregister` returns, whatever calls fail. The
    -- name is one that the buffers hold.
    pub handle_unregister-returns :
        (fuel : ℕ)
        → Fits fuel (F.node s) (user_place F u)
        → (r : ℕ × F.State) × (handle_unregister F fuel u s ≡ some r)
    handle_unregister-returns fuel fits =
        elim (Bool-cases (is_present (F.node s (user_place F u)))) [
          | inr free ↦ (_, unknown_user L s h fuel free)
          | inl p ↦
              let (t, ran) =
                remove_files_in_directory-Returns fuel s b'.' (inner L s h)
                  (subst (Fits fuel (F.node s)) (sym (same_place L s h)) fits) in
              let ran' = ap (remove_files_in_directory F fuel s) (same_path L s h) ∙ ran in
              elim (Option-cases (F.rmdir t (user_path u))) [
                | inl e ↦ (_, removed L s h fuel t none p ran' e)
                | inr (v, e) ↦ (_, removed L s h fuel t (some v) p ran' e)
              ]
        ]
