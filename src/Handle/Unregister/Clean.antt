-- ===== src/Handle/Unregister/Clean.antt =====
-- What `remove_files_in_directory` leaves below its directory.
use peer_to_peer_fileshare.Base.{
  ℕ, zero, suc, ◌≡◌, refl, sym, ◌∙◌, ap, subst, ◌⊎◌, inl, inr, Bool-cases, Option-cases, true,
  false, Option, none, some, List, [], ◌∷◌, ◌++◌, arith, ◌==◌, ==_iff, list_eq, nat_eq,
}
use peer_to_peer_fileshare.CString.{Text, codes, slash}
use peer_to_peer_fileshare.Posix.{
  Place, Node, absent, file, dir, update, is_present, is_dir, Dirent, EntryType, dt_dir, dt_reg,
  entry_type, lists_name, IsName, IsEntry, AreEntries, FileSystem, IsLawful, IsReliable,
}
use peer_to_peer_fileshare.Handle.Access.{absent_below}
use peer_to_peer_fileshare.Handle.Standing.{absent_of}
use peer_to_peer_fileshare.Handle.Writing.{update_self}
use peer_to_peer_fileshare.Handle.Purge.{
  is_link, entry_path, or_same, delete_entry, purge_entry, purge_loop, remove_files_in_directory,
}
use peer_to_peer_fileshare.Handle.Unregister.Deletion.{
  OnlyDeletes, OnlyDeletes-trans, OnlyDeletes-absent, Fits, Fits-OnlyDeletes,
}
use peer_to_peer_fileshare.Handle.Unregister.Frame.{
  Frames, entry_path_lem, resolve-entry_path, purge_entry_link, purge_entry_name,
  purge_entry-OnlyDeletes, purge_loop-OnlyDeletes, AreEntries-Listed,
  remove_files_in_directory-Frames,
}

file_of : (v : Node) → is_present v ≡ true → dt_reg ≡ entry_type v → (x : Text) × (v ≡ file x)
file_of absent h e = cc
file_of (file x) h e = (x, refl)
file_of dir h e = cc

pub dir_of : (v : Node) → dt_dir ≡ entry_type v → v ≡ dir
dir_of absent e = cc
dir_of (file x) e = cc
dir_of dir e = refl

is_dir_dir : (v : Node) → is_dir v ≡ true → v ≡ dir
is_dir_dir v h = ground arith

pub opens :
    (F : FileSystem) (fuel : ℕ) (s : F.State) (path : Text) (o : Option (List Dirent))
    → F.opendir s path ≡ o
    → remove_files_in_directory F (suc fuel) s path ≡ elim o [
      | none ↦ some s
      | some es ↦ purge_loop F (remove_files_in_directory F fuel) path s es
    ]
unfolding remove_files_in_directory
opens F fuel s path o e =
    ap
      (λ (x : Option (List Dirent)). elim x as (λ _. Option F.State) [
        | none ↦ some s
        | some es ↦ purge_loop F (remove_files_in_directory F fuel) path s es
      ])
      e

pub deleted_dir :
    (F : FileSystem) (below : F.State → Text → Option F.State) (path : Text) (s t : F.State)
    → below s path ≡ some t
    → delete_entry F below path s dt_dir ≡ some (or_same t (F.rmdir t path))
unfolding delete_entry
deleted_dir F below path s t e = rw (e, delete_entry)

pub next_round :
    (F : FileSystem) (below : F.State → Text → Option F.State) (path : Text) (s t : F.State)
    (e : Dirent) (es : List Dirent)
    → purge_entry F below path s e ≡ some t
    → purge_loop F below path s (e ∷ es) ≡ purge_loop F below path t es
unfolding purge_loop
next_round F below path s t e es x =
    ap (λ (o : Option F.State). elim o [ none ↦ none | some v ↦ purge_loop F below path v es ]) x

link_ne_name : (n : Text) → is_link n ≡ true → ¬ IsName n
link_ne_name n k h =
    ground (arith, h.no_dot, h.no_dot_dot, ==_iff n (codes "."), ==_iff n (codes ".."))

pub link_or_name :
    {P : Type 0} {n : Text} → ((n ≡ codes ".") ⊎ (n ≡ codes "..") ⊎ P) → (is_link n ≡ true) ⊎ P
link_or_name (inl e) = inl (rw e)
link_or_name (inr (inl e)) = inl (rw e)
link_or_name (inr (inr x)) = inr x

module _ {F : FileSystem} (L : IsLawful F) (R : IsReliable F) where
  -- A call on fuel for `n` levels of directories returns, and nothing stands below its place then.
  abbrev Cleans : ℕ → (F.State → Text → Option F.State) → Type 0
  Cleans n below =
      (s : F.State) (c : ℕ) (p : Text)
      → Fits n (F.node s) (F.resolve (c ∷ p))
      → (t : F.State) × (below s (c ∷ p) ≡ some t)
        × ((m : Text) → F.node t (m ∷ F.resolve (c ∷ p)) ≡ absent)

  -- `rmdir` of an empty directory, or of nothing.
  gone_dir :
      (s : F.State) (path n : Text) (p : Place)
      → F.resolve path ≡ n ∷ p
      → (F.node s (n ∷ p) ≡ dir) ⊎ (F.node s (n ∷ p) ≡ absent)
      → ((m : Text) → F.node s (m ∷ n ∷ p) ≡ absent)
      → F.node (or_same s (F.rmdir s path)) (n ∷ p) ≡ absent
  gone_dir s path n p r k bare = elim (Option-cases (F.rmdir s path)) [
    | inr (t, e) ↦ rw e (
        ap (λ g. g (n ∷ p)) (L.rmdir_some s path t e).2
        ∙ ap (λ q. update (F.node s) q absent (n ∷ p)) r
        ∙ update_self (F.node s) (n ∷ p) absent)
    | inl e ↦ elim k [ inl d ↦ let (t, ok) = R.rmdir_ok s path n p r d bare in cc | inr a ↦ rw e a ]
  ]

  -- `remove` of a file, or of nothing.
  gone_file :
      (s : F.State) (path n x : Text) (p : Place)
      → F.resolve path ≡ n ∷ p
      → (F.node s (n ∷ p) ≡ file x) ⊎ (F.node s (n ∷ p) ≡ absent)
      → F.node (or_same s (F.remove s path)) (n ∷ p) ≡ absent
  gone_file s path n x p r k = elim (Option-cases (F.remove s path)) [
    | inr (t, e) ↦ rw e (
        ap (λ g. g (n ∷ p)) (L.remove_some s path t e).2
        ∙ ap (λ q. update (F.node s) q absent (n ∷ p)) r
        ∙ update_self (F.node s) (n ∷ p) absent)
    | inl e ↦ elim k [ inl d ↦ let (t, ok) = R.remove_ok s path n x p r d in cc | inr a ↦ rw e a ]
  ]

  module _ (fuel : ℕ) (below : F.State → Text → Option F.State) (sub : Cleans fuel below)
      (frame : Frames L below) (f : Place → Node) (c : ℕ) (p : Text)
      (fits : Fits (suc fuel) f (F.resolve (c ∷ p))) where
    -- One entry of the directory `c ∷ p`, which held `f` when the loop began.
    entry_cleans :
        (s : F.State) (n : Text) (k : EntryType)
        → IsName n
        → is_present (f (n ∷ F.resolve (c ∷ p))) ≡ true
        → k ≡ entry_type (f (n ∷ F.resolve (c ∷ p)))
        → OnlyDeletes (F.resolve (c ∷ p)) f (F.node s)
        → (t : F.State) × (delete_entry F below (entry_path (c ∷ p) n) s k ≡ some t)
          × (F.node t (n ∷ F.resolve (c ∷ p)) ≡ absent)
    unfolding delete_entry
    entry_cleans s n dt_dir h here e d =
        let was : f (n ∷ F.resolve (c ∷ p)) ≡ dir = dir_of _ e in
        let at = L.resolve_child c p n h in
        let deep = Fits-OnlyDeletes fuel _ _ _ _ d (fits n was) in
        let (t, ran, bare) =
          sub s c (p ++ slash ∷ n) (subst (Fits fuel (F.node s)) (sym at) deep) in
        let path = entry_path_lem (c ∷ p) n h in
        let ran' : below s (entry_path (c ∷ p) n) ≡ some t = ap (below s) path ∙ ran in
        let left : (F.node t (n ∷ F.resolve (c ∷ p)) ≡ dir)
            ⊎ (F.node t (n ∷ F.resolve (c ∷ p)) ≡ absent) =
          ground (
            arith,
            d (n ∷ F.resolve (c ∷ p)),
            frame s t c (p ++ slash ∷ n) ran (n ∷ F.resolve (c ∷ p)),
          ) in
        (
          or_same t (F.rmdir t (entry_path (c ∷ p) n)),
          deleted_dir F below _ s t ran',
          gone_dir t _ n _ (resolve-entry_path L c p n h) left
              (subst (λ q. (m : Text) → F.node t (m ∷ q) ≡ absent) at bare),
        )
    entry_cleans s n dt_reg h here e d =
        let (x, was) = file_of (f (n ∷ F.resolve (c ∷ p))) here e in
        (
          _,
          refl,
          gone_file s _ n x _ (resolve-entry_path L c p n h)
              (ground (arith, d (n ∷ F.resolve (c ∷ p)))),
        )

    step_cleans :
        (s : F.State) (e : Dirent)
        → (is_link e.d_name ≡ true) ⊎ (IsName e.d_name × IsEntry f (F.resolve (c ∷ p)) e)
        → OnlyDeletes (F.resolve (c ∷ p)) f (F.node s)
        → (t : F.State) × (purge_entry F below (c ∷ p) s e ≡ some t)
          × (IsName e.d_name → F.node t (e.d_name ∷ F.resolve (c ∷ p)) ≡ absent)
    step_cleans s e (inl link) d =
        (s, purge_entry_link L below c p s e link, λ h. absurd (link_ne_name e.d_name link h))
    step_cleans s e (inr (name, (here, type))) d =
        let (t, ran, gone) = entry_cleans s e.d_name e.d_type name here type d in
        (t, purge_entry_name L below c p s e name ∙ ran, λ h. gone)

    -- The rest of the loop: every name that is still listed is gone in the end.
    loop_cleans :
        (es : List Dirent) (s : F.State)
        → AreEntries f (F.resolve (c ∷ p)) es
        → OnlyDeletes (F.resolve (c ∷ p)) f (F.node s)
        → (t : F.State) × (purge_loop F below (c ∷ p) s es ≡ some t)
          × ((m : Text)
              → IsName m
              → lists_name m es ≡ true
              → F.node t (m ∷ F.resolve (c ∷ p)) ≡ absent)
    loop_cleans [] s a d = (s, unfold purge_loop in refl, λ m h k. cc)
    loop_cleans (e ∷ es) s (listed, once, rest) d =
        let (t, ran, gone) = step_cleans s e (link_or_name listed) d in
        let step =
          purge_entry-OnlyDeletes L below c p frame s t e
            (AreEntries-Listed L f (F.resolve (c ∷ p)) (e ∷ es) (listed, once, rest)).0 ran in
        let (v, ran', gone') = loop_cleans es t rest (OnlyDeletes-trans _ _ _ _ d step) in
        let later =
          purge_loop-OnlyDeletes L below c p frame es t v (AreEntries-Listed L f _ es rest) ran' in
        (
          v,
          next_round F below (c ∷ p) s t e es ran ∙ ran',
          λ m h k. elim (Bool-cases (e.d_name == m)) [
            | inl same ↦
                let is_m = (==_iff e.d_name m).0 same in
                OnlyDeletes-absent (F.resolve (c ∷ p)) _ (F.node t) (F.node v) later (
                  subst (λ x. F.node t (x ∷ F.resolve (c ∷ p)) ≡ absent) is_m
                    (gone (subst IsName (sym is_m) h)))
            | inr other ↦ gone' m h (ground arith)
          ],
        )

  not_dir :
      (s : F.State) (path : Text)
      → F.opendir s path ≡ none
      → is_dir (F.node s (F.resolve path)) ≡ false
  not_dir s path e = elim (Bool-cases (is_dir (F.node s (F.resolve path)))) [
    | inl d ↦ let (es, ok) = R.opendir_ok s path (is_dir_dir _ d) in cc
    | inr n ↦ n
  ]

  -- A call with fuel for the depth of its tree returns with the directory empty.
  pub remove_files_in_directory-Cleans : (fuel : ℕ) → Cleans fuel (remove_files_in_directory F fuel)
  remove_files_in_directory-Cleans zero s c p fits = absurd fits
  remove_files_in_directory-Cleans (suc fuel) s c p fits =
      elim (Option-cases (F.opendir s (c ∷ p))) [
        | inl e ↦
            (s, opens F fuel s (c ∷ p) none e, λ m. absent_below L s _ m (not_dir s (c ∷ p) e))
        | inr (es, e) ↦
            let (here, entries, complete) = L.opendir_some s (c ∷ p) es e in
            let (t, ran, gone) =
              loop_cleans fuel (remove_files_in_directory F fuel)
                (remove_files_in_directory-Cleans fuel) (remove_files_in_directory-Frames L fuel)
                (F.node s) c p fits es s entries (λ q. inl refl) in
            let ran' = opens F fuel s (c ∷ p) (some es) e ∙ ran in
            (
              t,
              ran',
              λ m. elim (Bool-cases (is_present (F.node s (m ∷ F.resolve (c ∷ p))))) [
                | inl there ↦ gone m (L.stands s m _ there).1 (complete m there)
                | inr free ↦
                    OnlyDeletes-absent (F.resolve (c ∷ p)) _ (F.node s) (F.node t)
                      (remove_files_in_directory-Frames L (suc fuel) s t c p ran')
                      (absent_of _ free)
              ],
            )
      ]
