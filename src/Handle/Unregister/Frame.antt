-- ===== src/Handle/Unregister/Frame.antt =====
-- What `remove_files_in_directory` changes in the tree, whatever fails.
use peer_to_peer_fileshare.Base.{
  ℕ, zero, suc, ◌+◌, ◌≡◌, refl, sym, ◌∙◌, ap, subst, All, ◌⊎◌, inl, inr, Option-cases, true, Option,
  some, List, [], ◌∷◌, ◌++◌, arith, length, length-append, ==_iff, list_eq, nat_eq,
}
use mathlib.Core.Option.{some-injective}
use peer_to_peer_fileshare.CString.{Text, codes, slash, snprintf_fits}
use peer_to_peer_fileshare.Posix.{
  Place, Node, absent, update, Dirent, EntryType, dt_dir, dt_reg, IsName, IsEntry, AreEntries,
  FileSystem, IsLawful,
}
use peer_to_peer_fileshare.Handle.Purge.{
  is_link, max_filepath_len, entry_path, or_same, delete_entry, purge_entry, purge_loop,
  remove_files_in_directory,
}
use peer_to_peer_fileshare.Handle.Unregister.Deletion.{
  OnlyDeletes, OnlyDeletes-trans, OnlyDeletes-child, OnlyDeletes-update,
}

pub length-filepath :
    (dirpath name : Text) → length (dirpath ++ slash ∷ name) ≡ length dirpath + length name + 1
length-filepath dirpath name = omega (arith, length-append dirpath (slash ∷ name))

-- The buffer `filepath` holds every path that it is filled with.
pub entry_path_lem :
    (dirpath name : Text) → IsName name → entry_path dirpath name ≡ dirpath ++ slash ∷ name
unfolding entry_path
entry_path_lem dirpath name h =
    snprintf_fits (max_filepath_len dirpath) _
      (omega (arith, h.name_max, length-filepath dirpath name))

module _ {F : FileSystem} (L : IsLawful F) where
  pub resolve-entry_path :
      (c : ℕ) (p name : Text)
      → IsName name
      → F.resolve (entry_path (c ∷ p) name) ≡ name ∷ F.resolve (c ∷ p)
  resolve-entry_path c p name h =
      ap F.resolve (entry_path_lem (c ∷ p) name h) ∙ L.resolve_child c p name h

  -- What a recursive call, or a whole call, does at each directory.
  abbrev pub Frames : (F.State → Text → Option F.State) → Type 0
  Frames below =
      (s t : F.State) (c : ℕ) (p : Text)
      → below s (c ∷ p) ≡ some t
      → OnlyDeletes (F.resolve (c ∷ p)) (F.node s) (F.node t)

  rmdir-OnlyDeletes :
      (s : F.State) (path n : Text) (p : Place)
      → F.resolve path ≡ n ∷ p
      → OnlyDeletes p (F.node s) (F.node (or_same s (F.rmdir s path)))
  rmdir-OnlyDeletes s path n p r = elim (Option-cases (F.rmdir s path)) [
    | inl e ↦ rw e (λ q. inl refl)
    | inr (t, e) ↦ rw e (
        OnlyDeletes-update n p _ _
          ((L.rmdir_some s path t e).2 ∙ ap (λ q. update (F.node s) q absent) r))
  ]

  remove-OnlyDeletes :
      (s : F.State) (path n : Text) (p : Place)
      → F.resolve path ≡ n ∷ p
      → OnlyDeletes p (F.node s) (F.node (or_same s (F.remove s path)))
  remove-OnlyDeletes s path n p r = elim (Option-cases (F.remove s path)) [
    | inl e ↦ rw e (λ q. inl refl)
    | inr (t, e) ↦ rw e (
        OnlyDeletes-update n p _ _
          ((L.remove_some s path t e).2 ∙ ap (λ q. update (F.node s) q absent) r))
  ]

  -- An entry that is listed: `.`, `..`, or a name.
  abbrev pub Listed : Dirent → Type 0
  Listed e = (is_link e.d_name ≡ true) ⊎ IsName e.d_name

  module _ (below : F.State → Text → Option F.State) (c : ℕ) (p : Text) where
    pub purge_entry_link :
        (s : F.State) (e : Dirent)
        → is_link e.d_name ≡ true
        → purge_entry F below (c ∷ p) s e ≡ some s
    unfolding purge_entry
    purge_entry_link s e h = ground arith

    pub purge_entry_name :
        (s : F.State) (e : Dirent)
        → IsName e.d_name
        → purge_entry F below (c ∷ p) s e
          ≡ delete_entry F below (entry_path (c ∷ p) e.d_name) s e.d_type
    unfolding purge_entry
    purge_entry_name s e h = ground (
      arith,
      h.name_max,
      h.no_dot,
      h.no_dot_dot,
      ==_iff e.d_name (codes "."),
      ==_iff e.d_name (codes ".."),
    )

    delete_entry-OnlyDeletes :
        Frames below
        → (s t : F.State) (n : Text) (k : EntryType) → IsName n
        → delete_entry F below (entry_path (c ∷ p) n) s k ≡ some t
        → OnlyDeletes (F.resolve (c ∷ p)) (F.node s) (F.node t)
    unfolding delete_entry
    delete_entry-OnlyDeletes sub s t n dt_reg h e =
        subst (λ x. OnlyDeletes (F.resolve (c ∷ p)) (F.node s) (F.node x)) (some-injective _ _ e)
          (remove-OnlyDeletes s _ n _ (resolve-entry_path c p n h))
    delete_entry-OnlyDeletes sub s t n dt_dir h e =
        elim (Option-cases (below s (entry_path (c ∷ p) n))) [
          | inl b ↦ cc
          | inr (v, b) ↦
              let inner =
                sub s v c (p ++ slash ∷ n) (ap (below s) (sym (entry_path_lem (c ∷ p) n h)) ∙ b) in
              let outer = rmdir-OnlyDeletes v _ n _ (resolve-entry_path c p n h) in
              subst (λ x. OnlyDeletes (F.resolve (c ∷ p)) (F.node s) (F.node x)) (ground arith)
                (OnlyDeletes-trans _ _ _ _
                  (OnlyDeletes-child n _ _ _ (
                    subst (λ q. OnlyDeletes q (F.node s) (F.node v)) (L.resolve_child c p n h)
                      inner))
                  outer)
        ]

    pub purge_entry-OnlyDeletes :
        Frames below
        → (s t : F.State) (e : Dirent) → Listed e
        → purge_entry F below (c ∷ p) s e ≡ some t
        → OnlyDeletes (F.resolve (c ∷ p)) (F.node s) (F.node t)
    purge_entry-OnlyDeletes sub s t e (inl h) k =
        subst (λ x. OnlyDeletes (F.resolve (c ∷ p)) (F.node s) (F.node x))
          (some-injective _ _ (sym (purge_entry_link s e h) ∙ k)) (λ q. inl refl)
    purge_entry-OnlyDeletes sub s t e (inr h) k =
        delete_entry-OnlyDeletes sub s t e.d_name e.d_type h (sym (purge_entry_name s e h) ∙ k)

    pub purge_loop-OnlyDeletes :
        Frames below
        → (es : List Dirent) (s t : F.State) → All Listed es
        → purge_loop F below (c ∷ p) s es ≡ some t
        → OnlyDeletes (F.resolve (c ∷ p)) (F.node s) (F.node t)
    unfolding purge_loop
    purge_loop-OnlyDeletes sub [] s t a k =
        subst (λ x. OnlyDeletes (F.resolve (c ∷ p)) (F.node s) (F.node x)) (some-injective _ _ k)
          (λ q. inl refl)
    purge_loop-OnlyDeletes sub (e ∷ es) s t (a, b) k =
        elim (Option-cases (purge_entry F below (c ∷ p) s e)) [
          | inl x ↦ cc
          | inr (v, x) ↦
              OnlyDeletes-trans _ _ _ _ (purge_entry-OnlyDeletes sub s v e a x)
                (purge_loop-OnlyDeletes sub es v t b (ground arith))
        ]

  pub AreEntries-Listed :
      (f : Place → Node) (p : Place) (es : List Dirent) → AreEntries f p es → All Listed es
  AreEntries-Listed f p [] h = tt
  AreEntries-Listed f p (e ∷ es) (a, b, c) = (listed a, AreEntries-Listed f p es c)
    where
      listed :
          ((e.d_name ≡ codes ".") ⊎ (e.d_name ≡ codes "..") ⊎ (IsName e.d_name × IsEntry f p e))
          → Listed e
      listed (inl d) = inl (rw d)
      listed (inr (inl d)) = inl (rw d)
      listed (inr (inr n)) = inr n.0

  -- Whatever fails, a call deletes things under the directory that it is given and does nothing else.
  pub remove_files_in_directory-Frames : (fuel : ℕ) → Frames (remove_files_in_directory F fuel)
  unfolding remove_files_in_directory
  remove_files_in_directory-Frames zero s t c p k = cc
  remove_files_in_directory-Frames (suc fuel) s t c p k =
      elim (Option-cases (F.opendir s (c ∷ p))) [
        | inl e ↦
            subst (λ x. OnlyDeletes (F.resolve (c ∷ p)) (F.node s) (F.node x)) (ground arith)
              (λ q. inl refl)
        | inr (es, e) ↦
            purge_loop-OnlyDeletes (remove_files_in_directory F fuel) c p
              (remove_files_in_directory-Frames fuel) es s t
              (AreEntries-Listed (F.node s) (F.resolve (c ∷ p)) es (L.opendir_some s _ es e).1)
              (ground arith)
      ]
