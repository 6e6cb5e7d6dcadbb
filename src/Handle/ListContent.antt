-- ===== src/Handle/ListContent.antt =====
-- What `handle_list_content` counts and prints, by the registry and the order of the directory.
mod Rounds
pub use Rounds.{file_of, content_text, content_count}
use Rounds.{
  file_text, told, lines_of, one_of, under_three, told_file, present-text_of, skips_link, started,
  prints,
}
use peer_to_peer_fileshare.Base.{
  ℕ, ◌+◌, ◌≡◌, refl, sym, subst, ◌∙◌, ap, ◌⊎◌, inl, inr, Bool-cases, true, false, Option, none,
  some, List, [], ◌∷◌, ◌++◌, append_assoc, append-nil, arith, ◌==◌, ==_iff, ==_refl, list_eq,
  nat_eq,
}
use peer_to_peer_fileshare.CString.{Text, codes, buffer_size}
use peer_to_peer_fileshare.Posix.{
  Place, Node, absent, file, dir, is_present, update, IsName, Dirent, dt_reg, entry_type,
  lists_name, IsEntry, AreEntries, FileSystem, IsLawful, IsReliable,
}
use peer_to_peer_fileshare.Registry.{Account, Registry}
use peer_to_peer_fileshare.Registry.View.{text_of, view-some}
use peer_to_peer_fileshare.Handle.Paths.{
  data_directory, user_path, connect_path, files_path, content_path,
}
use peer_to_peer_fileshare.Handle.Places.{
  IsUser, base, files_place, published_place, resolve-data_directory, resolve-files_path,
  resolve-content_path,
}
use peer_to_peer_fileshare.Handle.Access.{users, access-user_path}
use peer_to_peer_fileshare.Handle.Standing.{absent_of}
use peer_to_peer_fileshare.Handle.Unregister.Clean.{link_or_name}
use peer_to_peer_fileshare.Handle.Writing.{Open, printed, update_self}
use peer_to_peer_fileshare.Handle.Purge.{is_link}
use peer_to_peer_fileshare.Handle.Listing.{
  go, each_entry, fgets, content_start, content_end, list_file, handle_list_content,
}
use peer_to_peer_fileshare.Handle.ListUsers.Rounds.{
  NamesEach, AreEntries-AreDistinct, each_entry-go, update_same, not_name-is_link, name-is_link,
}
use peer_to_peer_fileshare.Handle.Unregister.{under}
use peer_to_peer_fileshare.Handle.GetFile.{IsOnline, online_tests}

module _ {F : FileSystem} (L : IsLawful F) (s : F.State) {owner : Text} (k : IsUser owner)
    (here : is_present (F.node s (owner ∷ base F)) ≡ true) where
  pub file_at :
      (f : Text) → file_of (users F s) owner f ≡ text_of (F.node s (published_place F owner f))
  file_at f = ap (file_text f) (view-some (F.node s) (base F) owner here)

  module _ (R : IsReliable F) (content_list old : Text)
      (apart : under (base F) (F.resolve content_list) ≡ false)
      (readable : (f x : Text)
        → file_of (users F s) owner f ≡ some x
        → (d : Text) × (fgets buffer_size x ≡ some d)) where
    abbrev Printed : F.State → Text → Type 0
    Printed = Open L (F.node s) content_list (F.resolve content_list)

    unlike : (f : Text) → (published_place F owner f == F.resolve content_list) ≡ false
    unlike f = elim (Bool-cases (published_place F owner f == F.resolve content_list)) [
      | inr differ ↦ differ
      | inl same ↦ cc (
        sym (under_three (base F) f (codes "files") owner),
        ap (under (base F)) ((==_iff (published_place F owner f) (F.resolve content_list)).0 same),
        apart,
      )
    ]

    kept :
        (t : F.State) (x f : Text)
        → Printed t x
        → F.node t (published_place F owner f) ≡ F.node s (published_place F owner f)
    kept t x f o = ap (λ g. g (published_place F owner f)) o ∙ rw (unlike f) refl

    writes :
        (t : F.State) (x y : Text) → Printed t x → Printed (F.fprintf t content_list y).1 (x ++ y)
    writes t x y o = printed L (F.node s) content_list _ t x y refl o (
        R.fprintf_ok t content_list y x (
          ap (λ g. g (F.resolve content_list)) o
          ∙ update_self (F.node s) (F.resolve content_list) (file x)))

    -- What one round of the loop is to do.
    abbrev RoundDone : Dirent → ℕ → F.State → Text → Type 0
    RoundDone e n t x =
        (t' : F.State) × (list_file F (user_path owner) content_list e n t
          ≡ go (n + one_of (told (file_of (users F s) owner e.d_name))) t')
        × Printed t' (x ++ lines_of e.d_name (told (file_of (users F s) owner e.d_name)))

    quiet :
        (e : Dirent) (n : ℕ) (t : F.State) (x : Text)
        → list_file F (user_path owner) content_list e n t ≡ go n t
        → file_of (users F s) owner e.d_name ≡ none
        → Printed t x
        → RoundDone e n t x
    quiet e n t x run off o =
        let none_more : n ≡ n + 0 = omega arith in
        (t, rw off (run ∙ ap (λ m. go m t) none_more), rw (off, append-nil) o)

    round :
        (e : Dirent) (n : ℕ) (t : F.State) (x : Text)
        → ((is_link e.d_name ≡ true)
            ⊎ (IsName e.d_name × IsEntry (F.node s) (files_place F owner) e))
        → Printed t x
        → RoundDone e n t x
    round e n t x (inl link) o =
        quiet e n t x (skips_link F (user_path owner) content_list e n t link) nothing o
      where
        nothing : file_of (users F s) owner e.d_name ≡ none
        nothing = elim (Bool-cases (is_present (F.node s (published_place F owner e.d_name)))) [
          | inl p ↦
              absurd
                (not_name-is_link e.d_name link (L.stands s e.d_name (files_place F owner) p).1)
          | inr off ↦ file_at e.d_name ∙ ap text_of (absent_of _ off)
        ]
    round e n t x (inr (name, (there, type))) o =
        let (y, shown) = present-text_of (F.node s (published_place F owner e.d_name)) there in
        let (d, line) = readable e.d_name y (file_at e.d_name ∙ shown) in
        let held = told_file (F.node s (published_place F owner e.d_name)) y d shown line in
        let begun = writes t x (content_start e.d_name) o in
        let read =
          R.fopen_read_ok (started F (user_path owner) content_list t e.d_name)
            (content_path (user_path owner) e.d_name) y
            (ap (F.node (started F (user_path owner) content_list t e.d_name))
                (resolve-content_path L k name)
              ∙ kept _ _ e.d_name begun
              ∙ held) in
        let now : told (file_of (users F s) owner e.d_name) ≡ some d =
          ap told (file_at e.d_name ∙ shown) ∙ line in
        let ended =
          writes (started F (user_path owner) content_list t e.d_name) (x ++ content_start e.d_name)
            (content_end d) begun in
        (
          (F.fprintf (started F (user_path owner) content_list t e.d_name) content_list
              (content_end d)).1,
          rw now (
              prints F (user_path owner) content_list e n t y d (type ∙ ap entry_type held)
                (name-is_link e.d_name name) read line),
          rw now
              (subst (Printed _) (append_assoc x (content_start e.d_name) (content_end d)) ended),
        )

    loop :
        (es : List Dirent) (n : ℕ) (t : F.State) (x : Text)
        → AreEntries (F.node s) (files_place F owner) es
        → Printed t x
        → (t' : F.State) × (each_entry (list_file F (user_path owner) content_list) es n t
            ≡ (0, n + content_count (users F s) owner es, t'))
          × Printed t' (x ++ content_text (users F s) owner es)
    unfolding each_entry
    loop [] n t x a o = (t, ap (λ m. (0, m, t)) (omega arith), rw append-nil o)
    loop (e ∷ es) n t x (listed, once, rest) o =
        let (t', run, o') = round e n t x (link_or_name listed) o in
        let (t'', run', o'') =
          loop es (n + one_of (told (file_of (users F s) owner e.d_name))) t'
            (x ++ lines_of e.d_name (told (file_of (users F s) owner e.d_name))) rest o' in
        (
          t'',
          each_entry-go (list_file F (user_path owner) content_list) e es n _ t t' run
              ∙ run'
              ∙ ap (λ m. (0, m, t'')) (omega arith),
          subst (Printed t'') (append_assoc x _ _) o'',
        )

    listed_files :
        (es : List Dirent)
        → ((m : Text)
            → is_present (F.node s (published_place F owner m)) ≡ true
            → lists_name m es ≡ true)
        → (f : Text) → (file_of (users F s) owner f ≡ none) ⊎ (lists_name f es ≡ true)
    listed_files es complete f =
        elim (Bool-cases (is_present (F.node s (published_place F owner f)))) [
          | inl p ↦ inr (complete f p)
          | inr off ↦ inl (file_at f ∙ ap text_of (absent_of _ off))
        ]

    runs :
        (u : Text) (n : ℕ) (all es : List Dirent)
        → (F.access s (user_path u) ≡ true) × (F.access s (connect_path u) ≡ true)
        → (F.access s (user_path owner) ≡ true) × (F.access s (connect_path owner) ≡ true)
        → F.opendir s data_directory ≡ some all
        → F.opendir s (files_path owner) ≡ some es
        → handle_list_content F u owner n content_list s
          ≡ each_entry (list_file F (user_path owner) content_list) es n s
    unfolding handle_list_content
    runs u n all es (a, c) (b, d) o e = rw (a, c, o, b, d, e)

-- On a system whose calls fail for no reason but the tree, a connected user is told, with code 0, how
-- many files a connected owner has published and the name and the description of each, cut to a line
-- and to the buffer, in the order of some listing that names every published file and no name
-- twice; nothing else in the tree changes. The file that the list goes to lies outside the directory of
-- users, the owner's directory `files` is there, every description can be read, and the two names are
-- ones that the buffers hold.
pub list_content-listing :
    {F : FileSystem} (L : IsLawful F) (R : IsReliable F) (s : F.State) (content_list old : Text)
    {u owner x y : Text} (n : ℕ)
    → IsUser u
    → IsUser owner
    → IsOnline (users F s) u x
    → IsOnline (users F s) owner y
    → under (base F) (F.resolve content_list) ≡ false
    → ((f d : Text)
        → file_of (users F s) owner f ≡ some d
        → (e : Text) × (fgets buffer_size d ≡ some e))
    → F.node s (files_place F owner) ≡ dir
    → F.node s (F.resolve content_list) ≡ file old
    → (es : List Dirent) × (t : F.State) × NamesEach (file_of (users F s) owner) es
      × (handle_list_content F u owner n content_list s
          ≡ (0, n + content_count (users F s) owner es, t))
      × (F.node t
          ≡ update
              (F.node s)
              (F.resolve content_list)
              (file (old ++ content_text (users F s) owner es)))
list_content-listing {F} L R s content_list old {u} {owner} n h k on on' apart readable folder
      held =
    let (a, c, _) = online_tests L s h on in
    let (b, d, _) = online_tests L s k on' in
    let here : is_present (F.node s (owner ∷ base F)) ≡ true = sym (access-user_path L s k) ∙ b in
    let up = resolve-data_directory L in
    let (all, o) =
      R.opendir_ok s data_directory (ap (F.node s) up ∙ (L.stands s owner (base F) here).0) in
    let at = resolve-files_path L k in
    let (es, e) = R.opendir_ok s (files_path owner) (ap (F.node s) at ∙ folder) in
    let (_, entries, complete) = L.opendir_some s (files_path owner) es e in
    let entries' = subst (λ q. AreEntries (F.node s) q es) at entries in
    let complete' =
      subst (λ q. (m : Text) → is_present (F.node s (m ∷ q)) ≡ true → lists_name m es ≡ true) at
        complete in
    let (t, run, printed) =
      loop L s k here R content_list old apart readable es n s old entries'
        (update_same (F.node s) _ _ held) in
    (
      es,
      t,
      (
        AreEntries-AreDistinct (F.node s) (files_place F owner) es entries',
        listed_files L s k here R content_list old apart readable es complete',
      ),
      runs L s k here R content_list old apart readable u n all es (a, c) (b, d) o e ∙ run,
      printed,
    )
