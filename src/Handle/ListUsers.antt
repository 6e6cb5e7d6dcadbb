-- ===== src/Handle/ListUsers.antt =====
-- What `handle_list_users` counts and prints, by the registry and the order of the directory.
pub mod Rounds
pub use Rounds.{contact_of, list_text, list_count, NamesEach}
use Rounds.{
  online_text, parsed, lines_of, one_of, under_two, not_name-is_link, name-is_link, each_entry-go,
  update_same, AreEntries-AreDistinct, readable_file, skips_link, skips_offline, prints,
}
use peer_to_peer_fileshare.Base.{
  ℕ, ◌+◌, ◌≡◌, refl, sym, subst, ◌∙◌, ap, fun_ext, ◌⊎◌, inl, inr, Bool-cases, Option-cases, true,
  false, Option, none, some, List, [], ◌∷◌, ◌++◌, append_assoc, append-nil, arith, ◌==◌, ==_iff,
  ==_refl, list_eq, nat_eq, if◌then◌else◌,
}
use peer_to_peer_fileshare.Base.Int.{ℤ}
use peer_to_peer_fileshare.CString.{Text, codes}
use peer_to_peer_fileshare.Posix.{
  Place, Node, absent, file, dir, is_present, is_dir, update, IsName, Dirent, EntryType, dt_dir,
  dt_reg, entry_type, lists_name, IsEntry, AreEntries, FileSystem, IsLawful, IsReliable,
}
use peer_to_peer_fileshare.ConnectFile.{scan_connection}
use peer_to_peer_fileshare.Registry.{Account, Registry}
use peer_to_peer_fileshare.Registry.View.{text_of, view-some, view-none}
use peer_to_peer_fileshare.Handle.Paths.{
  data_directory, user_path, connect_path, entry_connect_path,
}
use peer_to_peer_fileshare.Handle.Places.{
  IsUser, base, connect_place, resolve-data_directory, resolve-entry_connect_path,
}
use peer_to_peer_fileshare.Handle.Access.{
  users, access-user_path, absent_below, access-entry_connect_path,
}
use peer_to_peer_fileshare.Handle.Standing.{absent_of, text_of_present}
use peer_to_peer_fileshare.Handle.Unregister.Clean.{link_or_name}
use peer_to_peer_fileshare.Handle.Writing.{Open, printed, update_self}
use peer_to_peer_fileshare.Handle.Purge.{is_link}
use peer_to_peer_fileshare.Handle.Listing.{
  Round, go, stop, each_entry, user_lines, list_user, handle_list_users,
}
use peer_to_peer_fileshare.Handle.Unregister.{under}
use peer_to_peer_fileshare.Handle.GetFile.{IsOnline, online_tests}

module _ {F : FileSystem} (L : IsLawful F) (s : F.State) where
  pub contact_at :
      (m : Text) → contact_of (users F s) m ≡ text_of (F.node s (codes "connect" ∷ m ∷ base F))
  contact_at m = elim (Bool-cases (is_present (F.node s (m ∷ base F)))) [
    | inl here ↦ ap online_text (view-some (F.node s) (base F) m here)
    | inr free ↦
        ap online_text (view-none (F.node s) (base F) m free)
        ∙ sym (ap text_of (absent_below L s (m ∷ base F) (codes "connect") (ground arith)))
  ]

  not_name-contact_of : (m : Text) → ¬ IsName m → contact_of (users F s) m ≡ none
  not_name-contact_of m h =
      ap online_text (view-none (F.node s) (base F) m (ground (arith, L.stands s m (base F))))

  module _ (R : IsReliable F) (user_list old : Text)
      (apart : under (base F) (F.resolve user_list) ≡ false)
      (readable : (v x : Text)
        → contact_of (users F s) v ≡ some x
        → (a : Text × ℤ) × (scan_connection x ≡ some a)) where
    abbrev Printed : F.State → Text → Type 0
    Printed = Open L (F.node s) user_list (F.resolve user_list)

    unlike : (n m : Text) → (n ∷ m ∷ base F == F.resolve user_list) ≡ false
    unlike n m = elim (Bool-cases (n ∷ m ∷ base F == F.resolve user_list)) [
      | inr differ ↦ differ
      | inl same ↦ cc (
        sym (under_two (base F) n m),
        ap (under (base F)) ((==_iff (n ∷ m ∷ base F) (F.resolve user_list)).0 same),
        apart,
      )
    ]

    kept :
        (t : F.State) (x n m : Text)
        → Printed t x
        → F.node t (n ∷ m ∷ base F) ≡ F.node s (n ∷ m ∷ base F)
    kept t x n m o = ap (λ g. g (n ∷ m ∷ base F)) o ∙ rw (unlike n m) refl

    -- What one round of the loop is to do.
    abbrev RoundDone : Dirent → ℕ → F.State → Text → Type 0
    RoundDone e n t x =
        (t' : F.State) × (list_user F user_list e n t
          ≡ go (n + one_of (parsed (contact_of (users F s) e.d_name))) t')
        × Printed t' (x ++ lines_of e.d_name (parsed (contact_of (users F s) e.d_name)))

    quiet :
        (e : Dirent) (n : ℕ) (t : F.State) (x : Text)
        → list_user F user_list e n t ≡ go n t
        → contact_of (users F s) e.d_name ≡ none
        → Printed t x
        → RoundDone e n t x
    quiet e n t x run off o =
        let none_more : n ≡ n + 0 = omega arith in
        (t, rw off (run ∙ ap (λ m. go m t) none_more), rw (off, append-nil) o)

    contact_line :
        (e : Dirent) (n : ℕ) (t : F.State) (x : Text)
        → IsName e.d_name
        → IsEntry (F.node s) (base F) e
        → is_present (F.node s (connect_place F e.d_name)) ≡ true
        → Printed t x
        → RoundDone e n t x
    contact_line e n t x name (here, type) connected o =
        let (y, shown) = text_of_present (F.node s (connect_place F e.d_name)) connected in
        let ((address, port), scan) = readable e.d_name y (contact_at e.d_name ∙ shown) in
        let held =
          readable_file (F.node s (connect_place F e.d_name)) y (address, port) shown scan in
        let up = (L.stands s (codes "connect") (e.d_name ∷ base F) connected).0 in
        let there : F.access t (entry_connect_path e.d_name) ≡ true =
          access-entry_connect_path L t name
          ∙ ap is_present (kept t x (codes "connect") e.d_name o)
          ∙ connected in
        let read = R.fopen_read_ok t (entry_connect_path e.d_name) y (
          ap (F.node t) (resolve-entry_connect_path L name)
          ∙ kept t x (codes "connect") e.d_name o
          ∙ held) in
        let full = R.fprintf_ok t user_list (user_lines e.d_name address port) x (
          ap (λ g. g (F.resolve user_list)) o
          ∙ update_self (F.node s) (F.resolve user_list) (file x)) in
        let now : parsed (contact_of (users F s) e.d_name) ≡ some (address, port) =
          ap parsed (contact_at e.d_name ∙ shown) ∙ scan in
        (
          (F.fprintf t user_list (user_lines e.d_name address port)).1,
          rw now (
              prints F user_list e n t y address port (type ∙ ap entry_type up)
                (name-is_link e.d_name name) there read scan),
          rw now
              (printed L (F.node s) user_list _ t x (user_lines e.d_name address port) refl o full),
        )

    round :
        (e : Dirent) (n : ℕ) (t : F.State) (x : Text)
        → ((is_link e.d_name ≡ true) ⊎ (IsName e.d_name × IsEntry (F.node s) (base F) e))
        → Printed t x
        → RoundDone e n t x
    round e n t x (inl link) o =
        quiet e n t x (skips_link F user_list e n t link)
          (not_name-contact_of e.d_name (not_name-is_link e.d_name link)) o
    round e n t x (inr (name, entry)) o =
        elim (Bool-cases (is_present (F.node s (connect_place F e.d_name)))) [
          | inl connected ↦ contact_line e n t x name entry connected o
          | inr off ↦
              quiet e n t x
                (skips_offline F user_list e n t (
                  access-entry_connect_path L t name
                  ∙ ap is_present (kept t x (codes "connect") e.d_name o)
                  ∙ off))
                (contact_at e.d_name ∙ ap text_of (absent_of _ off)) o
        ]

    loop :
        (es : List Dirent) (n : ℕ) (t : F.State) (x : Text)
        → AreEntries (F.node s) (base F) es
        → Printed t x
        → (t' : F.State) × (each_entry (list_user F user_list) es n t
            ≡ (0, n + list_count (users F s) es, t'))
          × Printed t' (x ++ list_text (users F s) es)
    unfolding each_entry
    loop [] n t x a o = (t, ap (λ m. (0, m, t)) (omega arith), rw append-nil o)
    loop (e ∷ es) n t x (listed, once, rest) o =
        let (t', run, o') = round e n t x (link_or_name listed) o in
        let (t'', run', o'') =
          loop es (n + one_of (parsed (contact_of (users F s) e.d_name))) t'
            (x ++ lines_of e.d_name (parsed (contact_of (users F s) e.d_name))) rest o' in
        (
          t'',
          each_entry-go (list_user F user_list) e es n _ t t' run
              ∙ run'
              ∙ ap (λ m. (0, m, t'')) (omega arith),
          subst (Printed t'') (append_assoc x _ _) o'',
        )

    listed_entries :
        (es : List Dirent)
        → ((m : Text) → is_present (F.node s (m ∷ base F)) ≡ true → lists_name m es ≡ true)
        → (v : Text) → (contact_of (users F s) v ≡ none) ⊎ (lists_name v es ≡ true)
    listed_entries es complete v = elim (Bool-cases (is_present (F.node s (connect_place F v)))) [
      | inl on ↦ inr (complete v (ground (arith, L.stands s (codes "connect") (v ∷ base F) on)))
      | inr off ↦ inl (contact_at v ∙ ap text_of (absent_of _ off))
    ]

    runs :
        (u : Text) (n : ℕ) (es : List Dirent)
        → F.access s (user_path u) ≡ true
        → F.access s (connect_path u) ≡ true
        → F.opendir s data_directory ≡ some es
        → handle_list_users F u n user_list s ≡ each_entry (list_user F user_list) es n s
    unfolding handle_list_users
    runs u n es a c e = rw (a, c, e)

    -- On a system whose calls fail for no reason but the tree, a connected user is told, with code
    -- 0, how many users are connected and the name, the address and the port of each, in the order
    -- of some listing that names every connected user and no name twice; nothing else in the tree
    -- changes. The file that the list goes to lies outside the directory of users, every `connect`
    -- file can be read, and the user's name is one that the buffers hold.
    pub list_users-listing :
        {u x : Text} (n : ℕ)
        → IsUser u
        → IsOnline (users F s) u x
        → F.node s (F.resolve user_list) ≡ file old
        → (es : List Dirent) × (t : F.State) × NamesEach (contact_of (users F s)) es
          × (handle_list_users F u n user_list s ≡ (0, n + list_count (users F s) es, t))
          × (F.node t
              ≡ update (F.node s) (F.resolve user_list) (file (old ++ list_text (users F s) es)))
    list_users-listing {u} {x} n h on held =
        let (a, c, _) = online_tests L s h on in
        let here : is_present (F.node s (u ∷ base F)) ≡ true = sym (access-user_path L s h) ∙ a in
        let at = resolve-data_directory L in
        let (es, e) =
          R.opendir_ok s data_directory (ap (F.node s) at ∙ (L.stands s u (base F) here).0) in
        let (_, entries, complete) = L.opendir_some s data_directory es e in
        let entries' = subst (λ q. AreEntries (F.node s) q es) at entries in
        let complete' =
          subst (λ q. (m : Text) → is_present (F.node s (m ∷ q)) ≡ true → lists_name m es ≡ true) at
            complete in
        let (t, run, o) = loop es n s old entries' (update_same (F.node s) _ _ held) in
        (
          es,
          t,
          (AreEntries-AreDistinct (F.node s) (base F) es entries', listed_entries es complete'),
          runs u n es a c e ∙ run,
          o,
        )
