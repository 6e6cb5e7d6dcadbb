-- ===== src/Request/ListFiles.antt =====
-- The files for the lists: their names, and that they lie outside the directory of users.
use peer_to_peer_fileshare.Base.{
  true, ◌<◌, ℕ, ◌+◌, ◌≤◌, ◌≡◌, ◌≢◌, inl, inr, refl, sym, subst, ap, ◌∙◌, Option-cases, [], ◌∷◌,
  ◌++◌, nat_eq, length, length-append, arith, false,
}
use peer_to_peer_fileshare.CString.{Text, codes, slash}
use peer_to_peer_fileshare.Posix.{
  Place, dir, is_present, Node, absent, file, update, has_byte, IsName, FileSystem, IsLawful,
  IsRelative,
}
use peer_to_peer_fileshare.Registry.Deed.{Deed, nothing}
use peer_to_peer_fileshare.Registry.View.{ne_length, view, view-update_outside}
use peer_to_peer_fileshare.Handle.Places.{IsUser, base}
use peer_to_peer_fileshare.Handle.Access.{users, access-user_path}
use peer_to_peer_fileshare.Handle.GetFile.{IsOnline, online_tests}
use peer_to_peer_fileshare.Handle.Writing.{opened}
use peer_to_peer_fileshare.Handle.Keeping.{
  Keeps, handle_list_users-Keeps, handle_list_content-Keeps,
}
use peer_to_peer_fileshare.Request.{
  open_users, open_content, removal, users_list_name, content_list_name,
}
use peer_to_peer_fileshare.Request.Accounts.{Follows}

-- A name so short that the names of the lists' files are names too.
pub record IsShort (u : Text) : Type 0 where
  pub name : IsName u
  pub short : length u ≤ 120

pub IsShort-IsUser : {u : Text} → IsShort u → IsUser u
IsShort-IsUser h = record { name = h.name; short = omega (arith, h.short) }

has_byte-append :
    (b : ℕ) (x y : Text) → has_byte b x ≡ false → has_byte b y ≡ false → has_byte b (x ++ y) ≡ false
has_byte-append b [] y h k = k
has_byte-append b (c ∷ x) y h k = ground (arith, has_byte-append b x y)

longer-IsName :
    (x y : Text)
    → has_byte slash x ≡ false
    → has_byte slash y ≡ false
    → 3 ≤ length y
    → length x + length y ≤ 255
    → IsName (x ++ y)
longer-IsName x y h k long short = record {
  nonempty = λ e. differs [] e (omega arith);
  no_slash = has_byte-append slash x y h k;
  name_max = omega (arith, length-append x y, short);
  no_dot = λ e. differs (codes ".") e (omega arith);
  no_dot_dot = λ e. differs (codes "..") e (omega arith);
}
  where
    differs : (z : Text) → x ++ y ≡ z → length z ≤ 2 → ⊥
    differs z e b = absurd (omega (arith, ap length e, length-append x y, long, b))

pub users_list_name-IsName : {u : Text} → IsShort u → IsName (users_list_name u)
users_list_name-IsName {u} h =
    longer-IsName u (codes "_users_connected.txt") h.name.no_slash refl (omega arith)
      (omega (arith, h.short))

pub content_list_name-IsName : {u o : Text} → IsShort u → IsShort o → IsName (content_list_name u o)
content_list_name-IsName {u} {o} h k =
    longer-IsName u (o ++ codes "_content.txt") h.name.no_slash
      (has_byte-append slash o (codes "_content.txt") k.name.no_slash refl)
      (omega (arith, length-append o (codes "_content.txt")))
      (omega (arith, h.short, k.short, length-append o (codes "_content.txt")))

database-IsName : IsName (codes "database")
database-IsName = record {
  nonempty = λ e. cc;
  no_slash = refl;
  name_max = omega arith;
  no_dot = λ e. cc;
  no_dot_dot = λ e. cc;
}

-- The directory of users stands in the working directory.
pub base_lem : {F : FileSystem} → IsLawful F → base F ≡ codes "database" ∷ F.resolve (codes ".")
base_lem L = L.resolve_child b'.' [] (codes "database") database-IsName

module _ {F : FileSystem} (L : IsLawful F) (W : IsRelative F) (s : F.State) {n : Text}
    (h : IsName n) where
  pub outside : length (F.resolve n) ≤ length (base F)
  outside = omega (arith, ap length (W.resolve_name n h), ap length (base_lem L))

  -- A name other than `database` is not the directory of users.
  pub beside : length n ≢ 8 → F.resolve n ≢ base F
  beside long e =
      let same : n ∷ F.resolve (codes ".") ≡ codes "database" ∷ F.resolve (codes ".") =
        sym (W.resolve_name n h) ∙ e ∙ base_lem L in
      let name : n ≡ codes "database" = cc in long (ap length name)

  pub users-outside :
      (t : F.State) (v : Node)
      → F.node t ≡ update (F.node s) (F.resolve n) v
      → users F t ≡ users F s
  users-outside t v e =
      ap (λ f. view f (base F)) e ∙ view-update_outside (F.node s) (base F) (F.resolve n) v outside

  -- What stands below the directory of users stays as it is.
  pub kept_below :
      (t : F.State) (v : Node) (q : Place)
      → F.node t ≡ update (F.node s) (F.resolve n) v
      → length (base F) < length q
      → F.node t q ≡ F.node s q
  kept_below t v q e deep =
      ap (λ f. f q) e
      ∙ rw (ne_length q (F.resolve n) (λ k. absurd (omega (arith, k, deep, outside)))) refl

  written-Follows :
      (t : F.State) (v : Node) → F.node t ≡ update (F.node s) (F.resolve n) v → Follows L s t
  written-Follows t v e = subst (Deed (users F s)) (sym (users-outside t v e)) nothing

  pub removal-Follows : Follows L s (removal F n s).1
  removal-Follows = elim (Option-cases (F.remove s n)) [
    | inl e ↦ rw (removal, e) nothing
    | inr (t, e) ↦ rw (removal, e) (written-Follows t absent (L.remove_some s n t e).2)
  ]

  Keeps-Follows : (t : F.State) → Keeps L (F.node s) n (F.resolve n) t → Follows L s t
  Keeps-Follows t (got, o) = written-Follows t (file got) o

module _ {F : FileSystem} (L : IsLawful F) (W : IsRelative F) (s : F.State) {u : Text}
    (h : IsShort u) where
  pub open_users-Follows : Follows L s (open_users F u s).1
  unfolding open_users
  open_users-Follows = elim (Option-cases (F.fopen_write s (users_list_name u))) [
    | inl e ↦ rw (open_users, e) nothing
    | inr (t, e) ↦
        rw (open_users, e)
          (Keeps-Follows L W s (users_list_name-IsName h) _ (
            handle_list_users-Keeps L (F.node s) (users_list_name u) _ refl u 0 t
              ([], opened L (F.node s) (users_list_name u) _ s t refl refl e)))
  ]

  pub open_content-Follows : {o : Text} → IsShort o → Follows L s (open_content F u o s).1
  unfolding open_content
  open_content-Follows {o} k = elim (Option-cases (F.fopen_write s (content_list_name u o))) [
    | inl e ↦ rw (open_content, e) nothing
    | inr (t, e) ↦
        rw (open_content, e)
          (Keeps-Follows L W s (content_list_name-IsName h k) _ (
            handle_list_content-Keeps L (F.node s) (content_list_name u o) _ refl u o 0 t
              ([], opened L (F.node s) (content_list_name u o) _ s t refl refl e)))
  ]

module _ {F : FileSystem} (L : IsLawful F) (s : F.State) {u x : Text} (h : IsShort u)
    (on : IsOnline (users F s) u x) where
  -- The server's working directory is one.
  pub working_dir : F.node s (F.resolve (codes ".")) ≡ dir
  working_dir =
      let here : is_present (F.node s (u ∷ base F)) ≡ true =
        sym (access-user_path L s (IsShort-IsUser h))
        ∙ (online_tests L s (IsShort-IsUser h) on).0 in
      let database = (L.stands s u (base F) here).0 in
      (L.stands s (codes "database") (F.resolve (codes "."))
        (ap (λ q. is_present (F.node s q)) (sym (base_lem L)) ∙ ap is_present database)).0
