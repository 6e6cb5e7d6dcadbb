-- ===== src/Handle/ListUsers/Rounds.antt =====
-- What `handle_list_users` is to print, and single rounds of its loop.
use peer_to_peer_fileshare.Base.{
  ℕ, ◌+◌, ◌≡◌, refl, ◌∙◌, ap, ◌⊎◌, false, fun_ext, inl, inr, Bool-cases, true, false, Option, none,
  some, List, [], ◌∷◌, ◌++◌, arith, ◌==◌, ==_iff, ==_refl, list_eq, nat_eq,
}
use peer_to_peer_fileshare.Base.Int.{ℤ}
use peer_to_peer_fileshare.CString.{Text, codes}
use peer_to_peer_fileshare.Posix.{
  Place, Node, file, update, IsName, Dirent, dt_dir, lists_name, AreEntries, FileSystem,
}
use peer_to_peer_fileshare.ConnectFile.{scan_connection}
use peer_to_peer_fileshare.Registry.{Account, Registry}
use peer_to_peer_fileshare.Registry.View.{text_of}
use peer_to_peer_fileshare.Handle.Paths.{entry_connect_path}
use peer_to_peer_fileshare.Handle.Purge.{is_link}
use peer_to_peer_fileshare.Handle.Listing.{Round, go, stop, each_entry, user_lines, list_user}
use peer_to_peer_fileshare.Handle.Unregister.{under}

abbrev pub online_text : Option Account → Option Text
online_text none = none
online_text (some a) = a.online

-- The contact of a connected user.
abbrev pub contact_of : Registry → Text → Option Text
contact_of g u = online_text (g u)

abbrev pub parsed : Option Text → Option (Text × ℤ)
parsed none = none
parsed (some x) = scan_connection x

abbrev pub lines_of : Text → Option (Text × ℤ) → Text
lines_of name none = []
lines_of name (some (address, port)) = user_lines name address port

abbrev pub one_of : Option (Text × ℤ) → ℕ
one_of none = 0
one_of (some x) = 1

-- No name stands twice.
abbrev pub AreDistinct : List Dirent → Type 0
AreDistinct [] = Unit
AreDistinct (e ∷ es) = (lists_name e.d_name es ≡ false) × AreDistinct es

-- Entries that name everything that there is to find, and nothing twice.
abbrev pub NamesEach : (Text → Option Text) → List Dirent → Type 0
NamesEach found es = AreDistinct es × ((v : Text) → (found v ≡ none) ⊎ (lists_name v es ≡ true))

pub AreEntries-AreDistinct :
    (f : Place → Node) (p : Place) (es : List Dirent) → AreEntries f p es → AreDistinct es
AreEntries-AreDistinct f p [] h = tt
AreEntries-AreDistinct f p (e ∷ es) (listed, once, rest) =
    (once, AreEntries-AreDistinct f p es rest)

-- Three lines for each connected user, in the order of the directory, and how many users those are.
abbrev pub list_text : Registry → List Dirent → Text
list_text g [] = []
list_text g (e ∷ es) = lines_of e.d_name (parsed (contact_of g e.d_name)) ++ list_text g es

abbrev pub list_count : Registry → List Dirent → ℕ
list_count g [] = 0
list_count g (e ∷ es) = one_of (parsed (contact_of g e.d_name)) + list_count g es

pub under_two : (b : Place) (n m : Text) → under b (n ∷ m ∷ b) ≡ true
under_two b n m = ground (arith, ==_refl b)

scan_connection-nil : scan_connection [] ≡ none
unfolding scan_connection
scan_connection-nil = refl

pub not_name-is_link : (n : Text) → is_link n ≡ true → ¬ IsName n
not_name-is_link n k h =
    ground (arith, h.no_dot, h.no_dot_dot, ==_iff n (codes "."), ==_iff n (codes ".."))

pub name-is_link : (n : Text) → IsName n → is_link n ≡ false
name-is_link n h =
    ground (arith, h.no_dot, h.no_dot_dot, ==_iff n (codes "."), ==_iff n (codes ".."))

pub each_entry-go {ℓ} :
    {S : Type ℓ} (body : Dirent → ℕ → S → Round S) (e : Dirent) (es : List Dirent) (n m : ℕ)
    (s t : S)
    → body e n s ≡ go m t
    → each_entry body (e ∷ es) n s ≡ each_entry body es m t
unfolding each_entry
each_entry-go {S} body e es n m s t run =
    ap
      (λ (r : Round S). elim r as (λ _. ℕ × ℕ × S) [
        | go k v ↦ each_entry body es k v
        | stop c k v ↦ (c, k, v)
      ])
      run

pub update_same : (f : Place → Node) (p : Place) (v : Node) → f p ≡ v → f ≡ update f p v
update_same f p v h = fun_ext λ q. elim (Bool-cases (q == p)) [
  | inl same ↦ rw same (ap f ((==_iff q p).0 same) ∙ h)
  | inr other ↦ rw other refl
]

pub readable_file :
    (v : Node) (x : Text) (a : Text × ℤ)
    → text_of v ≡ some x
    → scan_connection x ≡ some a
    → v ≡ file x
readable_file v x a h k = ground (arith, scan_connection-nil)

module _ (F : FileSystem) (user_list : Text) where
  pub skips_link :
      (e : Dirent) (n : ℕ) (t : F.State)
      → is_link e.d_name ≡ true
      → list_user F user_list e n t ≡ go n t
  unfolding list_user
  skips_link e n t h = ground arith

  pub skips_offline :
      (e : Dirent) (n : ℕ) (t : F.State)
      → F.access t (entry_connect_path e.d_name) ≡ false
      → list_user F user_list e n t ≡ go n t
  unfolding list_user
  skips_offline e n t h = ground arith

  pub prints :
      (e : Dirent) (n : ℕ) (t : F.State) (x address : Text) (port : ℤ)
      → e.d_type ≡ dt_dir
      → is_link e.d_name ≡ false
      → F.access t (entry_connect_path e.d_name) ≡ true
      → F.fopen_read t (entry_connect_path e.d_name) ≡ some x
      → scan_connection x ≡ some (address, port)
      → list_user F user_list e n t
        ≡ go (n + 1) (F.fprintf t user_list (user_lines e.d_name address port)).1
  unfolding list_user
  prints e n t x address port d l a o c = rw (d, l, a, o, c)
