-- ===== src/Handle/Access.antt =====
-- What the tests `access(…, F_OK)` of servidor_handle.c say of the tree and of the registry.
use peer_to_peer_fileshare.Base.{
  ℕ, ◌≡◌, sym, ◌∙◌, ◌∷◌, ap, Bool, true, false, Option, none, some, arith,
}
use peer_to_peer_fileshare.CString.{Text}
use peer_to_peer_fileshare.Posix.{
  Place, Node, absent, is_present, is_dir, IsName, FileSystem, IsLawful,
}
use peer_to_peer_fileshare.Registry.{Registry}
use peer_to_peer_fileshare.Registry.View.{view, text_of}
use peer_to_peer_fileshare.Handle.Paths.{
  user_path, connect_path, entry_connect_path, files_path, published_path,
}
use peer_to_peer_fileshare.Handle.Places.{
  IsUser, base, user_place, connect_place, files_place, published_place, resolve-user_path,
  resolve-connect_path, resolve-entry_connect_path, resolve-files_path, resolve-published_path,
}

-- The users that a state holds.
abbrev pub users : (F : FileSystem) → F.State → Registry
users F s = view (F.node s) (base F)

-- A handler's result stands for that of an operation of the registry.
abbrev pub Carries : (F : FileSystem) → ℕ × F.State → ℕ × Registry → Type 0
Carries F r spec = (r.0, users F r.1) ≡ spec

pub carries :
    (F : FileSystem) {r : ℕ × F.State} {spec : ℕ × Registry} (c : ℕ) (t : F.State) (g : Registry)
    → r ≡ (c, t)
    → users F t ≡ g
    → spec ≡ (c, g)
    → Carries F r spec
carries F c t g run shown same =
    ap (λ r. (r.0, users F r.1)) run ∙ ap (λ x. (c, x)) shown ∙ sym same

-- Nothing stands below a place that is no directory.
pub absent_below :
    {F : FileSystem} (L : IsLawful F) (s : F.State) (p : Place) (n : Text)
    → is_dir (F.node s p) ≡ false
    → F.node s (n ∷ p) ≡ absent
absent_below L s p n h = ground (arith, L.stands s n p)

abbrev pub is_some {ℓ} : {A : Type ℓ} → Option A → Bool
is_some none = false
is_some (some a) = true

pub is_some-text_of : (v : Node) → is_some (text_of v) ≡ is_present v
is_some-text_of v = ground arith

pub access-entry_connect_path :
    {F : FileSystem} (L : IsLawful F) (s : F.State) {u : Text}
    → IsName u
    → F.access s (entry_connect_path u) ≡ is_present (F.node s (connect_place F u))
access-entry_connect_path {F} L s h =
    L.access_lem s _ ∙ ap (λ p. is_present (F.node s p)) (resolve-entry_connect_path L h)

module _ {F : FileSystem} (L : IsLawful F) (s : F.State) {u : Text} (h : IsUser u) where
  pub access-user_path : F.access s (user_path u) ≡ is_present (F.node s (user_place F u))
  access-user_path = L.access_lem s _ ∙ ap (λ p. is_present (F.node s p)) (resolve-user_path L h)

  pub access-connect_path : F.access s (connect_path u) ≡ is_present (F.node s (connect_place F u))
  access-connect_path =
      L.access_lem s _ ∙ ap (λ p. is_present (F.node s p)) (resolve-connect_path L h)

  pub access-files_path : F.access s (files_path u) ≡ is_present (F.node s (files_place F u))
  access-files_path = L.access_lem s _ ∙ ap (λ p. is_present (F.node s p)) (resolve-files_path L h)

  pub access-published_path :
      {f : Text}
      → IsName f
      → F.access s (published_path (user_path u) f) ≡ is_present (F.node s (published_place F u f))
  access-published_path n =
      L.access_lem s _ ∙ ap (λ p. is_present (F.node s p)) (resolve-published_path L h n)
