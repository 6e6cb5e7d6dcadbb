-- ===== src/Handle/Standing.antt =====
-- The first two tests of every handler, `access(user)` and `access(user_connect)`: a user is not
-- registered, registered and not connected, or connected. Each case says it of the registry too.
use peer_to_peer_fileshare.Base.{
  ◌≡◌, refl, ◌∙◌, true, false, Bool-cases, inl, inr, none, some, [], arith,
}
use peer_to_peer_fileshare.CString.{Text}
use peer_to_peer_fileshare.Posix.{Node, absent, file, dir, is_present, FileSystem, IsLawful}
use peer_to_peer_fileshare.Registry.View.{account_at, text_of, view-some, view-none}
use peer_to_peer_fileshare.Handle.Paths.{user_path, connect_path}
use peer_to_peer_fileshare.Handle.Places.{IsUser, base, user_place, connect_place}
use peer_to_peer_fileshare.Handle.Access.{users, access-user_path, access-connect_path}

pub data Standing (F : FileSystem) (s : F.State) (u : Text) : Type 0 where
  unknown :
      is_present (F.node s (user_place F u)) ≡ false
      → F.access s (user_path u) ≡ false
      → users F s u ≡ none
      → Standing F s u
  offline :
      is_present (F.node s (user_place F u)) ≡ true
      → F.access s (user_path u) ≡ true
      → F.access s (connect_path u) ≡ false
      → users F s u ≡ some (account_at (F.node s) (base F) u)
      → F.node s (connect_place F u) ≡ absent
      → Standing F s u
  online :
      (x : Text)
      → is_present (F.node s (user_place F u)) ≡ true
      → F.access s (user_path u) ≡ true
      → F.access s (connect_path u) ≡ true
      → users F s u ≡ some (account_at (F.node s) (base F) u)
      → text_of (F.node s (connect_place F u)) ≡ some x
      → Standing F s u

pub absent_of : (v : Node) → is_present v ≡ false → v ≡ absent
absent_of v h = ground arith

pub text_of_present : (v : Node) → is_present v ≡ true → (x : Text) × (text_of v ≡ some x)
text_of_present absent h = cc
text_of_present (file x) h = (x, refl)
text_of_present dir h = ([], refl)

module _ {F : FileSystem} (L : IsLawful F) (s : F.State) {u : Text} (h : IsUser u) where
  present-Standing : is_present (F.node s (user_place F u)) ≡ true → Standing F s u
  present-Standing p = elim (Bool-cases (is_present (F.node s (connect_place F u)))) [
    | inr q ↦
        offline p (access-user_path L s h ∙ p) (access-connect_path L s h ∙ q) (view-some _ _ _ p)
          (absent_of _ q)
    | inl q ↦
        let (x, e) = text_of_present (F.node s (connect_place F u)) q in
        online x p (access-user_path L s h ∙ p) (access-connect_path L s h ∙ q) (view-some _ _ _ p)
          e
  ]

  pub standing : Standing F s u
  standing = elim (Bool-cases (is_present (F.node s (user_place F u)))) [
    | inl p ↦ present-Standing p
    | inr q ↦ unknown q (access-user_path L s h ∙ q) (view-none _ _ _ q)
  ]
