-- ===== src/Handle/GetFile.antt =====
-- What `handle_get_file` answers, by the registry.
use peer_to_peer_fileshare.Base.{
  ℕ, ◌≡◌, refl, sym, ◌∙◌, ap, inl, inr, Bool, Bool-cases, Option-cases, true, false, ◌&&◌, Option,
  none, some, [], ◌∷◌, ◌++◌, append_assoc, arith, list_eq, nat_eq,
}
use mathlib.Core.Option.{some-injective}
use peer_to_peer_fileshare.Base.Int.{ℤ}
use peer_to_peer_fileshare.CString.{Text, codes, newline}
use peer_to_peer_fileshare.Posix.{Node, absent, file, is_present, FileSystem, IsLawful, IsReliable}
use peer_to_peer_fileshare.ConnectFile.{print_int, scan_connection}
use peer_to_peer_fileshare.ConnectFile.RoundTrip.{IsWord, scan_connection-print}
use peer_to_peer_fileshare.Registry.{Account, Registry}
use peer_to_peer_fileshare.Registry.View.{account_at, text_of}
use peer_to_peer_fileshare.Handle.Paths.{user_path, connect_path}
use peer_to_peer_fileshare.Handle.Places.{IsUser, base, connect_place, resolve-connect_path}
use peer_to_peer_fileshare.Handle.Access.{users, is_some, absent_below, access-connect_path}
use peer_to_peer_fileshare.Handle.Standing.{unknown, offline, online, standing}
use peer_to_peer_fileshare.Handle.Listing.{handle_get_file}
use peer_to_peer_fileshare.Handle.Refines.Connect.{contact}

-- A user that the registry shows as connected with a contact.
abbrev pub IsOnline : Registry → Text → Text → Type 0
IsOnline g u x = (a : Account) × (g u ≡ some a) × (a.online ≡ some x)

abbrev pub online_of : Option Account → Bool
online_of none = false
online_of (some a) = is_some a.online

abbrev pub is_online : Registry → Text → Bool
is_online g u = online_of (g u)

text_of_file : (v : Node) (c : ℕ) (x : Text) → text_of v ≡ some (c ∷ x) → v ≡ file (c ∷ x)
text_of_file v c x h = ground arith

contact-cons :
    (address : Text) (port : ℤ)
    → IsWord address
    → (c : ℕ) × (x : Text) × (contact address port ≡ c ∷ x)
contact-cons [] port h = absurd (h.nonempty refl)
contact-cons (c ∷ a) port h = (c, _, refl)

pub scan_connection-contact :
    (address : Text) (port : ℤ)
    → IsWord address
    → scan_connection (contact address port) ≡ some (address, port)
scan_connection-contact address port h =
    ap scan_connection (append_assoc address (newline ∷ []) (print_int port ++ newline ∷ []))
    ∙ scan_connection-print address port [] h

module _ {F : FileSystem} (L : IsLawful F) (s : F.State) where
  pub online_tests :
      {u x : Text}
      → IsUser u
      → IsOnline (users F s) u x
      → (F.access s (user_path u) ≡ true)
        × (F.access s (connect_path u) ≡ true)
        × (text_of (F.node s (connect_place F u)) ≡ some x)
  online_tests {u} {x} h (a, known, on) = elim (standing L s h) [
    | unknown p t v ↦ cc
    | offline p t c v o ↦ cc (shown v, ap text_of o, on)
    | online y p t c v o ↦ (t, c, sym (shown v) ∙ on)
  ]
    where
      shown :
          users F s u ≡ some (account_at (F.node s) (base F) u)
          → a.online ≡ text_of (F.node s (connect_place F u))
      shown v = ap (λ (b : Account). b.online) (some-injective _ _ (sym known ∙ v))

  -- On a system whose calls fail for no reason but the tree, a connected user is told, with code
  -- 0, the address and the port that the owner connected with, if the address is a word. The two
  -- names are ones that the buffers hold.
  pub get_file-online :
      IsReliable F
      → {u owner x : Text} (address : Text) (port : ℤ) → IsUser u
      → IsUser owner
      → IsWord address
      → IsOnline (users F s) u x
      → IsOnline (users F s) owner (contact address port)
      → handle_get_file F u owner s ≡ (0, some (address, port))
  unfolding handle_get_file
  get_file-online R {u} {owner} address port h k w on on' =
      let (t, c, _) = online_tests h on in
      let (_, _, shown) = online_tests k on' in
      let (d, x, e) = contact-cons address port w in
      let held = text_of_file _ d x (shown ∙ ap some e) ∙ ap file (sym e) in
      let read =
        R.fopen_read_ok s (connect_path owner) _
          (ap (F.node s) (resolve-connect_path L k) ∙ held) in
      ground (arith, scan_connection-contact address port w)

  absent_contact :
      {u : Text}
      → IsUser u
      → is_online (users F s) u ≡ false
      → F.node s (connect_place F u) ≡ absent
  absent_contact {u} h off = elim (standing L s h) [
    | unknown p t v ↦ absent_below L s _ (codes "connect") (ground arith)
    | offline p t c v o ↦ o
    | online y p t c v o ↦ cc (ap online_of v, off, ap is_some o)
  ]

  refused :
      {u : Text} (owner : Text)
      → IsUser u
      → is_online (users F s) u ≡ false
      → handle_get_file F u owner s ≡ (2, none)
  unfolding handle_get_file
  refused owner h off =
      ground (arith, access-connect_path L s h, ap is_present (absent_contact h off))

  pub unreadable :
      {owner : Text}
      → IsUser owner
      → is_online (users F s) owner ≡ false
      → F.fopen_read s (connect_path owner) ≡ none
  unreadable {owner} h off = elim (Option-cases (F.fopen_read s (connect_path owner))) [
    | inl e ↦ e
    | inr (x, e) ↦
        let gone = ap (F.node s) (resolve-connect_path L h) ∙ absent_contact h off in
        ground (arith, L.fopen_read_some s (connect_path owner) x e)
  ]

  -- If the user or the owner is not connected, the answer is code 2 and no address. The two names
  -- are ones that the buffers hold.
  pub get_file-offline :
      {u owner : Text}
      → IsUser u
      → IsUser owner
      → (is_online (users F s) u && is_online (users F s) owner) ≡ false
      → handle_get_file F u owner s ≡ (2, none)
  get_file-offline {u} {owner} h k off = elim (Bool-cases (is_online (users F s) u)) [
    | inr no_user ↦ refused owner h no_user
    | inl on ↦ let closed = unreadable k (ground arith) in unfold handle_get_file in ground arith
  ]
