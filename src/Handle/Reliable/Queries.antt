-- ===== src/Handle/Reliable/Queries.antt =====
-- `handle_get_file` on a reliable system, in every case.
use peer_to_peer_fileshare.Base.{
  ℕ, false, ◌≡◌, sym, ◌∙◌, ap, Option, none, some, true, Option-cases, inl, inr, arith, list_eq,
  nat_eq,
}
use peer_to_peer_fileshare.Base.Int.{ℤ}
use peer_to_peer_fileshare.CString.{Text}
use peer_to_peer_fileshare.Posix.{FileSystem, IsLawful, IsReliable}
use peer_to_peer_fileshare.ConnectFile.{scan_connection}
use peer_to_peer_fileshare.Registry.{Account, Registry}
use peer_to_peer_fileshare.Registry.View.{text_of}
use peer_to_peer_fileshare.Handle.Paths.{user_path, connect_path}
use peer_to_peer_fileshare.Handle.Places.{IsUser, resolve-connect_path}
use peer_to_peer_fileshare.Handle.Access.{users, is_some}
use peer_to_peer_fileshare.Handle.Standing.{unknown, offline, online, Standing, standing}
use peer_to_peer_fileshare.Handle.Listing.{handle_get_file}
use peer_to_peer_fileshare.Handle.GetFile.{online_of, unreadable}
use peer_to_peer_fileshare.Handle.Layout.{file_of}
use peer_to_peer_fileshare.Handle.Reliable.Does.{Laid}

abbrev online_in : Option Account → Option Text
online_in none = none
online_in (some a) = a.online

-- What a user that is connected told of its own server.
abbrev pub contact_of : Registry → Text → Option Text
contact_of g u = online_in (g u)

abbrev pub scanned : Option (Text × ℤ) → ℕ × Option (Text × ℤ)
scanned none = (2, none)
scanned (some a) = (0, some a)

abbrev pub found_at : Option Text → ℕ × Option (Text × ℤ)
found_at none = (2, none)
found_at (some x) = scanned (scan_connection x)

abbrev pub asked_by : Option Text → Option Text → ℕ × Option (Text × ℤ)
asked_by none owner = (2, none)
asked_by (some x) owner = found_at owner

-- A connected user is told where a connected owner is, if its contact is an address and a port.
unfoldable pub find_spec : Text → Text → Registry → ℕ × Option (Text × ℤ)
find_spec u owner g = asked_by (contact_of g u) (contact_of g owner)

module _ {F : FileSystem} (L : IsLawful F) (R : IsReliable F) (s : F.State) (laid : Laid F s)
    {u owner : Text} (h : IsUser u) (k : IsUser owner) where
  read_owner :
      Standing F s owner → F.fopen_read s (connect_path owner) ≡ contact_of (users F s) owner
  read_owner (unknown p t v) = unreadable L s k (ap online_of v) ∙ sym (ap online_in v)
  read_owner (offline p t c v o) =
      unreadable L s k (ap online_of v ∙ ap (λ n. is_some (text_of n)) o)
      ∙ sym (ap online_in v ∙ ap text_of o)
  read_owner (online x p t c v o) =
      R.fopen_read_ok s (connect_path owner) x
        (ap (F.node s) (resolve-connect_path L k) ∙ file_of _ x o (laid.kept owner).contact_file)
      ∙ sym (ap online_in v ∙ o)

  refused : contact_of (users F s) u ≡ none → find_spec u owner (users F s) ≡ (2, none)
  unfolding find_spec
  refused e = ap (λ a. asked_by a (contact_of (users F s) owner)) e

  answered :
      {x : Text}
      → contact_of (users F s) u ≡ some x
      → find_spec u owner (users F s) ≡ found_at (contact_of (users F s) owner)
  unfolding find_spec
  answered e = ap (λ a. asked_by a (contact_of (users F s) owner)) e

  opened :
      F.access s (user_path u) ≡ true
      → F.access s (connect_path u) ≡ true
      → (o : Option Text) → F.fopen_read s (connect_path owner) ≡ o
      → handle_get_file F u owner s ≡ found_at o
  unfolding handle_get_file
  opened t c none e = ground arith
  opened t c (some x) e = elim (Option-cases (scan_connection x)) [
    | inl f ↦ ground arith
    | inr (a, f) ↦ ground arith
  ]

  unknown_user : F.access s (user_path u) ≡ false → handle_get_file F u owner s ≡ (2, none)
  unfolding handle_get_file
  unknown_user t = ground arith

  offline_user :
      F.access s (user_path u) ≡ true
      → F.access s (connect_path u) ≡ false
      → handle_get_file F u owner s ≡ (2, none)
  unfolding handle_get_file
  offline_user t c = ground arith

  -- What `handle_get_file` answers, whoever asks.
  pub get_file-find_spec : handle_get_file F u owner s ≡ find_spec u owner (users F s)
  get_file-find_spec = elim (standing L s h) [
    | unknown p t v ↦ unknown_user t ∙ sym (refused (ap online_in v))
    | offline p t c v o ↦ offline_user t c ∙ sym (refused (ap online_in v ∙ ap text_of o))
    | online x p t c v o ↦
        opened t c _ (read_owner (standing L s k)) ∙ sym (answered (ap online_in v ∙ o))
  ]
