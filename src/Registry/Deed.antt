-- ===== src/Registry/Deed.antt =====
-- One operation of a registry, and what an account can lose.
use peer_to_peer_fileshare.Base.{◌≡◌, ◌⊎◌, Option, none, some}
use peer_to_peer_fileshare.CString.{Text}
use peer_to_peer_fileshare.Registry.Spec.{
  Account, Registry, register_spec, connect_spec, publish_spec, delete_spec, disconnect_spec,
}

-- What is left of an account that loses things: it goes offline or not, its files go or stay.
abbrev pub Loses : Option Account → Option Account → Type 0
Loses a none = Unit
Loses none (some b) = ⊥
Loses (some a) (some b) =
    ((b.online ≡ a.online) ⊎ (b.online ≡ none))
    × ((x : Text) → (b.files x ≡ a.files x) ⊎ (b.files x ≡ none))

-- One operation but a removal, whatever its code.
pub data Deed (g : Registry) : Registry → Type 0 where
  nothing : Deed g g
  registered : (u : Text) → Deed g (register_spec u g).1
  connected : (u contact : Text) → Deed g (connect_spec u contact g).1
  published : (u f description : Text) → Deed g (publish_spec u f description g).1
  deleted : (u f : Text) → Deed g (delete_spec u f g).1
  disconnected : (u : Text) → Deed g (disconnect_spec u g).1
