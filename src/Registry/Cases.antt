-- ===== src/Registry/Cases.antt =====
-- The operations of a registry, case by case.
use peer_to_peer_fileshare.Base.{◌≡◌, none, some, arith}
use peer_to_peer_fileshare.CString.{Text}
use peer_to_peer_fileshare.Registry.Spec.{
  Account, Registry, set, set_file, connect_spec, publish_spec, delete_spec,
}

module _ (g : Registry) (u : Text) {a : Account} (known : g u ≡ some a) where
  pub connect_again : (contact x : Text) → a.online ≡ some x → connect_spec u contact g ≡ (2, g)
  connect_again contact x o = rw (known, connect_spec) (ground arith)

  pub connect_first :
      (contact : Text)
      → a.online ≡ none
      → connect_spec u contact g ≡ (0, set u (some (record a { online = some contact })) g)
  connect_first contact o = rw (known, connect_spec) (ground arith)

  pub publish_offline : (f d : Text) → a.online ≡ none → publish_spec u f d g ≡ (2, g)
  publish_offline f d o = rw (known, publish_spec) (ground arith)

  pub delete_offline : (f : Text) → a.online ≡ none → delete_spec u f g ≡ (2, g)
  delete_offline f o = rw (known, delete_spec) (ground arith)

  module _ {x : Text} (on : a.online ≡ some x) where
    pub publish_again : (f d : Text) {e : Text} → a.files f ≡ some e → publish_spec u f d g ≡ (3, g)
    publish_again f d there = rw (known, publish_spec) (ground arith)

    pub publish_first :
        (f d : Text)
        → a.files f ≡ none
        → publish_spec u f d g
          ≡ (0, set u (some (record a { files = set_file f (some d) a.files })) g)
    publish_first f d free = rw (known, publish_spec) (ground arith)

    pub delete_missing : (f : Text) → a.files f ≡ none → delete_spec u f g ≡ (3, g)
    delete_missing f free = rw (known, delete_spec) (ground arith)

    pub delete_there :
        (f : Text) {e : Text}
        → a.files f ≡ some e
        → delete_spec u f g ≡ (0, set u (some (record a { files = set_file f none a.files })) g)
    delete_there f there = rw (known, delete_spec) (ground arith)
