-- ===== src/Registry/Spec.antt =====
-- Accounts, registries, and the operations that the handlers of servidor_handle.c stand for.
use peer_to_peer_fileshare.Base.{ℕ, Option, none, some, ◌==◌, list_eq, nat_eq, if◌then◌else◌}
use peer_to_peer_fileshare.CString.{Text}

-- A user: what it told of its own server when it connected, and the descriptions of its files.
pub record Account : Type 0 where
  pub online : Option Text
  pub files : Text → Option Text

abbrev pub Registry : Type 0
Registry = Text → Option Account

abbrev pub set : Text → Option Account → Registry → Registry
set u a g v = if v == u then a else g v

abbrev pub set_file : Text → Option Text → (Text → Option Text) → Text → Option Text
set_file f d m g = if g == f then d else m g

abbrev pub new_account : Account
new_account = record { online = none; files = λ f. none }

abbrev pub register_spec : Text → Registry → ℕ × Registry
register_spec u g = elim (g u) [ some a ↦ (1, g) | none ↦ (0, set u (some new_account) g) ]

abbrev pub connect_spec : Text → Text → Registry → ℕ × Registry
connect_spec u contact g = elim (g u) [
  | none ↦ (1, g)
  | some a ↦ elim a.online [
    | some x ↦ (2, g)
    | none ↦ (0, set u (some (record a { online = some contact })) g)
  ]
]

abbrev pub publish_spec : Text → Text → Text → Registry → ℕ × Registry
publish_spec u f description g = elim (g u) [
  | none ↦ (1, g)
  | some a ↦ elim a.online [
    | none ↦ (2, g)
    | some x ↦ elim (a.files f) [
      | some d ↦ (3, g)
      | none ↦ (0, set u (some (record a { files = set_file f (some description) a.files })) g)
    ]
  ]
]

abbrev pub delete_spec : Text → Text → Registry → ℕ × Registry
delete_spec u f g = elim (g u) [
  | none ↦ (1, g)
  | some a ↦ elim a.online [
    | none ↦ (2, g)
    | some x ↦ elim (a.files f) [
      | none ↦ (3, g)
      | some d ↦ (0, set u (some (record a { files = set_file f none a.files })) g)
    ]
  ]
]

abbrev pub disconnect_spec : Text → Registry → ℕ × Registry
disconnect_spec u g = elim (g u) [
  | none ↦ (1, g)
  | some a ↦ elim a.online [
    | none ↦ (2, g)
    | some x ↦ (0, set u (some (record a { online = none })) g)
  ]
]

abbrev pub unregister_spec : Text → Registry → ℕ × Registry
unregister_spec u g = elim (g u) [ none ↦ (1, g) | some a ↦ (0, set u none g) ]
