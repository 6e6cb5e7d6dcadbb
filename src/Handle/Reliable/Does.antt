-- ===== src/Handle/Reliable/Does.antt =====
-- A handler that does one operation of the registry and keeps the layout.
use peer_to_peer_fileshare.Base.{ℕ, ◌≡◌, sym, subst}
use peer_to_peer_fileshare.Posix.{FileSystem}
use peer_to_peer_fileshare.Registry.{Registry}
use peer_to_peer_fileshare.Handle.Places.{base}
use peer_to_peer_fileshare.Handle.Access.{users, Carries, carries}
use peer_to_peer_fileshare.Handle.Layout.{IsLaid}

abbrev pub Laid : (F : FileSystem) → F.State → Type 0
Laid F s = IsLaid (F.node s) (base F)

abbrev pub Does : (F : FileSystem) → ℕ × F.State → ℕ × Registry → Type 0
Does F r spec = Carries F r spec × Laid F r.1

pub does :
    (F : FileSystem) {r : ℕ × F.State} {spec : ℕ × Registry} (c : ℕ) (t : F.State) (g : Registry)
    → r ≡ (c, t)
    → users F t ≡ g
    → spec ≡ (c, g)
    → Laid F t
    → Does F r spec
does F c t g run shown same laid =
    (carries F c t g run shown same, subst (λ x. Laid F x.1) (sym run) laid)
