-- ===== src/Tests/Sockets.antt =====
-- A table of descriptors that satisfies `IsLawfulNetwork`, and what the file system in memory sets `errno` to.
use peer_to_peer_fileshare.Base.{
  ℕ, ◌+◌, ◌≡◌, refl, sym, ap, subst, arith, ltb, Bool, true, false, Option, none, some, nat_eq,
  if◌then◌else◌,
}
use mathlib.Core.Option.{some-injective}
use peer_to_peer_fileshare.Posix.{is_present}
use peer_to_peer_fileshare.Posix.Memory.{memory}
use peer_to_peer_fileshare.Comm.Network.{
  Endpoint, unused, other, fresh, bound, listening, connection, put, Network, IsLawfulNetwork,
}
use peer_to_peer_fileshare.Start.{Errno}

-- Each descriptor's end, and the one that is tried next.
pub record Table : Type 0 where
  pub ends : ℕ → Endpoint
  pub next : ℕ

abbrev pub is_unused : Endpoint → Bool
is_unused unused = true
is_unused other = false
is_unused fresh = false
is_unused connection = false
is_unused (bound q) = false
is_unused (listening q) = false

abbrev pub port_bound : Endpoint → Option ℕ
port_bound unused = none
port_bound other = none
port_bound fresh = none
port_bound connection = none
port_bound (bound q) = some q
port_bound (listening q) = none

abbrev pub port_heard : Endpoint → Option ℕ
port_heard unused = none
port_heard other = none
port_heard fresh = none
port_heard connection = none
port_heard (bound q) = none
port_heard (listening q) = some q

abbrev pub set_end : Table → ℕ → Endpoint → Table
set_end t d v = record { ends = put t.ends d v; next = t.next + 1 }

abbrev pub fresh_end : Table → Endpoint → Option (ℕ × Table)
fresh_end t v = if is_unused (t.ends t.next) then some (t.next, set_end t t.next v) else none

abbrev pub heard_end : Table → ℕ → Option ℕ → Option Table
heard_end t d none = none
heard_end t d (some q) = some (set_end t d (listening q))

abbrev pub accepted_end : Table → Option ℕ → Option (ℕ × Table)
accepted_end t none = none
accepted_end t (some q) = fresh_end t connection

abbrev pub table : Network
table = record {
  State = Table;
  endpoint = λ t. t.ends;
  socket = λ t. fresh_end t fresh;
  setsockopt = λ t d. t;
  bind = λ t d p. some (set_end t d (bound p));
  listen = λ t d. heard_end t d (port_bound (t.ends d));
  accept = λ t d. accepted_end t (port_heard (t.ends d));
  gethostbyname = λ t x. some x;
  connect = λ t d a p. some (set_end t d connection);
  close = λ t d. some (set_end t d unused);
}

is_unused_lem : (v : Endpoint) → is_unused v ≡ true → v ≡ unused
is_unused_lem v h = ground arith

port_heard_lem : (v : Endpoint) (q : ℕ) → port_heard v ≡ some q → v ≡ listening q
port_heard_lem v q h = ground arith

module _ (t : Table) (v : Endpoint) (d : ℕ) (x : Table) where
  fresh_end_cases :
      (b : Bool)
      → is_unused (t.ends t.next) ≡ b
      → if◌then◌else◌ {A = Option (ℕ × Table)} b (some (t.next, set_end t t.next v)) none
        ≡ some (d, x)
      → (t.ends d ≡ unused) × (x.ends ≡ put t.ends d v)
  fresh_end_cases true h e =
      subst (λ (r : ℕ × Table). (t.ends r.0 ≡ unused) × (r.1.ends ≡ put t.ends r.0 v))
        (some-injective _ _ e) (is_unused_lem _ h, refl)
  fresh_end_cases false h e = absurd (cc e)

  fresh_end_lem : fresh_end t v ≡ some (d, x) → (t.ends d ≡ unused) × (x.ends ≡ put t.ends d v)
  fresh_end_lem e = fresh_end_cases (is_unused (t.ends t.next)) refl e

accepted_end_lem :
    (t : Table) (d c : ℕ) (x : Table) (o : Option ℕ)
    → port_heard (t.ends d) ≡ o
    → accepted_end t o ≡ some (c, x)
    → (q : ℕ) × (t.ends d ≡ listening q) × (t.ends c ≡ unused) × (x.ends ≡ put t.ends c connection)
accepted_end_lem t d c x none h e = absurd (cc e)
accepted_end_lem t d c x (some q) h e =
    let (free, f) = fresh_end_lem t connection c x e in (q, port_heard_lem _ q h, free, f)

ends_of : (t x : Table) → some t ≡ some x → x.ends ≡ t.ends
ends_of t x e = ap (λ (y : Table). y.ends) (sym (some-injective _ _ e))

pub table-IsLawfulNetwork : IsLawfulNetwork table
table-IsLawfulNetwork = record {
  socket_some = λ w d x e. fresh_end_lem w fresh d x e;
  setsockopt_lem = λ w d. refl;
  bind_some = λ w d p x e. (p, λ h. refl, ends_of (set_end w d (bound p)) x e);
  listen_some = λ w d q x e f.
      ends_of (set_end w d (listening q)) x
        (subst (λ o. heard_end w d o ≡ some x) (ap port_bound e) f);
  accept_some = λ w d c x e. accepted_end_lem w d c x (port_heard (w.ends d)) refl e;
  connect_some = λ w d a p x e. ends_of (set_end w d connection) x e;
  close_some = λ w d x e. ends_of (set_end w d unused) x e;
}

-- Descriptors 0, 1 and 2 are taken, and no socket is open.
abbrev pub at_boot : Table
at_boot = record { ends = λ d. if ltb d 3 then other else unused; next = 3 }

-- No descriptor is left.
abbrev pub exhausted : Table
exhausted = record { ends = λ d. other; next = 3 }

abbrev pub errno : Errno memory
errno = record {
  is_eexist = λ s p. is_present (memory.node s (memory.resolve p));
  is_eexist_lem = λ s p e h. h;
  is_eexist_there = λ s p e h. h;
}
