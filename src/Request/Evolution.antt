-- ===== src/Request/Evolution.antt =====
-- The accounts while the threads take turns.
use peer_to_peer_fileshare.Base.{ℕ}
use peer_to_peer_fileshare.CString.{Text}
use peer_to_peer_fileshare.Posix.{IsName, FileSystem, IsLawful, IsRelative}
use peer_to_peer_fileshare.Request.{
  Field, operation, c_time_string, username, file_name, owner, port_str, description, Stale,
}
use peer_to_peer_fileshare.Request.Rules.{Rules}
use peer_to_peer_fileshare.Request.Threads.{Threads}
use peer_to_peer_fileshare.Request.History.{Change, History}
use peer_to_peer_fileshare.Request.ListFiles.{IsShort}

-- The names that the clients send.
abbrev pub AreNames : Field → Text → Type 0
AreNames username x = IsShort x
AreNames owner x = IsShort x
AreNames file_name x = IsName x
AreNames operation x = Unit
AreNames c_time_string x = Unit
AreNames port_str x = Unit
AreNames description x = Unit

module _ {F : FileSystem} (L : IsLawful F) (W : IsRelative F) (fuel : F.State → ℕ)
    (old : ℕ → Stale) where
  -- Names are sent where names are read, and each call on the files does one operation on the accounts.
  abbrev pub named : Rules F.State
  named = record {
    allowed = AreNames;
    here = λ s. Unit;
    may = λ f. (s : F.State) → Change F fuel s (f s);
    keeps = λ f m s h. tt;
    may_leave = Unit;
  }
