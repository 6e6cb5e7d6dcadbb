-- ===== src/Request/Release.antt =====
-- The thread that holds `file_mutex`.
use peer_to_peer_fileshare.Base.{list_eq, ℕ, zero, suc, ◌≡◌, false, Option, none, some, nat_eq, ◌⊎◌}
use peer_to_peer_fileshare.CString.{codes}
use peer_to_peer_fileshare.Posix.{Place, Node, FileSystem, IsLawful, IsReliable, IsRelative}
use peer_to_peer_fileshare.Handle.Places.{base}
use peer_to_peer_fileshare.Handle.Tidy.{IsTidy}
use peer_to_peer_fileshare.Handle.Tidy.Stable.{IsClear, Both}
use peer_to_peer_fileshare.Request.Evolution.{AreNames}
use peer_to_peer_fileshare.Request.Rules.{Rules}
use peer_to_peer_fileshare.Request.Threads.{Answers, Threads, advance}

module _ {S : Type 0} (i : ℕ) where
  -- Thread `i` makes its next calls, as many as told, and no other thread does.
  unfoldable pub solo : (ℕ → Answers) → ℕ → Threads S → Option (Threads S)
  unfolding advance
  solo a zero v = some v
  solo a (suc n) v = elim (advance i (a zero) v) [
    | none ↦ none
    | some w ↦ solo (λ m. a (suc m)) n w
  ]

  -- After enough of its calls the mutex is free, or the process has ended.
  abbrev pub Releases : (ℕ → Answers) → Threads S → Type 0
  Releases a v =
      (n : ℕ) × (w : Threads S) × (solo a n v ≡ some w) × ((w.holder ≡ none) ⊎ (w.runs ≡ false))

-- Nothing in the server's working directory but the directory of users is a directory, as far as the files
-- for the lists go, and the directory of users is tidy.
abbrev pub IsReady : (F : FileSystem) → (Place → Node) → Type 0
IsReady F = Both (λ f. IsTidy f (base F)) (IsClear (F.resolve (codes ".")))

module _ {F : FileSystem} (L : IsLawful F) (R : IsReliable F) (W : IsRelative F) where
  -- The files are ready throughout, and no thread ends with the mutex locked.
  abbrev strict : Rules F.State
  strict = record {
    allowed = AreNames;
    here = λ s. IsReady F (F.node s);
    may = λ f. (s : F.State) → IsReady F (F.node s) → IsReady F (F.node (f s));
    keeps = λ f m. m;
    may_leave = ⊥;
  }
