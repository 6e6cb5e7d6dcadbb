-- ===== src/Request/Exclusion.antt =====
-- The server under rules that are about the mutex only, with or without leave to end with it locked.
use peer_to_peer_fileshare.Base.{ℕ, ◌≡◌, Bool, true, false, none, nat_eq}
use peer_to_peer_fileshare.CString.{Text}
use peer_to_peer_fileshare.Posix.{FileSystem}
use peer_to_peer_fileshare.Request.{
  Field, Line, arrived, hung_up, broken_off, Program, reads, writes, logs, asks_peer, locks,
  unlocks, touches, closes, thread_exit, process_exit, out_of_fuel, Stale, unregister_call,
  open_users, open_content,
}
use peer_to_peer_fileshare.Request.Rules.{Rules, Obeys, Admits}
use peer_to_peer_fileshare.Request.Obedience.{Permits}
use peer_to_peer_fileshare.Request.Whole.{tratar_peticion-Obeys}
use peer_to_peer_fileshare.Request.Threads.{Answers, Admissible, Threads, holds, Run, opened}
use peer_to_peer_fileshare.Request.Order.{IsInOrder, Run-IsInOrder}

-- A thread that holds the mutex, or not, where it stands before its next call.
abbrev pub IsDisciplined : {S : Type 0} → Bool → Program S → Type 0
IsDisciplined held (locks p) = held ≡ false
IsDisciplined held (unlocks p) = held ≡ true
IsDisciplined held (touches f k) = held ≡ true
IsDisciplined held (reads f k) = Unit
IsDisciplined held (writes x k) = Unit
IsDisciplined held (logs x k) = Unit
IsDisciplined held (asks_peer k) = Unit
IsDisciplined held (closes p) = Unit
IsDisciplined held thread_exit = Unit
IsDisciplined held (process_exit n) = Unit
IsDisciplined held out_of_fuel = Unit

Obeys-IsDisciplined :
    {S : Type 0} (R : Rules S) (old : Stale) (held : Bool) (p : Program S)
    → Obeys R old held p
    → IsDisciplined held p
Obeys-IsDisciplined R old held (locks p) h = h.0
Obeys-IsDisciplined R old held (unlocks p) h = h.0
Obeys-IsDisciplined R old held (touches f k) h = h.0
Obeys-IsDisciplined R old held (reads f k) h = tt
Obeys-IsDisciplined R old held (writes x k) h = tt
Obeys-IsDisciplined R old held (logs x k) h = tt
Obeys-IsDisciplined R old held (asks_peer k) h = tt
Obeys-IsDisciplined R old held (closes p) h = tt
Obeys-IsDisciplined R old held thread_exit h = tt
Obeys-IsDisciplined R old held (process_exit n) h = tt
Obeys-IsDisciplined R old held out_of_fuel h = tt

-- The rules that are about the mutex only.
abbrev pub any : (S Leave : Type 0) → Rules S
any S Leave = record {
  allowed = λ f x. Unit;
  here = λ s. Unit;
  may = λ f. Unit;
  keeps = λ f m s h. tt;
  may_leave = Leave;
}

pub admits : (S Leave : Type 0) (old : Stale) (f : Field) (l : Line) → Admits (any S Leave) old f l
admits S Leave old f (arrived x) = tt
admits S Leave old f hung_up = tt
admits S Leave old f broken_off = tt

pub any-Admissible :
    {S : Type 0} (Leave : Type 0) (old : Stale) (p : Program S) (a : Answers)
    → Admissible (any S Leave) old p a
any-Admissible {S} Leave old (reads f k) a = admits S Leave old f a.line
any-Admissible Leave old (writes x k) a = tt
any-Admissible Leave old (logs x k) a = tt
any-Admissible Leave old (asks_peer k) a = tt
any-Admissible Leave old (locks p) a = tt
any-Admissible Leave old (unlocks p) a = tt
any-Admissible Leave old (touches f k) a = tt
any-Admissible Leave old (closes p) a = tt
any-Admissible Leave old thread_exit a = tt
any-Admissible Leave old (process_exit n) a = tt
any-Admissible Leave old out_of_fuel a = tt

module _ (F : FileSystem) (old : ℕ → Stale) (fuel : F.State → ℕ) where
  pub any-Permits :
      (Leave : Type 0)
      → ((u : Text) (s : F.State) → (unregister_call F fuel u s).0 ≡ none → Leave)
      → ((u : Text) (s : F.State) → (open_users F u s).0 ≡ none → Leave)
      → ((u o : Text) (s : F.State) → (open_content F u o s).0 ≡ none → Leave)
      → Permits F fuel (any F.State Leave)
  any-Permits Leave ended users content = record {
    same = tt;
    register = λ u a. tt;
    unregister = λ u a. tt;
    unregister_ended = λ u s a h e. ended u s e;
    connect = λ u p x a. tt;
    publish = λ u f d a b. tt;
    delete = λ u f a b. tt;
    disconnect = λ u a. tt;
    users = λ u a. tt;
    users_closed = λ u s a h e. users u s e;
    users_removal = λ u a. tt;
    content = λ u o a b. tt;
    content_closed = λ u o s a b h e. content u o s e;
    content_removal = λ u o a b. tt;
  }

  pub opened-IsInOrder : (s : F.State) → IsInOrder (any F.State Unit) old (opened F old fuel s)
  opened-IsInOrder s = (
    tt,
    λ i.
        tratar_peticion-Obeys F fuel (any F.State Unit)
          (any-Permits Unit (λ u s e. tt) (λ u s e. tt) (λ u o s e. tt)) (old i),
  )

  -- However the threads take turns and whatever the sockets, the log and the network answer: a thread
  -- that stands before a call on the files or before an unlock holds `file_mutex`, and one that stands
  -- before a lock does not. So no two threads are at the files at once, and no thread waits for itself.
  pub Run-IsDisciplined :
      (s : F.State) (v : Threads F.State)
      → Run (any F.State Unit) old (opened F old fuel s) v
      → (i : ℕ) → IsDisciplined (holds i v.holder) (v.rest i)
  Run-IsDisciplined s v r i =
      Obeys-IsDisciplined (any F.State Unit) (old i) (holds i v.holder) (v.rest i)
        ((Run-IsInOrder (any F.State Unit) old (opened-IsInOrder s) r).1 i)
