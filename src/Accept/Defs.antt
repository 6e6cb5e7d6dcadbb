-- ===== src/Accept/Defs.antt =====
-- The states and the steps of the accept loop and of the threads that it creates.
use peer_to_peer_fileshare.Base.{ℕ, zero, suc, Bool, true, false, Option, none, some, List, [], ◌∷◌}

-- Who holds `mutex`.
pub data Holder : Type 0 where
  free by_main by_thread : Holder

-- Where `main` is: before `serverAccept`, before `pthread_create`, before the lock (also when
-- `pthread_cond_wait` has returned to it), before the test of `mensaje_no_copiado`, asleep in
-- `pthread_cond_wait`, before the flag is set again, and before the unlock.
pub data MainAt : Type 0 where
  accepting creating locking testing waiting resetting unlocking : MainAt

-- Where a thread is, with the socket that was accepted for it and, once it has one, its copy: before
-- the lock, before the copy, before the flag is cleared, before the signal, before the unlock, after it.
pub data Thread : Type 0 where
  starting locked : ℕ → Thread
  copied cleared signalled running : ℕ → ℕ → Thread

-- `sc`, `mensaje_no_copiado`, `mutex`, the place of `main`, and the threads, the newest first. A socket
-- is its number and one, so that 0 stands for the -1 of a failed `serverAccept`. `returned`: `main` has
-- returned -1, and with it the process has ended, whatever its threads were about to do.
pub data Server : Type 0 where
  server : ℕ → Bool → Holder → MainAt → List Thread → Server
  returned : Server

abbrev pub initial : Server
initial = server 0 true free accepting []

-- `pthread_cond_signal` wakes `main` if it is asleep.
abbrev pub signal : MainAt → MainAt
signal waiting = locking
signal accepting = accepting
signal creating = creating
signal locking = locking
signal testing = testing
signal resetting = resetting
signal unlocking = unlocking

-- The next statement of `main`. The argument is what `serverAccept` returns, if it is called; `wakes`
-- says that `pthread_cond_wait` returns without a signal, as POSIX allows, and `creates` that
-- `pthread_create` returns 0. `none`: `main` is blocked, or there is no `main`.
unfoldable pub main_step : ℕ → Bool → Bool → Server → Option Server
main_step fd wakes creates (server sc flag m accepting ts) = elim fd [
  | zero ↦ some (server 0 flag m accepting ts)
  | suc n ↦ some (server (suc n) flag m creating ts)
]
main_step fd wakes true (server sc flag m creating ts) =
    some (server sc flag m locking (starting sc ∷ ts))
main_step fd wakes false (server sc flag m creating ts) = some returned
main_step fd wakes creates (server sc flag free locking ts) =
    some (server sc flag by_main testing ts)
main_step fd wakes creates (server sc flag by_main locking ts) = none
main_step fd wakes creates (server sc flag by_thread locking ts) = none
main_step fd wakes creates (server sc true m testing ts) = some (server sc true free waiting ts)
main_step fd wakes creates (server sc false m testing ts) = some (server sc false m resetting ts)
main_step fd true creates (server sc flag m waiting ts) = some (server sc flag m locking ts)
main_step fd false creates (server sc flag m waiting ts) = none
main_step fd wakes creates (server sc flag m resetting ts) = some (server sc true m unlocking ts)
main_step fd wakes creates (server sc flag m unlocking ts) = some (server sc flag free accepting ts)
main_step fd wakes creates returned = none

-- The next statement of the newest of the threads, as a state whose threads are the others.
unfoldable pub thread_step : Thread → Server → Option Server
thread_step (starting fd) (server sc flag free p ts) =
    some (server sc flag by_thread p (locked fd ∷ ts))
thread_step (starting fd) (server sc flag by_main p ts) = none
thread_step (starting fd) (server sc flag by_thread p ts) = none
thread_step (locked fd) (server sc flag m p ts) = some (server sc flag m p (copied fd sc ∷ ts))
thread_step (copied fd v) (server sc flag m p ts) = some (server sc false m p (cleared fd v ∷ ts))
thread_step (cleared fd v) (server sc flag m p ts) =
    some (server sc flag m (signal p) (signalled fd v ∷ ts))
thread_step (signalled fd v) (server sc flag m p ts) =
    some (server sc flag free p (running fd v ∷ ts))
thread_step (running fd v) (server sc flag m p ts) = none
thread_step t returned = none

-- A thread that stands before the others is put back.
abbrev pub push : Thread → Option Server → Option Server
push t none = none
push t (some (server sc flag m p ts)) = some (server sc flag m p (t ∷ ts))
push t (some returned) = some returned

-- The next statement of the thread with `n` newer ones.
unfoldable pub nth_step : ℕ → List Thread → ℕ → Bool → Holder → MainAt → Option Server
unfolding thread_step
nth_step n [] sc flag m p = none
nth_step zero (t ∷ ts) sc flag m p = thread_step t (server sc flag m p ts)
nth_step (suc n) (t ∷ ts) sc flag m p = push t (nth_step n ts sc flag m p)

-- Who moves next.
pub data Move : Type 0 where
  main_moves : ℕ → Bool → Bool → Move
  thread_moves : ℕ → Move

unfoldable pub step : Move → Server → Option Server
unfolding main_step nth_step
step (main_moves fd wakes creates) s = main_step fd wakes creates s
step (thread_moves n) (server sc flag m p ts) = nth_step n ts sc flag m p
step (thread_moves n) returned = none

-- A run of the server from the state given; `none` if some move in it was blocked.
unfoldable pub run : List Move → Server → Option Server
unfolding step
run [] s = some s
run (a ∷ rest) s = elim (step a s) [ none ↦ none | some t ↦ run rest t ]
