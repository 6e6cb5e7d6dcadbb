-- ===== src/Accept/Invariant.antt =====
-- What holds between any two steps of the accept loop: where `main` and the newest thread can be
-- together, and what the other threads have.
use peer_to_peer_fileshare.Base.{
  ℕ, zero, suc, ◌≡◌, Bool, true, false, not, ap, refl, subst, ◌&&◌, none, some, List, [], ◌∷◌, ◌==◌,
  nat_eq, arith, Option-cases, inl, inr, if◌then◌else◌,
}
use mathlib.Core.Option.{some-injective}
use peer_to_peer_fileshare.Accept.Defs.{
  Holder, free, by_main, by_thread, MainAt, accepting, creating, locking, testing, waiting,
  resetting, unlocking, returned, Thread, starting, locked, copied, cleared, signalled, running,
  Server, server, main_step, thread_step, push, nth_step, Move, main_moves, thread_moves, step, run,
}

-- A thread's copy, where it has made it, is the socket that was accepted for it.
abbrev pub is_right : Thread → Bool
is_right (starting fd) = true
is_right (locked fd) = true
is_right (copied fd v) = v == fd
is_right (cleared fd v) = v == fd
is_right (signalled fd v) = v == fd
is_right (running fd v) = v == fd

abbrev pub all_right : List Thread → Bool
all_right [] = true
all_right (t ∷ ts) = is_right t && all_right ts

abbrev pub threads_right : Server → Bool
threads_right (server sc flag m p ts) = all_right ts
threads_right returned = true

-- Threads that have their copy and left the mutex.
abbrev pub settled : List Thread → Bool
settled [] = true
settled (running fd v ∷ ts) = (v == fd) && settled ts
settled (starting fd ∷ ts) = false
settled (locked fd ∷ ts) = false
settled (copied fd v ∷ ts) = false
settled (cleared fd v ∷ ts) = false
settled (signalled fd v ∷ ts) = false

-- `main` takes no new connection before the newest thread has its copy.
abbrev pub is_between : MainAt → Bool
is_between accepting = true
is_between creating = true
is_between locking = false
is_between testing = false
is_between waiting = false
is_between resetting = false
is_between unlocking = false

abbrev pub is_free : Holder → Bool
is_free free = true
is_free by_main = false
is_free by_thread = false

-- Where `main` can be while the newest thread is at its first lock, by who holds the mutex.
abbrev pub while_starting : Holder → MainAt → Bool
while_starting free locking = true
while_starting free waiting = true
while_starting by_main testing = true
while_starting m p = false

-- The same while the thread holds the mutex: before its signal, and after it.
abbrev pub while_locked : Holder → MainAt → Bool
while_locked by_thread locking = true
while_locked by_thread waiting = true
while_locked m p = false

abbrev pub while_signalled : Holder → MainAt → Bool
while_signalled by_thread locking = true
while_signalled m p = false

-- And after its unlock: with the flag still cleared, and with the flag set again.
abbrev pub while_cleared : Holder → MainAt → Bool
while_cleared free locking = true
while_cleared by_main testing = true
while_cleared by_main resetting = true
while_cleared m p = false

abbrev pub while_reset : Holder → MainAt → Bool
while_reset by_main unlocking = true
while_reset m p = false

abbrev pub newest : ℕ → Bool → Holder → MainAt → Thread → Bool
newest sc flag m p (starting fd) = (fd == sc) && flag && while_starting m p
newest sc flag m p (locked fd) = (fd == sc) && flag && while_locked m p
newest sc flag m p (copied fd v) = (v == fd) && flag && while_locked m p
newest sc flag m p (cleared fd v) = (v == fd) && not flag && while_locked m p
newest sc flag m p (signalled fd v) = (v == fd) && not flag && while_signalled m p
newest sc flag m p (running fd v) =
    (v == fd) && (if flag then while_reset m p else while_cleared m p)

abbrev pub handing : ℕ → Bool → Holder → MainAt → List Thread → Bool
handing sc flag m p [] = false
handing sc flag m p (t ∷ ts) = newest sc flag m p t && settled ts

-- What holds between any two steps.
abbrev pub invariant : Server → Bool
invariant (server sc flag m p ts) =
    if is_between p then flag && is_free m && settled ts else handing sc flag m p ts
invariant returned = true

settled-nth_step :
    (n : ℕ) (ts : List Thread) (sc : ℕ) (flag : Bool) (m : Holder) (p : MainAt)
    → settled ts ≡ true
    → nth_step n ts sc flag m p ≡ none
unfolding nth_step
settled-nth_step n [] sc flag m p h = refl
settled-nth_step zero (t ∷ ts) sc flag m p h = unfold thread_step in ground arith
settled-nth_step (suc n) (t ∷ ts) sc flag m p h =
    ap (push t) (settled-nth_step n ts sc flag m p (ground arith))

main_step-invariant :
    (fd : ℕ) (wakes creates : Bool) (s t : Server)
    → invariant s ≡ true
    → main_step fd wakes creates s ≡ some t
    → invariant t ≡ true
unfolding main_step
main_step-invariant fd wakes creates (server sc flag m p ts) t h e = ground arith
main_step-invariant fd wakes creates returned t h e = cc

thread_step-invariant :
    (t : Thread) (sc : ℕ) (flag : Bool) (m : Holder) (p : MainAt) (ts : List Thread) (v : Server)
    → invariant (server sc flag m p (t ∷ ts)) ≡ true
    → thread_step t (server sc flag m p ts) ≡ some v
    → invariant v ≡ true
unfolding thread_step
thread_step-invariant t sc flag m p ts v h e = ground arith

-- A thread with newer ones is settled or blocked, so only `main` and the newest thread move.
nth_step-invariant :
    (n : ℕ) (ts : List Thread) (sc : ℕ) (flag : Bool) (m : Holder) (p : MainAt) (v : Server)
    → invariant (server sc flag m p ts) ≡ true
    → nth_step n ts sc flag m p ≡ some v
    → invariant v ≡ true
unfolding nth_step
nth_step-invariant n [] sc flag m p v h e = cc
nth_step-invariant zero (t ∷ ts) sc flag m p v h e = thread_step-invariant t sc flag m p ts v h e
nth_step-invariant (suc n) (t ∷ ts) sc flag m p v h e =
    let older : settled ts ≡ true = ground arith in
    cc (e, ap (push t) (settled-nth_step n ts sc flag m p older))

step-invariant :
    (a : Move) (s t : Server) → invariant s ≡ true → step a s ≡ some t → invariant t ≡ true
unfolding step
step-invariant (main_moves fd wakes creates) s t h e = main_step-invariant fd wakes creates s t h e
step-invariant (thread_moves n) (server sc flag m p ts) t h e =
    nth_step-invariant n ts sc flag m p t h e
step-invariant (thread_moves n) returned t h e = cc

pub run-invariant :
    (moves : List Move) (s t : Server)
    → invariant s ≡ true
    → run moves s ≡ some t
    → invariant t ≡ true
unfolding run
run-invariant [] s t h e = subst (λ x. invariant x ≡ true) (some-injective _ _ e) h
run-invariant (a ∷ rest) s t h e = elim (Option-cases (step a s)) [
  | inl blocked ↦ cc
  | inr (u, moved) ↦ run-invariant rest u t (step-invariant a s u h moved) (rw (moved, run) at e)
]
