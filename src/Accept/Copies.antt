-- ===== src/Accept/Copies.antt =====
-- The copies that the threads make of `sc`, and the wake-ups of `main`.
use peer_to_peer_fileshare.Base.{
  ℕ, zero, suc, ◌≡◌, Bool, true, false, refl, ◌⊎◌, some, List, [], ◌∷◌, nat_eq, arith, inl, inr,
  subst, ◌&&◌, Option-cases, Bool-cases,
}
use mathlib.Core.Option.{some-injective}
use peer_to_peer_fileshare.Accept.Defs.{
  Holder, MainAt, nth_step, main_step, free, by_main, by_thread, accepting, creating, locking,
  testing, waiting, resetting, unlocking, Thread, starting, locked, copied, cleared, signalled,
  running, Server, server, returned, initial, thread_step, Move, main_moves, thread_moves, step,
  run,
}
use peer_to_peer_fileshare.Accept.Invariant.{
  all_right, threads_right, settled, newest, invariant, run-invariant,
}

settled-right : (ts : List Thread) → settled ts ≡ true → all_right ts ≡ true
settled-right [] h = refl
settled-right (t ∷ ts) h = ground (arith, settled-right ts)

invariant-right : (s : Server) → invariant s ≡ true → threads_right s ≡ true
invariant-right returned h = refl
invariant-right (server sc flag m p []) h = refl
invariant-right (server sc flag m p (t ∷ ts)) h = ground (arith, settled-right ts)

-- However the steps of `main` and of the threads are interleaved from the start on, every thread
-- that has made its copy has the socket that was accepted for it.
pub run-threads_right :
    (moves : List Move) (s : Server) → run moves initial ≡ some s → threads_right s ≡ true
run-threads_right moves s e = invariant-right s (run-invariant moves initial s refl e)

-- The newest thread goes on while `main` sleeps, or waits for a mutex that the thread holds.
asleep-thread_step :
    (sc : ℕ) (flag : Bool) (m : Holder) (t : Thread) (ts : List Thread)
    → newest sc flag m waiting t ≡ true
    → (v : Server) × (thread_step t (server sc flag m waiting ts) ≡ some v)
unfolding thread_step
asleep-thread_step sc flag free (starting fd) ts h = (_, refl)
asleep-thread_step sc flag by_main (starting fd) ts h = absurd (ground arith)
asleep-thread_step sc flag by_thread (starting fd) ts h = absurd (ground arith)
asleep-thread_step sc flag m (locked fd) ts h = (_, refl)
asleep-thread_step sc flag m (copied fd v) ts h = (_, refl)
asleep-thread_step sc flag m (cleared fd v) ts h = (_, refl)
asleep-thread_step sc flag m (signalled fd v) ts h = (_, refl)
asleep-thread_step sc flag m (running fd v) ts h = absurd (ground arith)

locked_out-thread_step :
    (sc : ℕ) (flag : Bool) (t : Thread) (ts : List Thread)
    → newest sc flag by_thread locking t ≡ true
    → (v : Server) × (thread_step t (server sc flag by_thread locking ts) ≡ some v)
unfolding thread_step
locked_out-thread_step sc flag (starting fd) ts h = absurd (ground arith)
locked_out-thread_step sc flag (locked fd) ts h = (_, refl)
locked_out-thread_step sc flag (copied fd v) ts h = (_, refl)
locked_out-thread_step sc flag (cleared fd v) ts h = (_, refl)
locked_out-thread_step sc flag (signalled fd v) ts h = (_, refl)
locked_out-thread_step sc flag (running fd v) ts h = absurd (ground arith)

newest_holds : (sc : ℕ) (flag : Bool) (t : Thread) → newest sc flag by_main locking t ≡ false
newest_holds sc flag t = ground arith

abbrev is_over : Server → Bool
is_over (server sc flag m p ts) = false
is_over returned = true

-- No call of `pthread_create` fails in the moves.
abbrev pub creates : Move → Bool
creates (main_moves fd wakes made) = made
creates (thread_moves n) = true

abbrev pub all_create : List Move → Bool
all_create [] = true
all_create (a ∷ rest) = creates a && all_create rest

nth_step-goes_on :
    (n : ℕ) (ts : List Thread) (sc : ℕ) (flag : Bool) (m : Holder) (p : MainAt) (t : Server)
    → nth_step n ts sc flag m p ≡ some t
    → is_over t ≡ false
unfolding nth_step
nth_step-goes_on n [] sc flag m p t e = cc
nth_step-goes_on zero (r ∷ ts) sc flag m p t e = unfold thread_step in ground arith
nth_step-goes_on (suc n) (r ∷ ts) sc flag m p t e =
    elim (Option-cases (nth_step n ts sc flag m p)) [
      | inl f ↦ cc
      | inr (u, f) ↦ ground (arith, nth_step-goes_on n ts sc flag m p u f)
    ]

step-goes_on :
    (a : Move) (s t : Server)
    → is_over s ≡ false
    → creates a ≡ true
    → step a s ≡ some t
    → is_over t ≡ false
unfolding step
step-goes_on (main_moves fd wakes made) (server sc flag m p ts) t h c e =
    unfold main_step in ground arith
step-goes_on (thread_moves n) (server sc flag m p ts) t h c e =
    nth_step-goes_on n ts sc flag m p t e
step-goes_on a returned t h c e = cc

run-goes_on :
    (moves : List Move) (s t : Server)
    → is_over s ≡ false
    → all_create moves ≡ true
    → run moves s ≡ some t
    → is_over t ≡ false
unfolding run
run-goes_on [] s t h c e = subst (λ x. is_over x ≡ false) (some-injective _ _ e) h
run-goes_on (a ∷ rest) s t h c e = elim (Option-cases (step a s)) [
  | inl blocked ↦ cc
  | inr (u, moved) ↦
      run-goes_on rest u t (step-goes_on a s u h (ground arith) moved) (ground arith)
        (rw (moved, run) at e)
]

run-returned :
    (moves : List Move) (s : Server)
    → is_over s ≡ false
    → run moves s ≡ some returned
    → all_create moves ≡ false
run-returned moves s h e = elim (Bool-cases (all_create moves)) [
  | inl c ↦ cc (run-goes_on moves s returned h c e)
  | inr c ↦ c
]

-- What can be done next without a spurious wake-up and without a failure of `pthread_create`.
abbrev pub GoesOn : Server → Type 0
GoesOn s =
    (t : Server) × ((step (main_moves 1 false true) s ≡ some t)
      ⊎ (step (thread_moves 0) s ≡ some t))

invariant-step : (s : Server) → invariant s ≡ true → is_over s ≡ false → GoesOn s
unfolding step
invariant-step returned h live = cc
invariant-step (server sc flag m accepting ts) h live = (_, inl refl)
invariant-step (server sc flag m creating ts) h live = (_, inl refl)
invariant-step (server sc flag free locking ts) h live = (_, inl refl)
invariant-step (server sc flag by_main locking []) h live = cc
invariant-step (server sc flag by_main locking (t ∷ ts)) h live =
    absurd (ground (arith, newest_holds sc flag t))
invariant-step (server sc flag by_thread locking []) h live = cc
invariant-step (server sc flag by_thread locking (t ∷ ts)) h live =
    let (v, e) = locked_out-thread_step sc flag t ts (ground arith) in (v, inr e)
invariant-step (server sc true m testing ts) h live = (_, inl refl)
invariant-step (server sc false m testing ts) h live = (_, inl refl)
invariant-step (server sc flag m waiting []) h live = cc
invariant-step (server sc flag m waiting (t ∷ ts)) h live =
    let (v, e) = asleep-thread_step sc flag m t ts (ground arith) in (v, inr e)
invariant-step (server sc flag m resetting ts) h live = (_, inl refl)
invariant-step (server sc flag m unlocking ts) h live = (_, inl refl)

-- No wake-up is lost: after any run, `main` has a next step without a spurious wake-up, or the newest
-- thread has one, unless `main` has returned, which it does only if some `pthread_create` failed.
pub run-step :
    (moves : List Move) (s : Server)
    → run moves initial ≡ some s
    → GoesOn s ⊎ ((s ≡ returned) × (all_create moves ≡ false))
run-step moves returned e = inr (refl, run-returned moves initial refl e)
run-step moves (server sc flag m p ts) e =
    inl (invariant-step (server sc flag m p ts) (run-invariant moves initial _ refl e) refl)
