-- ===== src/Tests/Loop.antt =====
-- The theorems on the accept loop at work.
use peer_to_peer_fileshare.Base.{◌≡◌, ◌⊎◌, list_eq, nat_eq, true, ◌∷◌, [], refl, some, List, false}
use peer_to_peer_fileshare.Accept.{
  Server, server, returned, by_thread, locking, copied, running, initial, Move, main_moves,
  thread_moves, run,
}
use peer_to_peer_fileshare.Accept.Invariant.{threads_right}
use peer_to_peer_fileshare.Accept.Copies.{GoesOn, all_create, run-threads_right, run-step}

-- A client is accepted, its thread makes its copy while `main` sleeps, and the next client is accepted.
abbrev two_clients : List Move
two_clients =
    main_moves 5 false true
    ∷ main_moves 0 false true
    ∷ main_moves 0 false true
    ∷ main_moves 0 false true
    ∷ thread_moves 0
    ∷ thread_moves 0
    ∷ thread_moves 0
    ∷ thread_moves 0
    ∷ thread_moves 0
    ∷ main_moves 0 false true
    ∷ main_moves 0 false true
    ∷ main_moves 0 false true
    ∷ main_moves 0 false true
    ∷ main_moves 7 false true
    ∷ main_moves 0 false true
    ∷ thread_moves 0
    ∷ thread_moves 0
    ∷ []

abbrev served : Server
served = server 7 true by_thread locking (copied 7 7 ∷ running 5 5 ∷ [])

both_served : run two_clients initial ≡ some served
unfolding run
both_served = refl

run-threads_right_example : threads_right served ≡ true
run-threads_right_example = run-threads_right two_clients served both_served

run-step_example : GoesOn served ⊎ ((served ≡ returned) × (all_create two_clients ≡ false))
run-step_example = run-step two_clients served both_served

-- The first client's thread cannot be created, and no thread or `main` moves again.
creation_failed :
    run (main_moves 5 false true ∷ main_moves 0 false false ∷ []) initial ≡ some returned
unfolding run
creation_failed = refl
