-- ===== src/Tests/Turns.antt =====
-- The theorems on the threads of the server at work.
use peer_to_peer_fileshare.Base.{ℕ, ◌≡◌, refl, Option, none, some, List, [], ◌∷◌, list_eq, nat_eq}
use peer_to_peer_fileshare.CString.{Text, codes}
use peer_to_peer_fileshare.Posix.Memory.{memory}
use peer_to_peer_fileshare.Request.{thread_exit, users_list_name, tratar_peticion}
use peer_to_peer_fileshare.Request.Threads.{Answers, Threads, holds, Run, opened}
use peer_to_peer_fileshare.Request.Exclusion.{any, IsDisciplined, Run-IsDisciplined}
use peer_to_peer_fileshare.Request.Closed.{list_users-stuck}
use peer_to_peer_fileshare.Tests.Play.{unset, says, play, play-Run, any-AreAdmissible, or_start}
use peer_to_peer_fileshare.Tests.Data.{ann, bob, started}

-- A thread registers ann and holds the mutex; another one is about to lock it for bob.
abbrev two_register : List (ℕ × Answers)
two_register =
    (1, says [])
    ∷ (1, says bob)
    ∷ (0, says [])
    ∷ (1, says (codes "12:00"))
    ∷ (0, says [])
    ∷ (0, says ann)
    ∷ (0, says (codes "12:00"))
    ∷ (1, says (codes "REGISTER"))
    ∷ (0, says (codes "REGISTER"))
    ∷ []

unfoldable two_registering : Option (Threads memory.State)
unfolding play tratar_peticion memory
two_registering = play two_register (opened memory unset (λ s. 2) started)

unfoldable registering : Threads memory.State
unfolding two_registering
registering = or_start (opened memory unset (λ s. 2) started) two_registering

registering_plays : two_registering ≡ some registering
unfolding registering two_registering play tratar_peticion memory
registering_plays = refl

Run-IsDisciplined_example : IsDisciplined (holds 0 registering.holder) (registering.rest 0)
unfolding two_registering
Run-IsDisciplined_example =
    Run-IsDisciplined memory unset (λ s. 2) started registering
      (play-Run (any memory.State Unit) two_register (opened memory unset (λ s. 2) started)
        registering (any-AreAdmissible memory.State Unit two_register) registering_plays)
      0

-- A user's name with a slash in it, to a directory that is not there.
abbrev far : Text
far = codes "no/ann"

far_closed : memory.fopen_write started (users_list_name far) ≡ none
unfolding memory started
far_closed = refl

list_users-stuck_example :
    (v : Threads memory.State) × Run
      (any memory.State Unit)
      unset
      (opened memory unset (λ s. 2) started)
      v
    × (v.rest 0 ≡ thread_exit)
    × ((w : Threads memory.State)
        → Run (any memory.State Unit) unset v w
        → (w.holder ≡ some 0) × (w.files ≡ started))
list_users-stuck_example =
    list_users-stuck memory unset (λ s. 2) started 0 far (codes "12:00") refl far_closed
