-- ===== src/Tests/Play.antt =====
-- Runs of the threads of the server, played from lists of moves.
use peer_to_peer_fileshare.Base.{ℕ, ◌≡◌, refl, subst, true, Option, none, some, List, [], ◌∷◌, All}
use peer_to_peer_fileshare.CString.{Text}
use peer_to_peer_fileshare.Request.{Program, arrived, Stale}
use peer_to_peer_fileshare.Request.Rules.{Rules}
use peer_to_peer_fileshare.Request.Threads.{Answers, Threads, advance, Admissible, Run, begin, turn}
use peer_to_peer_fileshare.Request.Exclusion.{any, any-Admissible}

abbrev pub unset : ℕ → Stale
unset i f = []

abbrev pub says : Text → Answers
says x = record { line = arrived x; done = true; peer = none }

-- The turns of threads, the last first.
unfoldable pub play : {S : Type 0} → List (ℕ × Answers) → Threads S → Option (Threads S)
unfolding advance
play [] v = some v
play ((i, a) ∷ earlier) v = elim (play earlier v) [ none ↦ none | some w ↦ advance i a w ]

module _ {S : Type 0} (R : Rules S) where
  -- Each move's answer is one that the rules let any thread get.
  abbrev pub AreAdmissible : List (ℕ × Answers) → Type 0
  AreAdmissible moves = All (λ m. (p : Program S) → Admissible R (unset m.0) p m.1) moves

  play_then-Run :
      (i : ℕ) (a : Answers) (v x : Threads S) (o : Option (Threads S))
      → ((p : Program S) → Admissible R (unset i) p a)
      → ((w : Threads S) → o ≡ some w → Run R unset v w)
      → elim o [ none ↦ none | some w ↦ advance i a w ] ≡ some x
      → Run R unset v x
  play_then-Run i a v x none h r e = absurd (cc e)
  play_then-Run i a v x (some w) h r e = turn i a (r w refl) (h (w.rest i)) e

  pub play-Run :
      (moves : List (ℕ × Answers)) (v x : Threads S)
      → AreAdmissible moves
      → play moves v ≡ some x
      → Run R unset v x
  unfolding play
  play-Run [] v x h e = subst (λ w. Run R unset v w) (cc e) begin
  play-Run ((i, a) ∷ earlier) v x (h, hs) e =
      play_then-Run i a v x (play earlier v) h (λ w. play-Run earlier v w hs) e

pub any-AreAdmissible :
    (S Leave : Type 0) (moves : List (ℕ × Answers)) → AreAdmissible (any S Leave) moves
any-AreAdmissible S Leave [] = tt
any-AreAdmissible S Leave ((i, a) ∷ moves) =
    (λ p. any-Admissible Leave (unset i) p a, any-AreAdmissible S Leave moves)

abbrev pub or_start : {S : Type 0} → Threads S → Option (Threads S) → Threads S
or_start v none = v
or_start v (some w) = w
