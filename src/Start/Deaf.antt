-- ===== src/Start/Deaf.antt =====
-- What becomes of the server if `socket` fails.
use peer_to_peer_fileshare.Base.{
  ℕ, zero, suc, ◌≡◌, subst, sym, ap, ◌∙◌, Bool, true, none, some, Option-cases, inl, inr, List, [],
  ◌∷◌, All, ◌≢◌,
}
use mathlib.Core.Option.{some-injective}
use peer_to_peer_fileshare.Base.Int.{ℤ, pos, negsuc}
use peer_to_peer_fileshare.CString.{Text, codes}
use peer_to_peer_fileshare.Posix.{FileSystem}
use peer_to_peer_fileshare.Request.{atoi}
use peer_to_peer_fileshare.Comm.Network.{Network, IsLawfulNetwork, listening}
use peer_to_peer_fileshare.Comm.Sockets.{failure, server_socket, after_accept, server_accept}
use peer_to_peer_fileshare.Accept.{initial, Server, Move, main_moves, thread_moves, step, run}
use peer_to_peer_fileshare.Comm.Sockets as C
use peer_to_peer_fileshare.Start.Defs as S
use peer_to_peer_fileshare.Start.Defs.{Errno, serves, make_directory, after_directory, start}

-- A result of `serverAccept` as the loop of `main` takes it: 0 for -1, the number and one for a socket.
abbrev pub as_taken : ℤ → ℕ
as_taken (pos n) = suc n
as_taken (negsuc n) = zero

-- Each call of `serverAccept` in the moves is on `sd`.
abbrev pub Accepts : (N : Network) → N.State → ℕ → Move → Type 0
Accepts N w sd (main_moves taken wakes creates) = taken ≡ as_taken (server_accept N sd w).0
Accepts N w sd (thread_moves n) = Unit

module _ {N : Network} (L : IsLawfulNetwork N) (w : N.State) (sd : ℕ)
    (no_queue : (q : ℕ) → N.endpoint w sd ≢ listening q) where
  refused : server_accept N sd w ≡ (failure, w)
  unfolding server_accept
  refused = elim (Option-cases (N.accept w sd)) [
    | inl e ↦ ap (after_accept N w) e
    | inr ((c, x), e) ↦ let (q, h, _, _) = L.accept_some w sd c x e in absurd (no_queue q h)
  ]

  step-initial : (m : Move) (v : Server) → Accepts N w sd m → step m initial ≡ some v → v ≡ initial
  unfolding step
  step-initial (main_moves taken wakes creates) v h e = sym (
      some-injective _ _ (
        subst (λ n. step (main_moves n wakes creates) initial ≡ some v)
          (h ∙ ap (λ (r : ℤ × N.State). as_taken r.0) refused) e))
  step-initial (thread_moves n) v h e = cc e

  run-initial :
      (moves : List Move) (v : Server)
      → All (Accepts N w sd) moves
      → run moves initial ≡ some v
      → v ≡ initial
  unfolding run
  run-initial [] v h e = sym (some-injective _ _ e)
  run-initial (m ∷ moves) v h e = elim (Option-cases (step m initial)) [
    | inl f ↦ cc (e, f)
    | inr (x, f) ↦
        run-initial moves v h.1 (ap (run moves) (sym (step-initial m x h.0 f)) ∙ (rw (f, run) at e))
  ]

module _ {F : FileSystem} {N : Network} (E : Errno F) (L : IsLawfulNetwork N) where
  no_socket-start :
      (program port : Text) (s : F.State) (w : N.State)
      → N.socket w ≡ none
      → (make_directory F E s).0 ≡ true
      → start F N E (program ∷ codes "-p" ∷ port ∷ []) true s w
        ≡ (serves 0, (make_directory F E s).1, w)
  unfolding start server_socket
  no_socket-start program port s w e h =
      ap (λ o. S.after_socket F N E s (C.after_socket N (atoi port) w o)) e
      ∙ ap (λ (b : Bool). after_directory F N E 0 w (b, (make_directory F E s).1)) h

  -- If `socket` fails and the data directory is there or can be made, `main` goes on to its loop with
  -- descriptor 0, and if that does not listen, no moves of `main` and threads, of any number, bring
  -- the loop beyond a failed `serverAccept`: the server runs and never takes a connection.
  pub server_deaf :
      (program port : Text) (s : F.State) (w : N.State)
      → N.socket w ≡ none
      → (make_directory F E s).0 ≡ true
      → (no_queue : (q : ℕ) → N.endpoint w 0 ≢ listening q) → (moves : List Move) (v : Server)
      → All (Accepts N w 0) moves
      → run moves initial ≡ some v
      → (start F N E (program ∷ codes "-p" ∷ port ∷ []) true s w
          ≡ (serves 0, (make_directory F E s).1, w))
        × (v ≡ initial)
  server_deaf program port s w e h no_queue moves v a r =
      (no_socket-start program port s w e h, run-initial L w 0 no_queue moves v a r)
