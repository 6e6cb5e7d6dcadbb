-- ===== src/Request/Others.antt =====
-- `tratar_peticion` on the requests `UNREGISTER` and `GET_FILE`, and on those that it refuses.
use peer_to_peer_fileshare.Base.{
  ℕ, zero, suc, ◌≡◌, refl, ap, ◌∙◌, true, false, Option, none, some, List, [], ◌∷◌, ◌++◌, ◌==◌,
  list_eq, nat_eq, arith,
}
use peer_to_peer_fileshare.Base.Int.{ℤ}
use peer_to_peer_fileshare.CString.{Text, codes}
use peer_to_peer_fileshare.ConnectFile.{print_int}
use peer_to_peer_fileshare.Posix.{FileSystem}
use peer_to_peer_fileshare.Comm.{ReadResult}
use peer_to_peer_fileshare.Handle.Purge.{handle_unregister}
use peer_to_peer_fileshare.Handle.Listing.{handle_get_file}
use peer_to_peer_fileshare.Request.{
  operation, c_time_string, username, owner, Program, whether, read_into, thread_exit, refuse,
  rpc_string, Stale, with_username, no_user, get_file_section, unregister_call, unregister_section,
  after_unregister, answer_file, file_reply, request_unregister, request_get_file, branches,
  dispatch, after_operation, tratar_peticion,
}
use peer_to_peer_fileshare.Request.Opening.{
  plain-IsLine, serve-read_into, serve-with_username, serve-start,
}
use peer_to_peer_fileshare.Request.Serve.{
  left, serve, then_line, lines, calm, code_line, Carried, serve-answer,
}

-- What `GET_FILE` sends: the code, and after a 0 the address and the port, each as a line.
abbrev pub file_lines_sent : Text → ℕ × Option (Text × ℤ) → Text
file_lines_sent sent (zero, some (client_address, client_port)) =
    sent ++ code_line 0 ++ (client_address ++ 0 ∷ []) ++ (print_int client_port ++ 0 ∷ [])
file_lines_sent sent (suc n, some a) = sent ++ code_line (suc n)
file_lines_sent sent (res, none) = sent ++ code_line res

module _ (F : FileSystem) (old : Stale) (fuel : F.State → ℕ) (address sent : Text) (s : F.State)
    (rest : List ReadResult) (logged : List Text) where
  serve-answer_file :
      (r : ℕ × Option (Text × ℤ))
      → serve (answer_file F r) (calm address s rest sent logged)
        ≡ (left, calm address s rest (file_lines_sent sent r) logged)
  unfolding serve answer_file file_reply
  serve-answer_file (zero, none) = refl
  serve-answer_file (suc n, none) = refl
  serve-answer_file (zero, some a) = refl
  serve-answer_file (suc n, some a) = refl

  -- GET_FILE comes without a time and is not told to the log. The thread sends what `handle_get_file` finds,
  -- changes no file and ends with the mutex free; it found the mutex free and a socket that takes what
  -- is written, the lines of the request fit the buffers, and the user is not "__NO_USER__".
  pub serve-get_file :
      (u o : Text)
      → Carried username u
      → Carried owner o
      → (u == no_user) ≡ false
      → serve
          (tratar_peticion F old fuel)
          (calm address s (lines (codes "GET_FILE" ∷ u ∷ o ∷ []) rest) sent logged)
        ≡ (left, calm address s rest (file_lines_sent sent (handle_get_file F u o s)) logged)
  unfolding serve tratar_peticion after_operation request_get_file with_username get_file_section
  serve-get_file u o h k someone =
      serve-read_into F old address sent operation thread_exit (after_operation F old fuel)
        (codes "GET_FILE") s (lines (u ∷ o ∷ []) rest) logged
        (plain-IsLine (codes "GET_FILE") refl, omega arith)
      ∙ serve-read_into F old address sent username (refuse 3)
          (λ v. whether (refuse 1) (read_owner v) (v == no_user)) u s (then_line o rest) logged h
      ∙ ap
          (λ b.
            serve (whether (refuse 1) (read_owner u) b)
              (calm address s (then_line o rest) sent logged))
          someone
      ∙ serve-read_into F old address sent owner (refuse 3) (get_file_section F u) o s rest logged k
      ∙ serve-answer_file (handle_get_file F u o s)
    where
      read_owner : Text → Program F.State
      read_owner v = read_into owner old (refuse 3) (get_file_section F v)

  -- UNREGISTER, where the removal of the user's directory ends within the fuel, runs its handler once, sends
  -- the handler's code as a line, tells the log and ends with the mutex free; it found the mutex free,
  -- the log up and a socket that takes what is written, the lines fit the buffers, and the user is
  -- not "__NO_USER__".
  pub serve-unregister :
      (u time : Text) (r : ℕ × F.State)
      → Carried c_time_string time
      → Carried username u
      → (u == no_user) ≡ false
      → handle_unregister F (fuel s) u s ≡ some r
      → serve
          (tratar_peticion F old fuel)
          (calm address s (lines (codes "UNREGISTER" ∷ time ∷ u ∷ []) rest) sent logged)
        ≡ (
          left,
          calm address r.1 rest
              (sent ++ code_line r.0)
              (logged ++ rpc_string u (codes "UNREGISTER") time ∷ []),
        )
  unfolding serve dispatch branches request_unregister unregister_section unregister_call
  serve-unregister u time r k h someone ends =
      serve-start F old address sent fuel (codes "UNREGISTER") time s (then_line u rest) logged refl
        (plain-IsLine (codes "UNREGISTER") refl, omega arith) k
      ∙ serve-with_username F old address sent 2 (codes "UNREGISTER") time
          (unregister_section F fuel) u s rest logged h someone
      ∙ ap
          (λ o.
            let c : Option ℕ × F.State = elim o [
              | none ↦ (none, s)
              | some (res, t) ↦ (some res, t)
            ] in
            serve (after_unregister c.0)
              (record (calm address c.1 rest sent told) { locked = true }))
          ends
      ∙ serve-answer address r.0 r.1 rest sent told
    where
      told : List Text
      told = logged ++ rpc_string u (codes "UNREGISTER") time ∷ []
