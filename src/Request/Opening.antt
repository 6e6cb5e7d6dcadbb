-- ===== src/Request/Opening.antt =====
-- What `tratar_peticion` reads before a handler runs.
use peer_to_peer_fileshare.Base.{
  ℕ, ◌≡◌, ap, ◌∙◌, Bool, true, false, not, ◌&&◌, List, [], ◌∷◌, ◌++◌, ◌==◌, list_eq, nat_eq, arith,
  if◌then◌else◌,
}
use peer_to_peer_fileshare.CString.{Text, codes}
use peer_to_peer_fileshare.Posix.{FileSystem}
use peer_to_peer_fileshare.Comm.{ReadResult, is_end}
use peer_to_peer_fileshare.Comm.Lines.{IsLine}
use peer_to_peer_fileshare.Request.{
  operation, c_time_string, username, Program, whether, thread_exit, exit_error, refuse,
  request_get_file, rpc_string, send_info_to_rpc, Stale, after_read, read_into, with_username,
  no_user, dispatch, after_operation, tratar_peticion,
}
use peer_to_peer_fileshare.Request.Serve.{serve, then_line, calm, Carried, serve-reads}

-- Whether a line carries the string.
abbrev plain : Text → Bool
plain [] = true
plain (c ∷ s) = not (is_end c) && plain s

pub plain-IsLine : (s : Text) → plain s ≡ true → IsLine s
plain-IsLine [] h = tt
plain-IsLine (c ∷ s) h = (ground arith, plain-IsLine s (ground arith))

module _ (F : FileSystem) (old : Stale) (address : Text) (sent : Text) where
  pub serve-read_into :
      (f : _) (fail : Program F.State) (k : Text → Program F.State) (x : Text) (s : F.State)
      (rest : List ReadResult) (logged : List Text)
      → Carried f x
      → serve (read_into f old fail k) (calm address s (then_line x rest) sent logged)
        ≡ serve (k x) (calm address s rest sent logged)
  serve-read_into f fail k x s rest logged h =
      serve-reads address f (after_read (old f) fail k) x s rest sent logged h

  pub serve-with_username :
      (code : ℕ) (op time : Text) (k : Text → Program F.State) (u : Text) (s : F.State)
      (rest : List ReadResult) (logged : List Text)
      → Carried username u
      → (u == no_user) ≡ false
      → serve
          (with_username old code (λ v p. send_info_to_rpc v op time p) k)
          (calm address s (then_line u rest) sent logged)
        ≡ serve (k u) (calm address s rest sent (logged ++ rpc_string u op time ∷ []))
  unfolding serve with_username
  serve-with_username code op time k u s rest logged h someone =
      serve-reads address username
        (after_read (old username) (refuse code)
          (λ v. send_info_to_rpc v op time (whether (refuse 1) (k v) (v == no_user))))
        u s rest sent logged h
      ∙ ap
          (λ b.
            serve (whether (refuse 1) (k u) b)
              (calm address s rest sent (logged ++ rpc_string u op time ∷ [])))
          someone

  pub serve-start :
      (fuel : F.State → ℕ) (op time : Text) (s : F.State) (rest : List ReadResult)
      (logged : List Text)
      → (op == codes "GET_FILE") ≡ false
      → Carried operation op
      → Carried c_time_string time
      → serve
          (tratar_peticion F old fuel)
          (calm address s (then_line op (then_line time rest)) sent logged)
        ≡ serve (dispatch F old fuel op time) (calm address s rest sent logged)
  unfolding tratar_peticion after_operation
  serve-start fuel op time s rest logged other h k =
      serve-read_into operation thread_exit (after_operation F old fuel) op s (then_line time rest)
        logged h
      ∙ ap
          (λ b.
            serve
              (if b
                then request_get_file F old
                else read_into c_time_string old exit_error (dispatch F old fuel op))
              (calm address s (then_line time rest) sent logged))
          other
      ∙ serve-read_into c_time_string exit_error (dispatch F old fuel op) time s rest logged k
