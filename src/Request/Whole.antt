-- ===== src/Request/Whole.antt =====
-- `tratar_peticion` as a whole against rules on its calls.
use peer_to_peer_fileshare.Base.{
  ℕ, Bool, true, false, List, [], ◌∷◌, ◌==◌, nat_eq, list_eq, if◌then◌else◌,
}
use peer_to_peer_fileshare.CString.{Text, codes}
use peer_to_peer_fileshare.Posix.{FileSystem}
use peer_to_peer_fileshare.Request.{
  operation, c_time_string, Program, read_into, thread_exit, exit_error, send_info_to_rpc, Stale,
  finished, answer, request_get_file, choose, branches, dispatch, after_operation, tratar_peticion,
}
use peer_to_peer_fileshare.Request.Rules.{Rules, Obeys, answer-Obeys, read_into-Obeys, log-Obeys}
use peer_to_peer_fileshare.Request.Obedience.{
  Permits, Telling, request_register-Obeys, request_unregister-Obeys, request_connect-Obeys,
  request_publish-Obeys, request_delete-Obeys, request_list_users-Obeys, request_list_content-Obeys,
  request_disconnect-Obeys, request_get_file-Obeys,
}

module _ (F : FileSystem) (fuel : F.State → ℕ) (R : Rules F.State) (P : Permits F fuel R)
    (old : Stale) where
  if-Obeys :
      (b : Bool) (p q : Program F.State)
      → Obeys R old false p
      → Obeys R old false q
      → Obeys R old false (if b then p else q)
  if-Obeys true p q h k = h
  if-Obeys false p q h k = k

  abbrev AllObey : List (Text × Program F.State) → Type 0
  AllObey [] = Unit
  AllObey ((name, p) ∷ ps) = Obeys R old false p × AllObey ps

  choose-Obeys :
      (ps : List (Text × Program F.State)) (p : Program F.State) (op : Text)
      → AllObey ps
      → Obeys R old false p
      → Obeys R old false (choose ps p op)
  choose-Obeys [] p op h k = k
  choose-Obeys ((name, q) ∷ ps) p op h k =
      if-Obeys (op == name) q (choose ps p op) h.0 (choose-Obeys ps p op h.1 k)

  branches-Obeys :
      (log : Text → Program F.State → Program F.State)
      → Telling F fuel R P old log
      → AllObey (branches F old fuel log)
  unfolding branches
  branches-Obeys log tells = (
    request_register-Obeys F fuel R P old log tells,
    (
      request_unregister-Obeys F fuel R P old log tells,
      (
        request_connect-Obeys F fuel R P old log tells,
        (
          request_publish-Obeys F fuel R P old log tells,
          (
            request_delete-Obeys F fuel R P old log tells,
            (
              request_list_users-Obeys F fuel R P old log tells,
              (
                request_list_content-Obeys F fuel R P old log tells,
                (request_disconnect-Obeys F fuel R P old log tells, tt),
              ),
            ),
          ),
        ),
      ),
    ),
  )

  dispatch-Obeys : (op time : Text) → Obeys R old false (dispatch F old fuel op time)
  unfolding dispatch
  dispatch-Obeys op time =
      choose-Obeys (branches F old fuel log) (answer 1 finished) op
        (branches-Obeys log (λ u p h. log-Obeys R old op time u p h))
        (answer-Obeys R old 1 finished tt)
    where
      log : Text → Program F.State → Program F.State
      log u k = send_info_to_rpc u op time k

  after_operation-Obeys : (op : Text) → Obeys R old false (after_operation F old fuel op)
  unfolding after_operation
  after_operation-Obeys op =
      if-Obeys (op == codes "GET_FILE") (request_get_file F old)
        (read_into c_time_string old exit_error (λ time. dispatch F old fuel op time))
        (request_get_file-Obeys F fuel R P old)
        (read_into-Obeys R old c_time_string exit_error (dispatch F old fuel op) tt
          (λ time b. dispatch-Obeys op time))

  -- `tratar_peticion` obeys any rules that permit its calls on the files, and starts without the mutex.
  pub tratar_peticion-Obeys : Obeys R old false (tratar_peticion F old fuel)
  unfolding tratar_peticion
  tratar_peticion-Obeys =
      read_into-Obeys R old operation thread_exit (after_operation F old fuel) tt
        (λ op a. after_operation-Obeys op)
