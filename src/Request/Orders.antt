-- ===== src/Request/Orders.antt =====
-- `tratar_peticion` from the bytes of a request to the bytes of its answer.
use peer_to_peer_fileshare.Base.{
  ℕ, ◌≡◌, refl, ap, ◌∙◌, false, List, [], ◌∷◌, ◌++◌, ◌==◌, list_eq, nat_eq, arith,
}
use peer_to_peer_fileshare.CString.{Text, codes}
use peer_to_peer_fileshare.Posix.{FileSystem}
use peer_to_peer_fileshare.Comm.{ReadResult}
use peer_to_peer_fileshare.Handle.Account.{
  handle_register, handle_connect, handle_publish, handle_delete, handle_disconnect,
}
use peer_to_peer_fileshare.Request.{
  operation, c_time_string, username, file_name, port_str, description, Program, asks_peer, refuse,
  rpc_string, Stale, read_into, no_user, answer_with, after_peer, atoi, request_register,
  request_connect, request_publish, request_delete, request_disconnect, branches, dispatch,
  tratar_peticion,
}
use peer_to_peer_fileshare.Request.Opening.{
  plain-IsLine, serve-read_into, serve-with_username, serve-start,
}
use peer_to_peer_fileshare.Request.Serve.{
  World, End, left, serve, then_line, lines, calm, code_line, Carried, serve-answer_with,
}

-- The requests that one handler answers with its code alone.
pub data Order : Type 0 where
  registers : Text → Order
  connects : Text → Text → Order
  publishes : Text → Text → Text → Order
  deletes : Text → Text → Order
  disconnects : Text → Order

abbrev pub op_name : Order → Text
op_name (registers u) = codes "REGISTER"
op_name (connects u port) = codes "CONNECT"
op_name (publishes u f d) = codes "PUBLISH"
op_name (deletes u f) = codes "DELETE"
op_name (disconnects u) = codes "DISCONNECT"

abbrev pub user_of : Order → Text
user_of (registers u) = u
user_of (connects u port) = u
user_of (publishes u f d) = u
user_of (deletes u f) = u
user_of (disconnects u) = u

-- The lines of a request, in the order in which the client sends them.
abbrev pub order_lines : Order → Text → List Text
order_lines (registers u) time = codes "REGISTER" ∷ time ∷ u ∷ []
order_lines (connects u port) time = codes "CONNECT" ∷ time ∷ u ∷ port ∷ []
order_lines (publishes u f d) time = codes "PUBLISH" ∷ time ∷ u ∷ f ∷ d ∷ []
order_lines (deletes u f) time = codes "DELETE" ∷ time ∷ u ∷ f ∷ []
order_lines (disconnects u) time = codes "DISCONNECT" ∷ time ∷ u ∷ []

-- Its lines fit the buffers that they are read into.
abbrev pub AreCarried : Order → Type 0
AreCarried (registers u) = Carried username u
AreCarried (connects u port) = Carried username u × Carried port_str port
AreCarried (publishes u f d) = Carried username u × Carried file_name f × Carried description d
AreCarried (deletes u f) = Carried username u × Carried file_name f
AreCarried (disconnects u) = Carried username u

abbrev pub handler : (F : FileSystem) → Text → Order → F.State → ℕ × F.State
handler F address (registers u) s = handle_register F u s
handler F address (connects u port) s = handle_connect F u (atoi port) address s
handler F address (publishes u f d) s = handle_publish F u f d s
handler F address (deletes u f) s = handle_delete F u f s
handler F address (disconnects u) s = handle_disconnect F u s

module _ (F : FileSystem) (old : Stale) (fuel : F.State → ℕ) (address time sent : Text)
    (s : F.State) (rest : List ReadResult) (logged : List Text) where
  -- The order's handler has run once, its code is the answer, and the log has a line for the order.
  abbrev pub Answered : Order → End × World F.State
  Answered o = (
    left,
    calm address (handler F address o s).1 rest (sent ++ code_line (handler F address o s).0)
        (logged ++ rpc_string (user_of o) (op_name o) time ∷ []),
  )

  -- The lines after the operation and the time.
  abbrev more_lines : Order → List Text
  more_lines (registers u) = u ∷ []
  more_lines (connects u port) = u ∷ port ∷ []
  more_lines (publishes u f d) = u ∷ f ∷ d ∷ []
  more_lines (deletes u f) = u ∷ f ∷ []
  more_lines (disconnects u) = u ∷ []

  abbrev logs_to : Text → Text → List Text
  logs_to u op = logged ++ rpc_string u op time ∷ []

  -- What is left of the requests that read more than the user's name.
  abbrev after_connect : Text → Program F.State
  after_connect u =
      read_into port_str old (refuse 2)
        (λ x. asks_peer (after_peer (λ y. answer_with F (handle_connect F u (atoi x) y))))

  abbrev after_file : Text → Text → Program F.State
  after_file u f =
      read_into description old (refuse 2) (λ x. answer_with F (handle_publish F u f x))

  abbrev after_publish : Text → Program F.State
  after_publish u = read_into file_name old (refuse 2) (after_file u)

  abbrev after_delete : Text → Program F.State
  after_delete u = read_into file_name old (refuse 2) (λ x. answer_with F (handle_delete F u x))

  serve-dispatch :
      (o : Order)
      → AreCarried o
      → (user_of o == no_user) ≡ false
      → serve
          (dispatch F old fuel (op_name o) time)
          (calm address s (lines (more_lines o) rest) sent logged)
        ≡ Answered o
  unfolding dispatch branches request_register request_connect request_publish request_delete
      request_disconnect serve
  serve-dispatch (registers u) h someone =
      serve-with_username F old address sent 2 (codes "REGISTER") time
        (λ v. answer_with F (handle_register F v)) u s rest logged h someone
      ∙ serve-answer_with F address (handle_register F u) s rest sent (logs_to u (codes "REGISTER"))
  serve-dispatch (connects u port) (h, k) someone =
      serve-with_username F old address sent 2 (codes "CONNECT") time after_connect u s
        (then_line port rest) logged h someone
      ∙ serve-read_into F old address sent port_str (refuse 2)
          (λ x. asks_peer (after_peer (λ y. answer_with F (handle_connect F u (atoi x) y)))) port s
          rest (logs_to u (codes "CONNECT")) k
      ∙ serve-answer_with F address (handle_connect F u (atoi port) address) s rest sent
          (logs_to u (codes "CONNECT"))
  serve-dispatch (publishes u f d) (h, k, l) someone =
      serve-with_username F old address sent 2 (codes "PUBLISH") time after_publish u s
        (lines (f ∷ d ∷ []) rest) logged h someone
      ∙ serve-read_into F old address sent file_name (refuse 2) (after_file u) f s
          (then_line d rest) (logs_to u (codes "PUBLISH")) k
      ∙ serve-read_into F old address sent description (refuse 2)
          (λ x. answer_with F (handle_publish F u f x)) d s rest (logs_to u (codes "PUBLISH")) l
      ∙ serve-answer_with F address (handle_publish F u f d) s rest sent
          (logs_to u (codes "PUBLISH"))
  serve-dispatch (deletes u f) (h, k) someone =
      serve-with_username F old address sent 2 (codes "DELETE") time after_delete u s
        (then_line f rest) logged h someone
      ∙ serve-read_into F old address sent file_name (refuse 2)
          (λ x. answer_with F (handle_delete F u x)) f s rest (logs_to u (codes "DELETE")) k
      ∙ serve-answer_with F address (handle_delete F u f) s rest sent (logs_to u (codes "DELETE"))
  serve-dispatch (disconnects u) h someone =
      serve-with_username F old address sent 3 (codes "DISCONNECT") time
        (λ v. answer_with F (handle_disconnect F v)) u s rest logged h someone
      ∙ serve-answer_with F address (handle_disconnect F u) s rest sent
          (logs_to u (codes "DISCONNECT"))

  op_name-Carried : (o : Order) → Carried operation (op_name o)
  op_name-Carried (registers u) = (plain-IsLine (codes "REGISTER") refl, omega arith)
  op_name-Carried (connects u port) = (plain-IsLine (codes "CONNECT") refl, omega arith)
  op_name-Carried (publishes u f d) = (plain-IsLine (codes "PUBLISH") refl, omega arith)
  op_name-Carried (deletes u f) = (plain-IsLine (codes "DELETE") refl, omega arith)
  op_name-Carried (disconnects u) = (plain-IsLine (codes "DISCONNECT") refl, omega arith)

  order_lines-more_lines : (o : Order) → order_lines o time ≡ op_name o ∷ time ∷ more_lines o
  order_lines-more_lines (registers u) = refl
  order_lines-more_lines (connects u port) = refl
  order_lines-more_lines (publishes u f d) = refl
  order_lines-more_lines (deletes u f) = refl
  order_lines-more_lines (disconnects u) = refl

  other_name : (o : Order) → (op_name o == codes "GET_FILE") ≡ false
  other_name (registers u) = refl
  other_name (connects u port) = refl
  other_name (publishes u f d) = refl
  other_name (deletes u f) = refl
  other_name (disconnects u) = refl

  -- A thread that finds `file_mutex` free, the log up, the client's address known and a socket that takes
  -- what is written runs the handler of the request once, sends its code as a line, tells the log who
  -- asked for what and when, reads no further and ends with the mutex free. The lines of the request
  -- fit the buffers and its user is not "__NO_USER__".
  pub serve-order :
      (o : Order)
      → Carried c_time_string time
      → AreCarried o
      → (user_of o == no_user) ≡ false
      → serve
          (tratar_peticion F old fuel)
          (calm address s (lines (order_lines o time) rest) sent logged)
        ≡ Answered o
  serve-order o k h someone =
      ap (λ ls. serve (tratar_peticion F old fuel) (calm address s (lines ls rest) sent logged))
        (order_lines-more_lines o)
      ∙ serve-start F old address sent fuel (op_name o) time s (lines (more_lines o) rest) logged
          (other_name o) (op_name-Carried o) k
      ∙ serve-dispatch o h someone
