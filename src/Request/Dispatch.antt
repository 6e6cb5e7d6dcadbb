-- ===== src/Request/Dispatch.antt =====
-- `tratar_peticion` from its first `readLine` on: one function for each branch of its dispatch, with what
-- the end of the function does for that operation.
use peer_to_peer_fileshare.Base.{
  ℕ, Option, none, some, List, [], ◌∷◌, ◌==◌, nat_eq, list_eq, if◌then◌else◌,
}
use peer_to_peer_fileshare.Base.Int.{ℤ, pos}
use peer_to_peer_fileshare.CString.{Text, codes}
use peer_to_peer_fileshare.Posix.{FileSystem}
use peer_to_peer_fileshare.ConnectFile.{scan_int}
use peer_to_peer_fileshare.Handle.Account.{
  handle_register, handle_connect, handle_publish, handle_delete, handle_disconnect,
}
use peer_to_peer_fileshare.Handle.Purge.{handle_unregister}
use peer_to_peer_fileshare.Handle.Listing.{handle_list_users, handle_list_content, handle_get_file}
use peer_to_peer_fileshare.Request.Tree.{
  whether, operation, c_time_string, username, file_name, owner, port_str, description, Program,
  asks_peer, locks, unlocks, thread_exit, out_of_fuel, call,
}
use peer_to_peer_fileshare.Request.Calls.{exit_error, refuse, send_info_to_rpc, Stale, read_into}
use peer_to_peer_fileshare.Request.Replies.{
  users_list_name, content_list_name, finished, answer, file_reply, users_reply, content_reply,
}

-- `atoi`
abbrev pub int_or_zero : Option ℤ → ℤ
int_or_zero none = pos 0
int_or_zero (some n) = n

unfoldable pub atoi : Text → ℤ
unfolding scan_int
atoi s = int_or_zero (scan_int s)

abbrev pub no_user : Text
no_user = codes "__NO_USER__"

-- The start of each branch: the user's name is read, told to the log if `log` tells it, and refused
-- if it is "__NO_USER__"; `code` is for a failed read.
unfoldable pub with_username :
    {S : Type 0} → Stale → ℕ → (Text → Program S → Program S) → (Text → Program S) → Program S
with_username old code log k =
    read_into username old (refuse code) (λ u. log u (whether (refuse 1) (k u) (u == no_user)))

module _ {S : Type 0} where
  abbrev pub after_unregister : Option ℕ → Program S
  after_unregister none = out_of_fuel
  after_unregister (some res) = unlocks (answer res finished)

  -- Where the file for a list is not opened the thread ends with `file_mutex` locked.
  abbrev pub after_list : ℕ → (ℕ → ℕ → Program S) → Option (ℕ × ℕ) → Program S
  after_list code k none = refuse code
  after_list code k (some (res, n)) = unlocks (k res n)

  abbrev pub after_peer : (Text → Program S) → Option Text → Program S
  after_peer k none = refuse 3
  after_peer k (some client_address) = k client_address

-- A chain of `strcmp` with the operation.
abbrev pub choose : {S : Type 0} → List (Text × Program S) → Program S → Text → Program S
choose [] otherwise op = otherwise
choose ((name, p) ∷ ps) otherwise op =
    let rest = choose ps otherwise op in if op == name then p else rest

module _ (F : FileSystem) where
  open F use {State, fopen_write}

  -- A handler under `file_mutex`, and its code as the whole answer.
  unfoldable pub answer_with : (State → ℕ × State) → Program State
  answer_with handler = locks (call handler (λ res. unlocks (answer res finished)))

  -- `fuel` is for the removal of the directory, as the files then stand.
  unfoldable pub unregister_call : (State → ℕ) → Text → State → Option ℕ × State
  unregister_call fuel u s = elim (handle_unregister F (fuel s) u s) [
    | none ↦ (none, s)
    | some (res, t) ↦ (some res, t)
  ]

  unfoldable pub unregister_section : (State → ℕ) → Text → Program State
  unfolding unregister_call
  unregister_section fuel u = locks (call (unregister_call fuel u) after_unregister)

  -- The file for the list is opened, and the handler prints to it.
  unfoldable pub open_users : Text → State → Option (ℕ × ℕ) × State
  open_users u s = elim (fopen_write s (users_list_name u)) [
    | none ↦ (none, s)
    | some t ↦
        let (res, n_users, v) = handle_list_users F u 0 (users_list_name u) t in
        (some (res, n_users), v)
  ]

  unfoldable pub list_users_section : Text → Program State
  unfolding open_users users_reply
  list_users_section u =
      locks
        (call (open_users u) (after_list 3 (λ res n_users. answer res (users_reply F u n_users))))

  unfoldable pub open_content : Text → Text → State → Option (ℕ × ℕ) × State
  open_content u o s = elim (fopen_write s (content_list_name u o)) [
    | none ↦ (none, s)
    | some t ↦
        let (res, n_content, v) = handle_list_content F u o 0 (content_list_name u o) t in
        (some (res, n_content), v)
  ]

  unfoldable pub list_content_section : Text → Text → Program State
  unfolding open_content content_reply
  list_content_section u o = locks (
      call (open_content u o)
        (after_list 4 (λ res n_content. answer res (content_reply F u o n_content))))

  -- The code, and after a 0 the address and the port.
  unfoldable pub answer_file : ℕ × Option (Text × ℤ) → Program State
  unfolding file_reply
  answer_file (res, none) = answer res finished
  answer_file (res, some (client_address, client_port)) =
      answer res (file_reply client_address client_port)

  unfoldable pub get_file_section : Text → Text → Program State
  unfolding answer_file
  get_file_section u o =
      locks (call (λ s. (handle_get_file F u o s, s)) (λ r. unlocks (answer_file r)))

module _ (F : FileSystem) (old : Stale) where
  open F use {State}

  unfoldable pub request_register : (Text → Program State → Program State) → Program State
  unfolding with_username answer_with
  request_register log = with_username old 2 log (λ u. answer_with F (handle_register F u))

  unfoldable pub request_unregister :
      (State → ℕ) → (Text → Program State → Program State) → Program State
  unfolding with_username unregister_section
  request_unregister fuel log = with_username old 2 log (unregister_section F fuel)

  unfoldable pub request_connect : (Text → Program State → Program State) → Program State
  unfolding with_username answer_with atoi
  request_connect log = with_username old 2 log (λ u. read_into port_str old (refuse 2) (λ port.
      asks_peer (
        after_peer
          (λ client_address. answer_with F (handle_connect F u (atoi port) client_address)))))

  unfoldable pub request_publish : (Text → Program State → Program State) → Program State
  unfolding with_username answer_with
  request_publish log = with_username old 2 log (λ u.
      read_into file_name old (refuse 2)
        (λ f. read_into description old (refuse 2) (λ d. answer_with F (handle_publish F u f d))))

  unfoldable pub request_delete : (Text → Program State → Program State) → Program State
  unfolding with_username answer_with
  request_delete log =
      with_username old 2 log
        (λ u. read_into file_name old (refuse 2) (λ f. answer_with F (handle_delete F u f)))

  unfoldable pub request_list_users : (Text → Program State → Program State) → Program State
  unfolding with_username list_users_section
  request_list_users log = with_username old 3 log (list_users_section F)

  unfoldable pub request_list_content : (Text → Program State → Program State) → Program State
  unfolding with_username list_content_section
  request_list_content log =
      with_username old 4 log
        (λ u. read_into owner old (refuse 4) (λ o. list_content_section F u o))

  unfoldable pub request_disconnect : (Text → Program State → Program State) → Program State
  unfolding with_username answer_with
  request_disconnect log = with_username old 3 log (λ u. answer_with F (handle_disconnect F u))

  -- `GET_FILE` is not told to the log.
  unfoldable pub request_get_file : Program State
  unfolding with_username get_file_section
  request_get_file =
      with_username old 3 (λ u k. k)
        (λ u. read_into owner old (refuse 3) (λ o. get_file_section F u o))

  -- The branches of the dispatch that read the time, in their order.
  unfoldable pub branches :
      (State → ℕ) → (Text → Program State → Program State) → List (Text × Program State)
  unfolding request_register request_unregister request_connect request_publish request_delete
      request_list_users request_list_content request_disconnect
  branches fuel log =
      (codes "REGISTER", request_register log)
      ∷ (codes "UNREGISTER", request_unregister fuel log)
      ∷ (codes "CONNECT", request_connect log)
      ∷ (codes "PUBLISH", request_publish log)
      ∷ (codes "DELETE", request_delete log)
      ∷ (codes "LIST_USERS", request_list_users log)
      ∷ (codes "LIST_CONTENT", request_list_content log)
      ∷ (codes "DISCONNECT", request_disconnect log)
      ∷ []

  -- The dispatch, after the operation and the time.
  unfoldable pub dispatch : (State → ℕ) → Text → Text → Program State
  unfolding branches
  dispatch fuel op time =
      choose (branches fuel (λ u k. send_info_to_rpc u op time k)) (answer 1 finished) op

  -- `GET_FILE` comes without the time.
  unfoldable pub after_operation : (State → ℕ) → Text → Program State
  unfolding dispatch request_get_file
  after_operation fuel op =
      if op == codes "GET_FILE"
      then request_get_file
      else read_into c_time_string old exit_error (λ time. dispatch fuel op time)

  -- Where the operation is not read the connection stays open.
  unfoldable pub tratar_peticion : (State → ℕ) → Program State
  unfolding after_operation
  tratar_peticion fuel = read_into operation old thread_exit (after_operation fuel)
