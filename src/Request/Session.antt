-- ===== src/Request/Session.antt =====
-- servidor.c: any number of clients, one after the other, against the registry.
use peer_to_peer_fileshare.Base.{
  ◌≡◌, refl, sym, subst, ◌∙◌, ap, false, List, [], ◌∷◌, ◌++◌, ◌==◌, list_eq, nat_eq, All,
  append-nil,
}
use peer_to_peer_fileshare.CString.{Text}
use peer_to_peer_fileshare.Posix.{FileSystem, IsLawful, IsReliable}
use peer_to_peer_fileshare.Handle.Access.{users}
use peer_to_peer_fileshare.Handle.Reliable.Does.{Laid, Does}
use peer_to_peer_fileshare.Handle.Reliable.Names.{register-Does, disconnect-Does}
use peer_to_peer_fileshare.Handle.Reliable.Contacts.{connect-Does}
use peer_to_peer_fileshare.Handle.Reliable.Files.{publish-Does, delete-Does}
use peer_to_peer_fileshare.Handle.Reliable.Removal.{unregister-Does}
use peer_to_peer_fileshare.Handle.Reliable.Queries.{get_file-find_spec}
use peer_to_peer_fileshare.Handle.Listing.{handle_get_file}
use peer_to_peer_fileshare.Request.{c_time_string, Stale, no_user, atoi}
use peer_to_peer_fileshare.Request.Serve.{left, calm, code_line, Carried}
use peer_to_peer_fileshare.Request.Orders.{
  Order, registers, connects, publishes, deletes, disconnects, handler, serve-order,
}
use peer_to_peer_fileshare.Request.Others.{file_lines_sent, serve-get_file, serve-unregister}
use peer_to_peer_fileshare.Request.Clients.{
  Ask, orders, unregisters, finds, Client, told_of, in_code, order_spec, ask_spec, AreSound,
  AreFitting, asker, IsServed, with_answer, serve_client, then_day, serve_clients, spec_day,
  spec_clients, day_of,
}

module _ {F : FileSystem} (L : IsLawful F) (R : IsReliable F) where
  handler-Does :
      (address : Text) (o : Order) (s : F.State)
      → Laid F s
      → AreSound (orders o)
      → Does F (handler F address o s) (order_spec address o (users F s))
  handler-Does address (registers u) s laid h = register-Does L R s laid h
  handler-Does address (connects u port) s laid h = connect-Does L R s laid h address (atoi port)
  handler-Does address (publishes u f d) s laid (h, n) = publish-Does L R s laid h n d
  handler-Does address (deletes u f) s laid (h, n) = delete-Does L R s laid h n
  handler-Does address (disconnects u) s laid h = disconnect-Does L R s laid h

  -- One client is sent what the registry says, its operation is done, and the log is told.
  abbrev IsAnswered : Client → F.State → List Text → Type 0
  IsAnswered c s logged =
      (x : Text) × (t : F.State) × (serve_client F c s false logged
        ≡ (left, calm c.address t [] x (logged ++ told_of c.ask c.time)))
      × ((x, users F t) ≡ ask_spec c.address c.ask (users F s))
      × Laid F t

  ask-IsAnswered :
      (stale : Stale) (address time : Text) (a : Ask) (s : F.State) (logged : List Text)
      → Laid F s
      → AreSound a
      → AreFitting a
      → Carried c_time_string time
      → (asker a == no_user) ≡ false
      → IsAnswered (record { stale = stale; address = address; time = time; ask = a }) s logged
  ask-IsAnswered stale address time (orders o) s logged laid sound fits time_fits someone =
      let (done, kept) = handler-Does address o s laid sound in
      (
        code_line (handler F address o s).0,
        (handler F address o s).1,
        serve-order F stale (λ t. 2) address time [] s [] logged o time_fits fits someone,
        ap in_code done,
        kept,
      )
  ask-IsAnswered stale address time (unregisters u) s logged laid sound fits time_fits someone =
      let (r, ran, (done, kept)) = unregister-Does L R s laid sound in
      (
        code_line r.0,
        r.1,
        serve-unregister F stale (λ t. 2) address [] s [] logged u time r time_fits fits someone
            ran,
        ap in_code done,
        kept,
      )
  ask-IsAnswered stale address time (finds u o) s logged laid (h, k) (fu, fo) time_fits someone = (
    file_lines_sent [] (handle_get_file F u o s),
    s,
    serve-get_file F stale (λ t. 2) address [] s [] logged u o fu fo someone
        ∙ ap (λ l. (left, calm address s [] (file_lines_sent [] (handle_get_file F u o s)) l))
            (sym (append-nil logged)),
    ap (λ r. (file_lines_sent [] r, users F s)) (get_file-find_spec L R s laid h k),
    laid,
  )

  -- Clients that come one after the other, for anything but a list, are answered as by a map of accounts,
  -- from bytes to bytes: each is sent what its operation on the map says, its thread ends with
  -- file_mutex free, the log is told of each in order but for GET_FILE, the users' directories show
  -- the map at the end, and they are laid out as at the start. Calls on the files fail for no reason
  -- but the tree, the names are ones that the buffers and the system hold, the lines fit the buffers,
  -- no user is "__NO_USER__", the log is up, the clients' addresses are known and the sockets take
  -- what is written.
  pub serve_clients_refines :
      (cs : List Client) (s : F.State) (logged : List Text)
      → Laid F s
      → All IsServed cs
      → (day_of F (serve_clients F cs s false logged) ≡ spec_clients cs (users F s) logged)
        × Laid F (serve_clients F cs s false logged).files
  unfolding serve_clients spec_clients
  serve_clients_refines [] s logged laid ok = (refl, laid)
  serve_clients_refines (c ∷ cs) s logged laid (ok, oks) =
      let (x, t, ran, done, kept) =
        ask-IsAnswered c.stale c.address c.time c.ask s logged laid ok.sound ok.fitting ok.time_fits
          ok.is_someone in
      let told = logged ++ told_of c.ask c.time in
      let (same, kept_on) = serve_clients_refines cs t told kept oks in
      (
        ap (λ y. day_of F (then_day F y (serve_clients F cs))) ran
            ∙ ap (with_answer (left, x)) same
            ∙ ap (λ y. spec_day y (λ h. spec_clients cs h told)) done,
        subst (λ y. Laid F (then_day F y (serve_clients F cs)).files) (sym ran) kept_on,
      )
