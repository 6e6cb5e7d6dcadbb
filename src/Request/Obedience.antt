-- ===== src/Request/Obedience.antt =====
-- The operations of `tratar_peticion` against rules on their calls.
use peer_to_peer_fileshare.Base.{ℕ, ◌≡◌, refl, false, Option, none, some, nat_eq, list_eq}
use peer_to_peer_fileshare.CString.{Text}
use peer_to_peer_fileshare.Posix.{FileSystem}
use peer_to_peer_fileshare.Handle.Account.{
  handle_register, handle_connect, handle_publish, handle_delete, handle_disconnect,
}
use peer_to_peer_fileshare.Request.{
  username, file_name, owner, port_str, description, Program, read_into, refuse, Stale, answer,
  removal, unregister_call, open_users, list_users_section, open_content, list_content_section,
  after_peer, atoi, users_list_name, content_list_name, users_reply, content_reply,
  get_file_section, request_register, request_unregister, request_connect, request_publish,
  request_delete, request_list_users, request_list_content, request_disconnect, request_get_file,
}
use peer_to_peer_fileshare.Request.Rules.{
  Rules, Obeys, answer-Obeys, refuse-Obeys, read_into-Obeys, with_username-Obeys, after_list-Obeys,
  answer_with-Obeys, unregister_section-Obeys, get_file_section-Obeys, users_reply-Obeys,
  content_reply-Obeys,
}

-- The rules let the handlers, and the calls on the files for lists, do what they do.
pub record Permits (F : FileSystem) (fuel : F.State → ℕ) (R : Rules F.State) : Type 0 where
  pub same : R.may (λ s. s)
  pub register : (u : Text) → R.allowed username u → R.may (λ s. (handle_register F u s).1)
  pub unregister : (u : Text) → R.allowed username u → R.may (λ s. (unregister_call F fuel u s).1)
  pub unregister_ended :
      (u : Text) (s : F.State)
      → R.allowed username u
      → R.here s
      → (unregister_call F fuel u s).0 ≡ none
      → R.may_leave
  pub connect :
      (u port address : Text)
      → R.allowed username u
      → R.may (λ s. (handle_connect F u (atoi port) address s).1)
  pub publish :
      (u f d : Text)
      → R.allowed username u
      → R.allowed file_name f
      → R.may (λ s. (handle_publish F u f d s).1)
  pub delete :
      (u f : Text)
      → R.allowed username u
      → R.allowed file_name f
      → R.may (λ s. (handle_delete F u f s).1)
  pub disconnect : (u : Text) → R.allowed username u → R.may (λ s. (handle_disconnect F u s).1)
  pub users : (u : Text) → R.allowed username u → R.may (λ s. (open_users F u s).1)
  pub users_closed :
      (u : Text) (s : F.State)
      → R.allowed username u
      → R.here s
      → (open_users F u s).0 ≡ none
      → R.may_leave
  pub users_removal :
      (u : Text) → R.allowed username u → R.may (λ s. (removal F (users_list_name u) s).1)
  pub content :
      (u o : Text)
      → R.allowed username u
      → R.allowed owner o
      → R.may (λ s. (open_content F u o s).1)
  pub content_closed :
      (u o : Text) (s : F.State)
      → R.allowed username u
      → R.allowed owner o
      → R.here s
      → (open_content F u o s).0 ≡ none
      → R.may_leave
  pub content_removal :
      (u o : Text)
      → R.allowed username u
      → R.allowed owner o
      → R.may (λ s. (removal F (content_list_name u o) s).1)

module _ (F : FileSystem) (fuel : F.State → ℕ) (R : Rules F.State) (P : Permits F fuel R)
    (old : Stale) where
  list_users_section-Obeys :
      (u : Text) → R.allowed username u → Obeys R old false (list_users_section F u)
  unfolding list_users_section
  list_users_section-Obeys u a = (
    refl,
    (
      refl,
      P.users u a,
      λ s at.
          after_list-Obeys R old 3 (λ res n. answer res (users_reply F u n)) (open_users F u s).0
            (λ e. P.users_closed u s a at e)
            (λ res n.
              answer-Obeys R old res (users_reply F u n)
                (users_reply-Obeys F R old P.same u n (P.users_removal u a))),
    ),
  )

  list_content_section-Obeys :
      (u o : Text)
      → R.allowed username u
      → R.allowed owner o
      → Obeys R old false (list_content_section F u o)
  unfolding list_content_section
  list_content_section-Obeys u o a b = (
    refl,
    (
      refl,
      P.content u o a b,
      λ s at.
          after_list-Obeys R old 4 (λ res n. answer res (content_reply F u o n))
            (open_content F u o s).0 (λ e. P.content_closed u o s a b at e)
            (λ res n.
              answer-Obeys R old res (content_reply F u o n)
                (content_reply-Obeys F R old P.same u o n (P.content_removal u o a b))),
    ),
  )

  -- A way to tell the log that goes on with what it is given.
  abbrev pub Telling : (Text → Program F.State → Program F.State) → Type 0
  Telling log = (u : Text) (p : Program F.State) → Obeys R old false p → Obeys R old false (log u p)

  module _ (log : Text → Program F.State → Program F.State) (tells : Telling log) where
    pub request_register-Obeys : Obeys R old false (request_register F old log)
    unfolding request_register
    request_register-Obeys =
        with_username-Obeys R old 2 log _ tells
          (λ u a. answer_with-Obeys F R old (handle_register F u) (P.register u a))

    pub request_unregister-Obeys : Obeys R old false (request_unregister F old fuel log)
    unfolding request_unregister
    request_unregister-Obeys = with_username-Obeys R old 2 log _ tells (λ u a.
        unregister_section-Obeys F R old fuel u (P.unregister u a)
          (λ s at e. P.unregister_ended u s a at e))

    after_peer-Obeys :
        (k : Text → Program F.State)
        → ((address : Text) → Obeys R old false (k address))
        → (peer : Option Text) → Obeys R old false (after_peer k peer)
    after_peer-Obeys k h none = refuse-Obeys R old false 3 tt
    after_peer-Obeys k h (some address) = h address

    pub request_connect-Obeys : Obeys R old false (request_connect F old log)
    unfolding request_connect
    request_connect-Obeys = with_username-Obeys R old 2 log _ tells (λ u a.
        read_into-Obeys R old port_str (refuse 2) _ (refuse-Obeys R old false 2 tt) (λ port b.
          after_peer-Obeys _ (λ address.
            answer_with-Obeys F R old (handle_connect F u (atoi port) address)
              (P.connect u port address a))))

    pub request_publish-Obeys : Obeys R old false (request_publish F old log)
    unfolding request_publish
    request_publish-Obeys = with_username-Obeys R old 2 log _ tells (λ u a.
        read_into-Obeys R old file_name (refuse 2) _ (refuse-Obeys R old false 2 tt) (λ f b.
          read_into-Obeys R old description (refuse 2) _ (refuse-Obeys R old false 2 tt)
            (λ d c. answer_with-Obeys F R old (handle_publish F u f d) (P.publish u f d a b))))

    pub request_delete-Obeys : Obeys R old false (request_delete F old log)
    unfolding request_delete
    request_delete-Obeys = with_username-Obeys R old 2 log _ tells (λ u a.
        read_into-Obeys R old file_name (refuse 2) _ (refuse-Obeys R old false 2 tt)
          (λ f b. answer_with-Obeys F R old (handle_delete F u f) (P.delete u f a b)))

    pub request_list_users-Obeys : Obeys R old false (request_list_users F old log)
    unfolding request_list_users
    request_list_users-Obeys = with_username-Obeys R old 3 log _ tells list_users_section-Obeys

    pub request_list_content-Obeys : Obeys R old false (request_list_content F old log)
    unfolding request_list_content
    request_list_content-Obeys = with_username-Obeys R old 4 log _ tells (λ u a.
        read_into-Obeys R old owner (refuse 4) _ (refuse-Obeys R old false 4 tt)
          (λ o b. list_content_section-Obeys u o a b))

    pub request_disconnect-Obeys : Obeys R old false (request_disconnect F old log)
    unfolding request_disconnect
    request_disconnect-Obeys =
        with_username-Obeys R old 3 log _ tells
          (λ u a. answer_with-Obeys F R old (handle_disconnect F u) (P.disconnect u a))

  pub request_get_file-Obeys : Obeys R old false (request_get_file F old)
  unfolding request_get_file
  request_get_file-Obeys =
      with_username-Obeys R old 3 (λ u p. p)
        (λ u. read_into owner old (refuse 3) (λ o. get_file_section F u o)) (λ u p h. h)
        (λ u a.
          read_into-Obeys R old owner (refuse 3) (get_file_section F u)
            (refuse-Obeys R old false 3 tt) (λ o b. get_file_section-Obeys F R old P.same u o))
