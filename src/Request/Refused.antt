-- ===== src/Request/Refused.antt =====
-- `tratar_peticion` on requests that it refuses by itself.
use peer_to_peer_fileshare.Base.{
  ℕ, ◌≡◌, refl, ap, ◌∙◌, false, List, [], ◌∷◌, ◌++◌, ◌==◌, list_eq, nat_eq, All, take, arith,
}
use peer_to_peer_fileshare.CString.{Text, codes}
use peer_to_peer_fileshare.Posix.{FileSystem}
use peer_to_peer_fileshare.Comm.{ReadResult}
use peer_to_peer_fileshare.Request.{
  operation, c_time_string, username, Program, whether, refuse, send_info_to_rpc, rpc_string, Stale,
  after_read, with_username, no_user, finished, answer, request_register, request_connect,
  request_publish, request_delete, request_disconnect, request_unregister, request_list_users,
  request_list_content, branches, choose, dispatch, tratar_peticion,
}
use peer_to_peer_fileshare.Request.Opening.{plain-IsLine, serve-start}
use peer_to_peer_fileshare.Request.Serve.{
  left, serve, then_line, calm, code_line, Carried, serve-reads, serve-answer,
}

-- The operations.
abbrev pub op_names : List Text
op_names =
    codes "REGISTER"
    ∷ codes "UNREGISTER"
    ∷ codes "CONNECT"
    ∷ codes "PUBLISH"
    ∷ codes "DELETE"
    ∷ codes "LIST_USERS"
    ∷ codes "LIST_CONTENT"
    ∷ codes "DISCONNECT"
    ∷ codes "GET_FILE"
    ∷ []

abbrev pub IsUnknown : Text → Type 0
IsUnknown op = All (λ n. (op == n) ≡ false) op_names

choose-unknown :
    {S : Type 0} (ps : List (Text × Program S)) (p : Program S) (op : Text)
    → All (λ q. (op == q.0) ≡ false) ps
    → choose ps p op ≡ p
choose-unknown [] p op h = refl
choose-unknown ((name, q) ∷ ps) p op (h, hs) = rw h (choose-unknown ps p op hs)

module _ (F : FileSystem) (old : Stale) (fuel : F.State → ℕ) (address sent : Text) (s : F.State)
    (rest : List ReadResult) (logged : List Text) where
  -- An operation that the server does not know is answered with 1: no file is touched, the log is told
  -- nothing and no more is read than the operation and the time, which fit the buffers.
  pub serve-unknown :
      (op time : Text)
      → IsUnknown op
      → Carried operation op
      → Carried c_time_string time
      → serve
          (tratar_peticion F old fuel)
          (calm address s (then_line op (then_line time rest)) sent logged)
        ≡ (left, calm address s rest (sent ++ code_line 1) logged)
  unfolding dispatch branches
  serve-unknown op time (a, (b, (c, (d, (e, (f, (g, (h, (i, j))))))))) k l =
      serve-start F old address sent fuel op time s rest logged i k l
      ∙ ap (λ p. serve p (calm address s rest sent logged))
          (choose-unknown (branches F old fuel (λ u p. send_info_to_rpc u op time p))
            (answer 1 finished) op (a, (b, (c, (d, (e, (f, (g, (h, tt)))))))))
      ∙ serve-answer address 1 s rest sent logged

  -- What is left of an operation once "__NO_USER__" is read.
  refused :
      (op time : Text) (p : Program F.State)
      → serve
          (send_info_to_rpc no_user op time (whether (refuse 1) p (no_user == no_user)))
          (calm address s rest sent logged)
        ≡ (
          left,
          calm address s rest (sent ++ code_line 1) (logged ++ rpc_string no_user op time ∷ []),
        )
  unfolding serve
  refused op time p = refl

  refused_after :
      (code : ℕ) (op time : Text) (k : Text → Program F.State)
      → serve
          (with_username old code (λ v p. send_info_to_rpc v op time p) k)
          (calm address s (then_line no_user rest) sent logged)
        ≡ (
          left,
          calm address s rest (sent ++ code_line 1) (logged ++ rpc_string no_user op time ∷ []),
        )
  unfolding with_username
  refused_after code op time k =
      serve-reads address username
        (after_read (old username) (refuse code)
          (λ v. send_info_to_rpc v op time (whether (refuse 1) (k v) (v == no_user))))
        no_user s rest sent logged (plain-IsLine no_user refl, omega arith)
      ∙ refused op time (k no_user)

  -- The operation is answered with 1, and the log is told.
  abbrev pub Refuses : Text → Text → Type 0
  Refuses time op =
      serve (tratar_peticion F old fuel)
        (calm address s (then_line op (then_line time (then_line no_user rest))) sent logged)
      ≡ (
        left,
        calm address s rest (sent ++ code_line 1) (logged ++ rpc_string no_user op time ∷ []),
      )

  refuses :
      (code : ℕ) (op : Text) (k : Text → Program F.State) (time : Text)
      → (op == codes "GET_FILE") ≡ false
      → Carried operation op
      → Carried c_time_string time
      → dispatch F old fuel op time ≡ with_username old code (λ v p. send_info_to_rpc v op time p) k
      → Refuses time op
  refuses code op k time other h l is =
      serve-start F old address sent fuel op time s (then_line no_user rest) logged other h l
      ∙ ap (λ p. serve p (calm address s (then_line no_user rest) sent logged)) is
      ∙ refused_after code op time k

  -- The user "__NO_USER__" gets 1 for each operation that comes with a time, which fits its buffer. No file
  -- is touched, nothing is read past the name, the log is told, and the mutex stays free; the log is up
  -- and the socket takes what is written.
  pub serve-no_user :
      (time : Text) → Carried c_time_string time → All (Refuses time) (take 8 op_names)
  unfolding dispatch branches request_register request_unregister request_connect request_publish
      request_delete request_list_users request_list_content request_disconnect
  serve-no_user time l = (
    refuses 2 (codes "REGISTER") _ time refl (plain-IsLine (codes "REGISTER") refl, omega arith) l
        refl,
    (
      refuses 2 (codes "UNREGISTER") _ time refl
          (plain-IsLine (codes "UNREGISTER") refl, omega arith) l refl,
      (
        refuses 2 (codes "CONNECT") _ time refl (plain-IsLine (codes "CONNECT") refl, omega arith) l
            refl,
        (
          refuses 2 (codes "PUBLISH") _ time refl (plain-IsLine (codes "PUBLISH") refl, omega arith)
              l refl,
          (
            refuses 2 (codes "DELETE") _ time refl (plain-IsLine (codes "DELETE") refl, omega arith)
                l refl,
            (
              refuses 3 (codes "LIST_USERS") _ time refl
                  (plain-IsLine (codes "LIST_USERS") refl, omega arith) l refl,
              (
                refuses 4 (codes "LIST_CONTENT") _ time refl
                    (plain-IsLine (codes "LIST_CONTENT") refl, omega arith) l refl,
                (
                  refuses 3 (codes "DISCONNECT") _ time refl
                      (plain-IsLine (codes "DISCONNECT") refl, omega arith) l refl,
                  tt,
                ),
              ),
            ),
          ),
        ),
      ),
    ),
  )
