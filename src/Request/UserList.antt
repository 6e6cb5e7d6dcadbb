-- ===== src/Request/UserList.antt =====
-- `tratar_peticion` on `LIST_USERS` and `LIST_CONTENT`, from the code on.
use peer_to_peer_fileshare.Base.{
  ℕ, ◌≡◌, refl, ap, sym, ◌∙◌, Bool, true, some, List, [], ◌∷◌, ◌++◌, append_assoc, append-nil,
  list_eq, nat_eq,
}
use peer_to_peer_fileshare.CString.{Text}
use peer_to_peer_fileshare.Posix.{FileSystem}
use peer_to_peer_fileshare.Comm.{ReadResult}
use peer_to_peer_fileshare.Request.{
  Program, whether, call, unlocks, exit_error, finished, send_lines, removal, send_file, file_lines,
  dashes, users_list_name, users_reply, shown_lines, content_list_name, content_reply,
}
use peer_to_peer_fileshare.Request.Serve.{World, left, serve, calm, code_line}

-- Lines as they are sent.
abbrev pub sent_lines : List Text → Text
sent_lines [] = []
sent_lines (l ∷ ls) = (l ++ 0 ∷ []) ++ sent_lines ls

-- What is sent of a list: its lines, or the dashes if it is empty.
abbrev pub shown_list : (Text → List Text) → Text → Text
shown_list cut [] = dashes ++ 0 ∷ []
shown_list cut (c ∷ x) = sent_lines (cut (c ∷ x))

-- The lines of LIST_CONTENT.
abbrev pub content_lines : Text → List Text
content_lines x = shown_lines (file_lines x)

-- The thread holds the mutex.
abbrev pub holding : {S : Type 0} → World S → World S
holding w = record w { locked = true }

serve-send_lines :
    {S : Type 0} (address : Text) (s : S) (rest : List ReadResult) (logged : List Text)
    (ls : List Text) (fail k : Program S) (sent : Text)
    → serve (send_lines ls fail k) (holding (calm address s rest sent logged))
      ≡ serve k (holding (calm address s rest (sent ++ sent_lines ls) logged))
unfolding serve send_lines
serve-send_lines address s rest logged [] fail k sent =
    ap (λ x. serve k (holding (calm address s rest x logged))) (sym (append-nil sent))
serve-send_lines address s rest logged (l ∷ ls) fail k sent =
    serve-send_lines address s rest logged ls fail k (sent ++ (l ++ 0 ∷ []))
    ∙ ap (λ x. serve k (holding (calm address s rest x logged)))
        (append_assoc sent (l ++ 0 ∷ []) (sent_lines ls))

module _ (F : FileSystem) (address : Text) (rest : List ReadResult) (logged : List Text) where
  pub serve-send_file :
      (cut : Text → List Text) (path x : Text) (s t : F.State) (sent : Text)
      → F.remove s path ≡ some t
      → serve (send_file F cut path (some x)) (holding (calm address s rest sent logged))
        ≡ (left, calm address t rest (sent ++ shown_list cut x) logged)
  unfolding serve send_file
  serve-send_file cut path [] s t sent gone =
      ap (λ (r : Bool × F.State). (left, calm address r.1 rest (sent ++ (dashes ++ 0 ∷ [])) logged))
        removed
    where
      removed : removal F path s ≡ (true, t)
      removed = rw (removal, gone) refl
  serve-send_file cut path (c ∷ x) s t sent gone =
      serve-send_lines address s rest logged (cut (c ∷ x)) (unlocks exit_error)
        (call (removal F path) (whether (unlocks finished) (unlocks exit_error))) sent
      ∙ ap
          (λ (r : Bool × F.State).
            serve (whether (unlocks finished) (unlocks exit_error) r.0)
              (holding (calm address r.1 rest (sent ++ sent_lines (cut (c ∷ x))) logged)))
          removed
    where
      removed : removal F path s ≡ (true, t)
      removed = rw (removal, gone) refl

  pub serve-users_reply :
      (u : Text) (n : ℕ) (x : Text) (s t : F.State) (sent : Text)
      → F.access s (users_list_name u) ≡ true
      → F.fopen_read s (users_list_name u) ≡ some x
      → F.remove s (users_list_name u) ≡ some t
      → serve (users_reply F u n) (calm address s rest sent logged)
        ≡ (left, calm address t rest ((sent ++ code_line n) ++ shown_list file_lines x) logged)
  unfolding serve users_reply
  serve-users_reply u n x s t sent there opens gone =
      ap
        (λ b.
          serve
            (whether
              (call (λ v. (F.fopen_read v (users_list_name u), v))
                (send_file F file_lines (users_list_name u)))
              (unlocks exit_error) b)
            (holding (calm address s rest (sent ++ code_line n) logged)))
        there
      ∙ ap
          (λ o.
            serve (send_file F file_lines (users_list_name u) o)
              (holding (calm address s rest (sent ++ code_line n) logged)))
          opens
      ∙ serve-send_file file_lines (users_list_name u) x s t (sent ++ code_line n) gone

  pub serve-content_reply :
      (u o : Text) (n : ℕ) (x : Text) (s t : F.State) (sent : Text)
      → F.fopen_read s (content_list_name u o) ≡ some x
      → F.remove s (content_list_name u o) ≡ some t
      → serve (content_reply F u o n) (calm address s rest sent logged)
        ≡ (left, calm address t rest ((sent ++ code_line n) ++ shown_list content_lines x) logged)
  unfolding serve content_reply
  serve-content_reply u o n x s t sent opens gone =
      ap
        (λ o'.
          serve (send_file F content_lines (content_list_name u o) o')
            (holding (calm address s rest (sent ++ code_line n) logged)))
        opens
      ∙ serve-send_file content_lines (content_list_name u o) x s t (sent ++ code_line n) gone
