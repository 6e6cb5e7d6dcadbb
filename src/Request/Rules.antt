-- ===== src/Request/Rules.antt =====
-- What a thread may do, as rules on the tree of its calls, and what `tratar_peticion` needs to obey them.
use peer_to_peer_fileshare.Base.{
  ℕ, zero, suc, ◌≡◌, refl, Bool, true, false, Option, none, some, List, [], ◌∷◌, ◌==◌, nat_eq,
  list_eq,
}
use peer_to_peer_fileshare.Base.Int.{ℤ}
use peer_to_peer_fileshare.CString.{Text}
use peer_to_peer_fileshare.Posix.{FileSystem}
use peer_to_peer_fileshare.Request.{
  Field, Line, arrived, hung_up, broken_off, Program, whether, reads, writes, logs, asks_peer,
  locks, unlocks, touches, closes, thread_exit, process_exit, out_of_fuel, exit_error, refuse,
  send_info_to_rpc, Stale, after_read, send_lines, finished, answer, file_reply, removal, send_file,
  users_reply, content_reply, with_username, no_user, answer_with, unregister_call,
  unregister_section, get_file_section, answer_file, after_unregister, after_list, file_lines,
  shown_lines, users_list_name, content_list_name,
}

-- What the buffers may hold once a line was read, what the files are like throughout, what may be done to
-- them, and whether a thread may end with the mutex locked.
pub record Rules (S : Type 0) : Type 1 where
  pub allowed : Field → Text → Type 0
  pub here : S → Type 0
  pub may : (S → S) → Type 0
  pub keeps : (f : S → S) → may f → (s : S) → here s → here (f s)
  pub may_leave : Type 0

module _ {S : Type 0} (R : Rules S) (old : Stale) where
  abbrev pub Admits : Field → Line → Type 0
  Admits f (arrived x) = R.allowed f x
  Admits f hung_up = R.allowed f (old f)
  Admits f broken_off = Unit

  abbrev pub Ends : Bool → Type 0
  Ends true = R.may_leave
  Ends false = Unit

  -- A thread that holds the mutex (`true`) or does not. Whatever the calls return, as far as the buffers
  -- hold what is allowed, it touches the files only in ways that it may, and only while it holds the
  -- mutex; it reads lines only while it does not hold it; it locks the mutex only when it does not hold it and unlocks it only when it does; and it
  -- leaves the mutex locked only if it may.
  abbrev pub Obeys : Bool → Program S → Type 0
  Obeys held (reads f k) = (held ≡ false) × ((l : Line) → Admits f l → Obeys held (k l))
  Obeys held (writes x k) = (ok : Bool) → Obeys held (k ok)
  Obeys held (logs x k) = (made : Bool) → Obeys held (k made)
  Obeys held (asks_peer k) = (peer : Option Text) → Obeys held (k peer)
  Obeys held (locks p) = (held ≡ false) × Obeys true p
  Obeys held (unlocks p) = (held ≡ true) × Obeys false p
  Obeys held (touches f k) = (held ≡ true) × R.may f × ((s : S) → R.here s → Obeys held (k s))
  Obeys held (closes p) = Obeys held p
  Obeys held thread_exit = Ends held
  Obeys held (process_exit n) = Unit
  Obeys held out_of_fuel = Ends held

  pub whether-Obeys :
      (held : Bool) (p q : Program S)
      → Obeys held p
      → Obeys held q
      → (b : Bool) → Obeys held (whether p q b)
  whether-Obeys held p q h k true = h
  whether-Obeys held p q h k false = k

  pub answer-Obeys : (n : ℕ) (reply : Program S) → Obeys false reply → Obeys false (answer n reply)
  answer-Obeys zero reply h = whether-Obeys false reply (process_exit 0) h tt
  answer-Obeys (suc n) reply h = whether-Obeys false exit_error (process_exit 0) tt tt

  pub refuse-Obeys : (held : Bool) (n : ℕ) → Ends held → Obeys held (refuse n)
  refuse-Obeys held n e = whether-Obeys held exit_error (process_exit 0) e tt

  after_read-Obeys :
      (f : Field) (fail : Program S) (k : Text → Program S)
      → Obeys false fail
      → ((x : Text) → R.allowed f x → Obeys false (k x))
      → (l : Line) → Admits f l
      → Obeys false (after_read (old f) fail k l)
  after_read-Obeys f fail k h g (arrived x) a = g x a
  after_read-Obeys f fail k h g hung_up a = g (old f) a
  after_read-Obeys f fail k h g broken_off a = h

  pub read_into-Obeys :
      (f : Field) (fail : Program S) (k : Text → Program S)
      → Obeys false fail
      → ((x : Text) → R.allowed f x → Obeys false (k x))
      → Obeys false (reads f (after_read (old f) fail k))
  read_into-Obeys f fail k h g = (refl, after_read-Obeys f fail k h g)

  pub with_username-Obeys :
      (code : ℕ) (log : Text → Program S → Program S) (k : Text → Program S)
      → ((u : Text) (p : Program S) → Obeys false p → Obeys false (log u p))
      → ((u : Text) → R.allowed Field.username u → Obeys false (k u))
      → Obeys false (with_username old code log k)
  unfolding with_username
  with_username-Obeys code log k h g =
      read_into-Obeys Field.username (refuse code) _ (refuse-Obeys false code tt) (λ u a.
        h u (whether (refuse 1) (k u) (u == no_user))
          (whether-Obeys false (refuse 1) (k u) (refuse-Obeys false 1 tt) (g u a) (u == no_user)))

  pub log-Obeys :
      (op time u : Text) (p : Program S)
      → Obeys false p
      → Obeys false (send_info_to_rpc u op time p)
  log-Obeys op time u p h = whether-Obeys false p (process_exit 1) h tt

  pub send_lines-Obeys :
      (ls : List Text) (fail k : Program S)
      → Obeys true fail
      → Obeys true k
      → Obeys true (send_lines ls fail k)
  unfolding send_lines
  send_lines-Obeys [] fail k h g = g
  send_lines-Obeys (l ∷ ls) fail k h g =
      whether-Obeys true (send_lines ls fail k) fail (send_lines-Obeys ls fail k h g) h

  pub file_reply-Obeys : (a : Text) (port : ℤ) → Obeys false (file_reply a port)
  unfolding file_reply
  file_reply-Obeys a port =
      whether-Obeys false _ (refuse 2)
        (whether-Obeys false finished (refuse 2) tt (refuse-Obeys false 2 tt))
        (refuse-Obeys false 2 tt)

  pub after_unregister-Obeys :
      (r : Option ℕ) → (r ≡ none → R.may_leave) → Obeys true (after_unregister r)
  after_unregister-Obeys none e = e refl
  after_unregister-Obeys (some res) e = (refl, answer-Obeys res finished tt)

  pub after_list-Obeys :
      (code : ℕ) (k : ℕ → ℕ → Program S) (r : Option (ℕ × ℕ))
      → (r ≡ none → R.may_leave)
      → ((res n : ℕ) → Obeys false (k res n))
      → Obeys true (after_list code k r)
  after_list-Obeys code k none e h = refuse-Obeys true code (e refl)
  after_list-Obeys code k (some (res, n)) e h = (refl, h res n)

module _ (F : FileSystem) (R : Rules F.State) (old : Stale) where
  pub answer_with-Obeys :
      (h : F.State → ℕ × F.State) → R.may (λ s. (h s).1) → Obeys R old false (answer_with F h)
  unfolding answer_with
  answer_with-Obeys h m = (refl, (refl, m, λ s at. (refl, answer-Obeys R old _ finished tt)))

  pub unregister_section-Obeys :
      (fuel : F.State → ℕ) (u : Text)
      → R.may (λ s. (unregister_call F fuel u s).1)
      → ((s : F.State) → R.here s → (unregister_call F fuel u s).0 ≡ none → R.may_leave)
      → Obeys R old false (unregister_section F fuel u)
  unfolding unregister_section
  unregister_section-Obeys fuel u m e =
      (refl, (refl, m, λ s at. after_unregister-Obeys R old _ (e s at)))

  answer_file-Obeys : (r : ℕ × Option (Text × ℤ)) → Obeys R old false (answer_file F r)
  unfolding answer_file
  answer_file-Obeys (res, none) = answer-Obeys R old res finished tt
  answer_file-Obeys (res, some (a, port)) =
      answer-Obeys R old res (file_reply a port) (file_reply-Obeys R old a port)

  module _ (same : R.may (λ s. s)) where
    pub get_file_section-Obeys : (u o : Text) → Obeys R old false (get_file_section F u o)
    unfolding get_file_section
    get_file_section-Obeys u o = (refl, (refl, same, λ s at. (refl, answer_file-Obeys _)))

    module _ (path : Text) (removes : R.may (λ s. (removal F path s).1)) where
      send_file-Obeys :
          (lines : Text → List Text) (o : Option Text) → Obeys R old true (send_file F lines path o)
      unfolding send_file
      send_file-Obeys lines none = (refl, tt)
      send_file-Obeys lines (some []) =
          whether-Obeys R old true _ (unlocks exit_error) (refl, removes, λ s at. (refl, tt))
            (refl, tt)
      send_file-Obeys lines (some (c ∷ x)) =
          send_lines-Obeys R old (lines (c ∷ x)) (unlocks exit_error) _ (refl, tt)
            (
              refl,
              removes,
              λ s at.
                  whether-Obeys R old true (unlocks finished) (unlocks exit_error) (refl, tt)
                    (refl, tt) _,
            )

    pub users_reply-Obeys :
        (u : Text) (n : ℕ)
        → R.may (λ s. (removal F (users_list_name u) s).1)
        → Obeys R old false (users_reply F u n)
    unfolding users_reply
    users_reply-Obeys u n m =
        whether-Obeys R old false _ (process_exit 0)
          (refl, (refl, same, λ s at. after_access (F.access s (users_list_name u)))) tt
      where
        after_access :
            (b : Bool)
            → Obeys R old true (
                whether
                  (touches
                    (λ s. s)
                    (λ s.
                      send_file F file_lines
                        (users_list_name u)
                        (F.fopen_read s (users_list_name u))))
                  (unlocks exit_error)
                  b)
        after_access =
            whether-Obeys R old true _ (unlocks exit_error)
              (
                refl,
                same,
                λ s at.
                    send_file-Obeys (users_list_name u) m file_lines
                      (F.fopen_read s (users_list_name u)),
              )
              (refl, tt)

    pub content_reply-Obeys :
        (u o : Text) (n : ℕ)
        → R.may (λ s. (removal F (content_list_name u o) s).1)
        → Obeys R old false (content_reply F u o n)
    unfolding content_reply
    content_reply-Obeys u o n m =
        whether-Obeys R old false _ (process_exit 0)
          (
            refl,
            (
              refl,
              same,
              λ s at.
                  send_file-Obeys (content_list_name u o) m (λ x. shown_lines (file_lines x))
                    (F.fopen_read s (content_list_name u o)),
            ),
          )
          tt
