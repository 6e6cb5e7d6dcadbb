-- ===== src/Request/Closed.antt =====
-- `LIST_USERS` where the file for the list cannot be opened.
use peer_to_peer_fileshare.Base.{
  ℕ, ◌≡◌, refl, sym, subst, ◌∙◌, true, false, Option, none, some, [], ◌==◌, ==_refl, list_eq,
  nat_eq,
}
use peer_to_peer_fileshare.CString.{Text, codes}
use peer_to_peer_fileshare.Posix.{FileSystem}
use peer_to_peer_fileshare.Request.{
  arrived, Program, whether, thread_exit, Stale, exit_error, refuse, send_info_to_rpc, call, answer,
  users_reply, after_list, list_users_section, no_user, users_list_name, open_users,
  after_operation, dispatch, tratar_peticion,
}
use peer_to_peer_fileshare.Request.Threads.{
  Answers, Threads, goes_on, take, perform, Run, begin, turn, opened,
}
use peer_to_peer_fileshare.Request.Order.{Run-IsInOrder, advance-at}
use peer_to_peer_fileshare.Request.Exclusion.{any, any-Admissible, opened-IsInOrder}
use peer_to_peer_fileshare.Request.Stuck.{Run-IsStuck}

module _ {S : Type 0} (old : ℕ → Stale) (v : Threads S) (i : ℕ) where
  -- A run in which thread `i` comes to stand before `p`.
  abbrev Reaches : Program S → S → Option ℕ → Type 0
  Reaches p files holder =
      (w : Threads S) × Run (any S Unit) old v w
      × (w.rest i ≡ p)
      × (w.files ≡ files)
      × (w.holder ≡ holder)
      × (w.runs ≡ true)

  then-Reaches :
      (p q : Program S) (a : Answers) (files files' : S) (holder holder' : Option ℕ)
      → ((w : Threads S)
          → w.files ≡ files
          → w.holder ≡ holder
          → (x : Threads S) × (perform i p a w ≡ some x)
            × (x.rest i ≡ q)
            × (x.files ≡ files')
            × (x.holder ≡ holder')
            × (x.runs ≡ w.runs))
      → Reaches p files holder
      → Reaches q files' holder'
  then-Reaches p q a files files' holder holder' e (w, r, at, f, h, runs) =
      let (x, g, at', f', h', runs') = e w f h in
      (
        x,
        turn i a r (any-Admissible Unit (old i) (w.rest i) a) (advance-at i p a w runs at ∙ g),
        at',
        f',
        h',
        runs' ∙ runs,
      )

  -- A call that touches neither the files nor the mutex.
  then_goes :
      {files : S} {holder : Option ℕ} (p q : Program S) (a : Answers)
      → ((w : Threads S) → perform i p a w ≡ some (goes_on i q w.files w.holder w))
      → Reaches p files holder
      → Reaches q files holder
  then_goes {files} {holder} p q a e =
      then-Reaches p q a files files holder holder (λ w f h. (_, e w, rw (==_refl i), f, h, refl))

module _ (F : FileSystem) (old : ℕ → Stale) (fuel : F.State → ℕ) (s : F.State) (i : ℕ)
    (u time : Text) (someone : (u == no_user) ≡ false)
    (closed : F.fopen_write s (users_list_name u) ≡ none) where
  open_users-closed : open_users F u s ≡ (none, s)
  unfolding open_users
  open_users-closed = rw (open_users, closed) refl

  abbrev gives : Text → Answers
  gives x = record { line = arrived x; done = true; peer = none }

  abbrev Sees : Program F.State → Option ℕ → Type 0
  Sees p = Reaches old (opened F old fuel s) i p s

  abbrev logged : Program F.State
  logged = whether (refuse 1) (list_users_section F u) (u == no_user)

  abbrev start : Threads F.State
  start = opened F old fuel s

  abbrev listing : Program F.State
  listing = call (open_users F u) (after_list 3 (λ res n. answer res (users_reply F u n)))

  reaches_log : Sees (send_info_to_rpc u (codes "LIST_USERS") time logged) none
  unfolding perform tratar_peticion after_operation dispatch
  reaches_log =
      then_goes old start i (dispatch F (old i) fuel (codes "LIST_USERS") time) _ (gives u)
        (λ w. refl)
        (then_goes old start i (after_operation F (old i) fuel (codes "LIST_USERS")) _ (gives time)
          (λ w. refl)
          (then_goes old start i (tratar_peticion F (old i) fuel) _ (gives (codes "LIST_USERS"))
            (λ w. refl) (start, begin, refl, refl, refl, refl)))

  reaches_lock : Sees (list_users_section F u) none
  unfolding perform
  reaches_lock =
      subst (λ b. Sees (whether (refuse 1) (list_users_section F u) b) none) someone
        (then_goes old start i (send_info_to_rpc u (codes "LIST_USERS") time logged) logged
          (gives []) (λ w. refl) reaches_log)

  reaches_closed : Sees (refuse 3) (some i)
  unfolding perform list_users_section
  reaches_closed =
      then-Reaches old start i listing (refuse 3) (gives []) s s (some i) (some i)
        (λ w f h. (
          goes_on i
              (after_list 3 (λ res n. answer res (users_reply F u n)) (open_users F u w.files).0)
              (open_users F u w.files).1 w.holder w,
          refl,
          rw (==_refl i, f, open_users-closed) refl,
          rw (f, open_users-closed) refl,
          h,
          refl,
        ))
        (then-Reaches old start i (list_users_section F u) listing (gives []) s s none (some i)
          (λ w f h. (
            goes_on i listing w.files (some i) w,
            subst (λ m. take i listing w m ≡ some (goes_on i listing w.files (some i) w)) (sym h)
                refl,
            rw (==_refl i),
            f,
            refl,
            refl,
          ))
          reaches_lock)

  reaches_end : Sees thread_exit (some i)
  unfolding perform
  reaches_end =
      then_goes old start i exit_error thread_exit (gives []) (λ w. refl)
        (then_goes old start i (refuse 3) exit_error (gives []) (λ w. refl) reaches_closed)

  -- If the file for its list cannot be opened, a LIST_USERS of a user other than "__NO_USER__" can end its
  -- thread with `file_mutex` locked, and then no run of the server frees the mutex or changes a file.
  pub list_users-stuck :
      (v : Threads F.State) × Run (any F.State Unit) old start v
      × (v.rest i ≡ thread_exit)
      × ((w : Threads F.State)
          → Run (any F.State Unit) old v w
          → (w.holder ≡ some i) × (w.files ≡ s))
  list_users-stuck =
      let (v, r, at, f, h, runs) = reaches_end in
      (
        v,
        r,
        at,
        λ w more.
            let (ended, held, kept) =
              Run-IsStuck (any F.State Unit) old i s
                (Run-IsInOrder (any F.State Unit) old (opened-IsInOrder F old fuel s) r) (at, h, f)
                more in
            (held, kept),
      )
