-- ===== src/Request/Threads.antt =====
-- The threads of the server side by side: they share the files and `file_mutex`.
use peer_to_peer_fileshare.Base.{
  ℕ, ◌≡◌, Bool, true, false, Option, none, some, ◌==◌, nat_eq, if◌then◌else◌,
}
use peer_to_peer_fileshare.CString.{Text}
use peer_to_peer_fileshare.Posix.{FileSystem}
use peer_to_peer_fileshare.Request.{
  Line, Program, reads, writes, logs, asks_peer, locks, unlocks, touches, closes, thread_exit,
  process_exit, out_of_fuel, Stale, tratar_peticion,
}
use peer_to_peer_fileshare.Request.Rules.{Rules, Admits}

-- What the sockets, the log and the network answer to the next call.
pub record Answers : Type 0 where
  pub line : Line
  pub done : Bool
  pub peer : Option Text

-- The files, who holds `file_mutex`, what each thread has still to do, and whether the process runs.
pub record Threads (S : Type 0) : Type 0 where
  pub files : S
  pub holder : Option ℕ
  pub rest : ℕ → Program S
  pub runs : Bool

-- Whether thread `i` holds the mutex.
abbrev pub holds : ℕ → Option ℕ → Bool
holds i none = false
holds i (some j) = i == j

module _ {S : Type 0} where
  -- Thread `i` stands before `p`.
  abbrev pub stand : ℕ → Program S → (ℕ → Program S) → ℕ → Program S
  stand i p rest j = if j == i then p else rest j

  abbrev pub goes_on : ℕ → Program S → S → Option ℕ → Threads S → Threads S
  goes_on i p files holder v = record {
    files = files;
    holder = holder;
    rest = stand i p v.rest;
    runs = v.runs;
  }

  -- `pthread_mutex_lock` blocks while a thread holds the mutex, the caller too.
  abbrev pub take : ℕ → Program S → Threads S → Option ℕ → Option (Threads S)
  take i p v none = some (goes_on i p v.files (some i) v)
  take i p v (some j) = none

  -- Thread `i` makes its next call; `none`: it is blocked or has ended.
  unfoldable pub perform : ℕ → Program S → Answers → Threads S → Option (Threads S)
  perform i (reads f k) a v = some (goes_on i (k a.line) v.files v.holder v)
  perform i (writes x k) a v = some (goes_on i (k a.done) v.files v.holder v)
  perform i (logs x k) a v = some (goes_on i (k a.done) v.files v.holder v)
  perform i (asks_peer k) a v = some (goes_on i (k a.peer) v.files v.holder v)
  perform i (locks p) a v = take i p v v.holder
  perform i (unlocks p) a v = some (goes_on i p v.files none v)
  perform i (touches f k) a v = some (goes_on i (k v.files) (f v.files) v.holder v)
  perform i (closes p) a v = some (goes_on i p v.files v.holder v)
  perform i thread_exit a v = none
  perform i (process_exit n) a v = some (record v { runs = false })
  perform i out_of_fuel a v = none

  unfoldable pub advance : ℕ → Answers → Threads S → Option (Threads S)
  unfolding perform
  advance i a v = if v.runs then perform i (v.rest i) a v else none

  -- The answer is one that the rules let the buffers hold.
  abbrev pub Admissible : Rules S → Stale → Program S → Answers → Type 0
  Admissible R old (reads f k) a = Admits R old f a.line
  Admissible R old (writes x k) a = Unit
  Admissible R old (logs x k) a = Unit
  Admissible R old (asks_peer k) a = Unit
  Admissible R old (locks p) a = Unit
  Admissible R old (unlocks p) a = Unit
  Admissible R old (touches f k) a = Unit
  Admissible R old (closes p) a = Unit
  Admissible R old thread_exit a = Unit
  Admissible R old (process_exit n) a = Unit
  Admissible R old out_of_fuel a = Unit

  -- The runs from `v` on: the threads take turns in any order.
  pub data Run (R : Rules S) (old : ℕ → Stale) (v : Threads S) : Threads S → Type 0 where
    begin : Run R old v v
    turn :
        {w x : Threads S} (i : ℕ) (a : Answers)
        → Run R old v w
        → Admissible R (old i) (w.rest i) a
        → advance i a w ≡ some x
        → Run R old v x

-- Every thread starts with `tratar_peticion`; one that makes no call stands for one not created.
abbrev pub opened : (F : FileSystem) → (ℕ → Stale) → (F.State → ℕ) → F.State → Threads F.State
opened F old fuel s = record {
  files = s;
  holder = none;
  rest = λ i. tratar_peticion F (old i) fuel;
  runs = true;
}
