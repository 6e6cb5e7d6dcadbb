-- ===== src/Request/Serve.antt =====
-- One thread alone, over the bytes that arrive and leave: its calls of `readLine` and `writeLine` as comm.c
-- makes them.
use peer_to_peer_fileshare.Base.{
  ℕ, zero, suc, ◌<◌, ◌≡◌, refl, ap, ◌∙◌, Bool, true, false, Option, some, List, [], ◌∷◌, ◌++◌, map,
  length, take_all, arith, if◌then◌else◌,
}
use peer_to_peer_fileshare.Base.Int.{pos}
use peer_to_peer_fileshare.CString.{Text}
use peer_to_peer_fileshare.ConnectFile.{print_int}
use peer_to_peer_fileshare.Posix.{FileSystem}
use peer_to_peer_fileshare.Comm.{
  WriteResult, delivered, broken, write_line, send_message, ReadResult, got, closed, failed,
  received, read_line,
}
use peer_to_peer_fileshare.Comm.Lines.{IsLine, read_line-got}
use peer_to_peer_fileshare.Request.{
  Field, size_of, Line, arrived, hung_up, broken_off, Program, reads, writes, logs, asks_peer,
  locks, unlocks, touches, closes, thread_exit, process_exit, out_of_fuel, answer, finished,
  answer_with,
}

-- What the thread finds: the files, whether `file_mutex` is locked, the results of `read` and `write` that
-- are to come, what the socket has taken, what the log was told, the client's address, and whether
-- there is a log.
pub record World (S : Type 0) : Type 0 where
  pub files : S
  pub locked : Bool
  pub input : List ReadResult
  pub output : List WriteResult
  pub sent : Text
  pub logged : List Text
  pub peer : Option Text
  pub log_is_up : Bool

-- How a thread ends: with `pthread_exit`, with `exit` for the whole process, in a lock that is never
-- freed; or the model's fuel was too small.
pub data End : Type 0 where
  left blocked ran_out : End
  exited : ℕ → End

unfoldable pub serve : {S : Type 0} → Program S → World S → End × World S
unfolding read_line write_line send_message
serve (reads f k) w = elim (read_line (size_of f) w.input) [
  | closed rs ↦ serve (k hung_up) (record w { input = rs })
  | failed rs ↦ serve (k broken_off) (record w { input = rs })
  | received x rs ↦ serve (k (arrived x)) (record w { input = rs })
]
serve (writes x k) w = elim (write_line w.output x) [
  | delivered y ws ↦ serve (k true) (record w { output = ws; sent = w.sent ++ y })
  | broken y ws ↦ serve (k false) (record w { output = ws; sent = w.sent ++ y })
]
serve (logs x k) w =
    let answered = serve (k true) (record w { logged = w.logged ++ x ∷ [] }) in
    let alone = serve (k false) w in if w.log_is_up then answered else alone
serve (asks_peer k) w = serve (k w.peer) w
serve (locks p) w =
    let entered = serve p (record w { locked = true }) in if w.locked then (blocked, w) else entered
serve (unlocks p) w = serve p (record w { locked = false })
serve (touches f k) w = serve (k w.files) (record w { files = f w.files })
serve (closes p) w = serve p w
serve thread_exit w = (left, w)
serve (process_exit n) w = (exited n, w)
serve out_of_fuel w = (ran_out, w)

-- A string and the NUL that ends it, as they arrive.
abbrev pub then_line : Text → List ReadResult → List ReadResult
then_line x rest = map got x ++ got 0 ∷ rest

abbrev pub lines : List Text → List ReadResult → List ReadResult
lines [] rest = rest
lines (x ∷ xs) rest = then_line x (lines xs rest)

-- The mutex is free, the log is up, the client's address is known and no call of `write` fails.
abbrev pub calm : {S : Type 0} → Text → S → List ReadResult → Text → List Text → World S
calm address files input sent logged = record {
  files = files;
  locked = false;
  input = input;
  output = [];
  sent = sent;
  logged = logged;
  peer = some address;
  log_is_up = true;
}

-- A code as `send_result` sends it.
abbrev pub code_line : ℕ → Text
code_line res = print_int (pos res) ++ 0 ∷ []

-- A string that a line carries whole into a buffer.
abbrev pub Carried : Field → Text → Type 0
Carried f x = IsLine x × (length x < size_of f)

read_line-then_line :
    (n : ℕ) (x : Text) (rest : List ReadResult)
    → IsLine x
    → length x < n
    → read_line n (then_line x rest) ≡ received x rest
read_line-then_line n x rest h k =
    read_line-got n x rest (omega arith) h ∙ ap (λ y. received y rest) (take_all _ x (omega arith))

module _ {S : Type 0} (address : Text) where
  pub serve-reads :
      (f : Field) (k : Line → Program S) (x : Text) (s : S) (rest : List ReadResult) (sent : Text)
      (logged : List Text)
      → Carried f x
      → serve (reads f k) (calm address s (then_line x rest) sent logged)
        ≡ serve (k (arrived x)) (calm address s rest sent logged)
  unfolding serve
  serve-reads f k x s rest sent logged (h, b) =
      ap
        (λ r. elim r [
          | closed rs ↦ serve (k hung_up) (calm address s rs sent logged)
          | failed rs ↦ serve (k broken_off) (calm address s rs sent logged)
          | received y rs ↦ serve (k (arrived y)) (calm address s rs sent logged)
        ])
        (read_line-then_line (size_of f) x rest h b)

  pub serve-answer :
      (res : ℕ) (s : S) (rest : List ReadResult) (sent : Text) (logged : List Text)
      → serve (answer res finished) (calm address s rest sent logged)
        ≡ (left, calm address s rest (sent ++ code_line res) logged)
  unfolding serve
  serve-answer zero s rest sent logged = refl
  serve-answer (suc n) s rest sent logged = refl

module _ (F : FileSystem) (address : Text) where
  pub serve-answer_with :
      (h : F.State → ℕ × F.State) (s : F.State) (rest : List ReadResult) (sent : Text)
      (logged : List Text)
      → serve (answer_with F h) (calm address s rest sent logged)
        ≡ (left, calm address (h s).1 rest (sent ++ code_line (h s).0) logged)
  unfolding serve answer_with
  serve-answer_with h s rest sent logged = serve-answer address (h s).0 (h s).1 rest sent logged
