-- ===== src/Request/Calls.antt =====
-- The helpers of servidor.c that a request calls: `exit_error`, `send_result`, `send_info_to_rpc`, and
-- `readLine` with the test of its result.
use peer_to_peer_fileshare.Base.{ℕ, ◌∷◌, ◌++◌}
use peer_to_peer_fileshare.Base.Int.{pos}
use peer_to_peer_fileshare.CString.{Text, space}
use peer_to_peer_fileshare.ConnectFile.{print_int}
use peer_to_peer_fileshare.Request.Tree.{
  Field, Line, arrived, hung_up, broken_off, Program, whether, reads, writes, logs, closes,
  thread_exit, process_exit,
}

-- What the buffers hold before anything is read into them: the function sets none of them.
abbrev pub Stale : Type 0
Stale = Field → Text

-- `rpc_string` of `send_info_to_rpc`
abbrev pub rpc_string : Text → Text → Text → Text
rpc_string user op time = user ++ (space ∷ (op ++ (space ∷ time)))

module _ {S : Type 0} where
  -- `exit_error`, and the same calls where the function has them in line.
  abbrev pub exit_error : Program S
  exit_error = closes thread_exit

  -- `send_result`: where it cannot send, the whole server ends.
  abbrev pub send_result : ℕ → Program S → Program S
  send_result res k = writes (print_int (pos res)) (whether k (process_exit 0))

  abbrev pub refuse : ℕ → Program S
  refuse res = send_result res exit_error

  -- `send_info_to_rpc` with `print_rpc_servidor`: where no client can be made, the whole server ends.
  abbrev pub send_info_to_rpc : Text → Text → Text → Program S → Program S
  send_info_to_rpc user op time k = logs (rpc_string user op time) (whether k (process_exit 1))

  abbrev pub after_read : Text → Program S → (Text → Program S) → Line → Program S
  after_read old fail k (arrived x) = k x
  after_read old fail k hung_up = k old
  after_read old fail k broken_off = fail

  -- `if (readLine(sc, buffer, …) < 0) { … }`, with what the buffer held before.
  abbrev pub read_into : Field → Stale → Program S → (Text → Program S) → Program S
  read_into field old fail k = reads field (after_read (old field) fail k)
