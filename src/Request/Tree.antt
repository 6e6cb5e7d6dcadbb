-- ===== src/Request/Tree.antt =====
-- Threads as trees of calls.
use peer_to_peer_fileshare.Base.{ℕ, Bool, true, false, Option}
use peer_to_peer_fileshare.CString.{Text, buffer_size}

-- The buffers of `tratar_peticion` that `readLine` fills.
pub data Field : Type 0 where
  operation c_time_string username file_name owner port_str description : Field

-- The sizes that `readLine` is called with.
abbrev pub size_of : Field → ℕ
size_of operation = buffer_size
size_of c_time_string = 100
size_of username = buffer_size
size_of file_name = buffer_size
size_of owner = buffer_size
size_of port_str = buffer_size
size_of description = buffer_size

-- How a call of `readLine` ends: with a string in the buffer; with 0 at the end of the input and the
-- buffer as it was; or with -1.
pub data Line : Type 0 where
  arrived : Text → Line
  hung_up : Line
  broken_off : Line

-- A thread over the states `S` of the file system. The Boolean after `writes` says that `writeLine` did
-- not fail, that after `logs` that `clnt_create` made a client. `touches` is a run of calls on the
-- file system: it changes the state, and what follows depends on the state before. `out_of_fuel`
-- is no call: the model's fuel was too small.
pub data Program (S : Type 0) : Type 0 where
  reads : Field → (Line → Program S) → Program S
  writes : Text → (Bool → Program S) → Program S
  logs : Text → (Bool → Program S) → Program S
  asks_peer : (Option Text → Program S) → Program S
  locks : Program S → Program S
  unlocks : Program S → Program S
  touches : (S → S) → (S → Program S) → Program S
  closes : Program S → Program S
  thread_exit : Program S
  process_exit : ℕ → Program S
  out_of_fuel : Program S

-- What follows a test.
abbrev pub whether : {S : Type 0} → Program S → Program S → Bool → Program S
whether p q true = p
whether p q false = q

-- A call on the file system with a result.
abbrev pub call : {S A : Type 0} → (S → A × S) → (A → Program S) → Program S
call f k = touches (λ s. (f s).1) (λ s. k (f s).0)
