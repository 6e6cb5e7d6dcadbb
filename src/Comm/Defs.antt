-- ===== src/Comm/Defs.antt =====
-- `sendMessage`, `writeLine` and `readLine`, over the results of the system's calls.
use peer_to_peer_fileshare.Base.{
  ℕ, zero, suc, ◌-◌, Bool, ◌||◌, List, [], ◌∷◌, ◌++◌, length, take, drop, ltb, ◌==◌, nat_eq,
  if◌then◌else◌,
}
use peer_to_peer_fileshare.CString.{Text, newline}

-- A call of `write` takes a number of bytes, of those that it is offered at most, or returns -1.
pub data WriteResult : Type 0 where
  wrote : ℕ → WriteResult
  write_failed : WriteResult

-- How `sendMessage` ends: 0 or -1, with the bytes that the socket took and the results that are left.
pub data Sent : Type 0 where
  delivered : Text → List WriteResult → Sent
  broken : Text → List WriteResult → Sent

abbrev pub after_bytes : Text → Sent → Sent
after_bytes x (delivered y ws) = delivered (x ++ y) ws
after_bytes x (broken y ws) = broken (x ++ y) ws

-- The loop of `sendMessage` on the bytes that are left, `l` in number. Where the listed results end,
-- the next call takes all that it is offered.
unfoldable pub send_message : List WriteResult → Text → Sent
send_message [] buffer = delivered buffer []
send_message (write_failed ∷ ws) buffer = broken [] ws
send_message (wrote r ∷ ws) buffer =
    let rest = after_bytes (take r buffer) (send_message ws (drop r buffer)) in
    if ltb 0 (length buffer - r) then rest else delivered buffer ws

-- `writeLine`: the string and the NUL that ends it.
unfoldable pub write_line : List WriteResult → Text → Sent
unfolding send_message
write_line ws buffer = send_message ws (buffer ++ 0 ∷ [])

-- A call of `read` for one byte: it gets one, or finds the end, or returns -1, with EINTR or another
-- error.
pub data ReadResult : Type 0 where
  got : ℕ → ReadResult
  eof interrupted read_failed : ReadResult

-- How `readLine` ends: it returns 0 at the end of the input with nothing read, and leaves the buffer as
-- it was; or -1; or the length of the string that it put into the buffer.
pub data Received : Type 0 where
  closed : List ReadResult → Received
  failed : List ReadResult → Received
  received : Text → List ReadResult → Received

-- The string and what is left to read.
abbrev pub is_end : ℕ → Bool
is_end ch = (ch == newline) || (ch == 0)

-- The loop of `readLine`, where `line` is what the buffer holds. Where the listed results end the
-- input is at its end.
unfoldable pub read_loop : ℕ → Text → List ReadResult → Received
read_loop n line [] = if length line == 0 then closed [] else received line []
read_loop n line (read_failed ∷ rs) = failed rs
read_loop n line (eof ∷ rs) = if length line == 0 then closed rs else received line rs
read_loop n line (interrupted ∷ rs) = read_loop n line rs
read_loop n line (got ch ∷ rs) =
    let rest = read_loop n (if ltb (length line) (n - 1) then line ++ ch ∷ [] else line) rs in
    if is_end ch then received line rs else rest

-- `readLine` with a buffer of `n` bytes; `n` is not 0.
unfoldable pub read_line : ℕ → List ReadResult → Received
unfolding read_loop
read_line zero rs = failed rs
read_line (suc n) rs = read_loop (suc n) [] rs
