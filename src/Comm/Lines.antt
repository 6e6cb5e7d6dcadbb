-- ===== src/Comm/Lines.antt =====
-- What `readLine` reads: of a line that `writeLine` wrote, with reads that signals interrupt, and of
-- any input.
use peer_to_peer_fileshare.Base.{
  ℕ, zero, suc, ◌-◌, ◌≤◌, ◌<◌, ◌≡◌, refl, sym, ◌∙◌, ap, Bool-cases, inl, inr, false, List, [], ◌∷◌,
  ◌++◌, map, subst, length, length-append, take, take_all, take-append, append_assoc, append-nil,
  arith, ltb, nat_eq, All, if◌then◌else◌,
}
use mathlib.Core.List.{map-append}
use peer_to_peer_fileshare.CString.{Text}
use peer_to_peer_fileshare.Comm.Defs.{
  WriteResult, delivered, write_line, ReadResult, got, eof, interrupted, read_failed, Received,
  closed, failed, received, is_end, read_loop, read_line,
}
use peer_to_peer_fileshare.Comm.Delivery.{send_message-IsFaithful, IsFaithful}

-- A text that a line can carry: without the bytes that end one.
abbrev pub IsLine : Text → Type 0
IsLine s = All (λ c. is_end c ≡ false) s

kept :
    (n : ℕ) (line : Text) (c : ℕ) (s : Text)
    → length line ≤ n
    → take n ((if ltb (length line) n then line ++ c ∷ [] else line) ++ s) ≡ take n (line ++ c ∷ s)
kept n line c s h = elim (Bool-cases (ltb (length line) n)) [
  | inl room ↦ rw room (ap (take n) (append_assoc line (c ∷ []) s))
  | inr full ↦
      let enough : n ≤ length line = ground arith in
      rw full (take-append n line s enough ∙ sym (take-append n line (c ∷ s) enough))
]

room_kept :
    (n : ℕ) (line : Text) (c : ℕ)
    → length line ≤ n
    → length (if ltb (length line) n then line ++ c ∷ [] else line) ≤ n
room_kept n line c h = ground (arith, length-append line (c ∷ []))

read_loop-line :
    (n : ℕ) (s line : Text) (rest : List ReadResult)
    → length line ≤ n - 1
    → IsLine s
    → read_loop n line (map got s ++ got 0 ∷ rest) ≡ received (take (n - 1) (line ++ s)) rest
unfolding read_loop
read_loop-line n [] line rest h k =
    ap (λ x. received x rest) (sym (ap (take (n - 1)) (append-nil line) ∙ take_all (n - 1) line h))
read_loop-line n (c ∷ s) line rest h (k, ks) = rw k (
    read_loop-line n s _ rest (room_kept (n - 1) line c h) ks
    ∙ ap (λ x. received x rest) (kept (n - 1) line c s h))

pub read_line-got :
    (n : ℕ) (s : Text) (rest : List ReadResult)
    → 0 < n
    → IsLine s
    → read_line n (map got s ++ got 0 ∷ rest) ≡ received (take (n - 1) s) rest
unfolding read_line
read_line-got zero s rest h k = elim h [ ]
read_line-got (suc n) s rest h k = read_loop-line (suc n) s [] rest (omega arith) k

write_line-whole :
    (ws left : List WriteResult) (s sent : Text)
    → write_line ws s ≡ delivered sent left
    → sent ≡ s ++ 0 ∷ []
unfolding write_line
write_line-whole ws left s sent e =
    subst (IsFaithful (s ++ 0 ∷ [])) e (send_message-IsFaithful ws (s ++ 0 ∷ []))

-- What `writeLine` delivered is read by `readLine` as the string that was sent, cut to the room in
-- the buffer, and nothing of what follows is read; if the string has no line end in it and the
-- buffer has at least one byte.
pub read_line-write_line :
    (ws left : List WriteResult) (n : ℕ) (s sent : Text) (rest : List ReadResult)
    → 0 < n
    → IsLine s
    → write_line ws s ≡ delivered sent left
    → read_line n (map got sent ++ rest) ≡ received (take (n - 1) s) rest
read_line-write_line ws left n s sent rest h k e =
    ap (λ x. read_line n (map got x ++ rest)) (write_line-whole ws left s sent e)
    ∙ ap (read_line n) (
        ap (λ x. x ++ rest) (map-append got s (0 ∷ []))
        ∙ append_assoc (map got s) (got 0 ∷ []) rest)
    ∙ read_line-got n s rest h k

-- The results without the reads that a signal interrupted.
pub uninterrupted : List ReadResult → List ReadResult
uninterrupted [] = []
uninterrupted (interrupted ∷ rs) = uninterrupted rs
uninterrupted (got c ∷ rs) = got c ∷ uninterrupted rs
uninterrupted (eof ∷ rs) = eof ∷ uninterrupted rs
uninterrupted (read_failed ∷ rs) = read_failed ∷ uninterrupted rs

abbrev pub on_rest : (List ReadResult → List ReadResult) → Received → Received
on_rest f (closed rs) = closed (f rs)
on_rest f (failed rs) = failed (f rs)
on_rest f (received x rs) = received x (f rs)

read_loop-uninterrupted :
    (n : ℕ) (line : Text) (rs : List ReadResult)
    → read_loop n line (uninterrupted rs) ≡ on_rest uninterrupted (read_loop n line rs)
unfolding read_loop uninterrupted
read_loop-uninterrupted n line [] = ground arith
read_loop-uninterrupted n line (interrupted ∷ rs) = read_loop-uninterrupted n line rs
read_loop-uninterrupted n line (read_failed ∷ rs) = refl
read_loop-uninterrupted n line (eof ∷ rs) = ground arith
read_loop-uninterrupted n line (got c ∷ rs) = ground (
  arith,
  read_loop-uninterrupted n (if ltb (length line) (n - 1) then line ++ c ∷ [] else line) rs,
)

-- Interrupted calls of `read` change nothing: with them or without, `readLine` ends in the same way,
-- with the same string.
pub read_line-uninterrupted :
    (n : ℕ) (rs : List ReadResult)
    → read_line n (uninterrupted rs) ≡ on_rest uninterrupted (read_line n rs)
unfolding read_line
read_line-uninterrupted zero rs = refl
read_line-uninterrupted (suc n) rs = read_loop-uninterrupted (suc n) [] rs

received-text : (x y : Text) (rs left : List ReadResult) → received x rs ≡ received y left → x ≡ y
received-text x y rs left e = cc

read_loop-bound :
    (n : ℕ) (rs : List ReadResult) (line x : Text) (left : List ReadResult)
    → length line ≤ n - 1
    → read_loop n line rs ≡ received x left
    → length x ≤ n - 1
unfolding read_loop
read_loop-bound n [] line x left h e = ground arith
read_loop-bound n (interrupted ∷ rs) line x left h e = read_loop-bound n rs line x left h e
read_loop-bound n (read_failed ∷ rs) line x left h e = cc
read_loop-bound n (eof ∷ rs) line x left h e = ground arith
read_loop-bound n (got c ∷ rs) line x left h e = elim (Bool-cases (is_end c)) [
  | inl stop ↦ subst (λ y. length y ≤ n - 1) (received-text line x rs left (rw stop at e)) h
  | inr go ↦ read_loop-bound n rs _ x left (room_kept (n - 1) line c h) (rw go at e)
]

-- Whatever is sent, the string that `readLine` leaves fits the buffer with its NUL.
pub read_line-bound :
    (n : ℕ) (x : Text) (rs left : List ReadResult) → read_line n rs ≡ received x left → length x < n
unfolding read_line
read_line-bound zero x rs left e = cc
read_line-bound (suc n) x rs left e =
    omega (arith, read_loop-bound (suc n) rs [] x left (omega arith) e)
