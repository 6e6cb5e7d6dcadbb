-- ===== src/Comm/Receive.antt =====
-- comm.c: `recvMessage`, which nothing in the program calls yet.
use peer_to_peer_fileshare.Base.{
  ℕ, zero, suc, ◌-◌, ◌+◌, ◌≤◌, ◌<◌, ◌≡◌, refl, ◌∙◌, ap, ◌⊎◌, inl, inr, true, false, List, [], ◌∷◌,
  ◌++◌, length, length-append, length-take, take, drop, take_all, ltb, arith, if◌then◌else◌,
}
use peer_to_peer_fileshare.CString.{Text}

-- A call of `read` finds bytes that wait, and takes as many as it asks for; none wait at the end of the
-- input. Or it returns -1.
pub data Waiting : Type 0 where
  bytes : Text → Waiting
  fails : Waiting

-- How `recvMessage` ends: 0 or -1; or it still reads when the listed calls are over, with what it has.
pub data Message : Type 0 where
  whole : Text → List Waiting → Message
  lost : List Waiting → Message
  reading : Text → Message

abbrev pub after_piece : Text → Message → Message
after_piece x (whole y ws) = whole (x ++ y) ws
after_piece x (lost ws) = lost ws
after_piece x (reading y) = reading (x ++ y)

-- The loop of `recvMessage` with room for `l` bytes more.
unfoldable pub recv_message : List Waiting → ℕ → Message
recv_message [] l = reading []
recv_message (fails ∷ ws) l = lost ws
recv_message (bytes x ∷ ws) l =
    let rest = after_piece (take l x) (recv_message ws (l - length (take l x))) in
    if ltb 0 (l - length (take l x)) then rest else whole (take l x) (bytes (drop l x) ∷ ws)

-- What arrives piece by piece, without an error.
abbrev pub pieces : List Text → List Waiting
pieces [] = []
pieces (x ∷ xs) = bytes x ∷ pieces xs

abbrev pub all_bytes : List Text → Text
all_bytes [] = []
all_bytes (x ∷ xs) = x ++ all_bytes xs

take-append_short :
    (l : ℕ) (x y : Text) → length x ≤ l → take l (x ++ y) ≡ x ++ take (l - length x) y
take-append_short l [] y h = ap (λ n. take n y) less
  where
    less : l ≡ l - 0
    less = omega arith
take-append_short zero (c ∷ x) y h = absurd (omega arith)
take-append_short (suc l) (c ∷ x) y h =
    ap (λ z. c ∷ z) (take-append_short l x y (omega (arith, h)) ∙ ap (λ n. x ++ take n y) same)
  where
    same : l - length x ≡ suc l - suc (length x)
    same = omega arith

take-append_long : (l : ℕ) (x y : Text) → l ≤ length x → take l (x ++ y) ≡ take l x
take-append_long zero x y h = refl
take-append_long (suc l) [] y h = absurd (omega arith)
take-append_long (suc l) (c ∷ x) y h = ap (λ z. c ∷ z) (take-append_long l x y (omega (arith, h)))

more_room : (a l : ℕ) → a < l → ltb 0 (l - a) ≡ true
more_room a l h = ground arith

no_room : (a l : ℕ) → l ≤ a → ltb 0 (l - a) ≡ false
no_room a l h = ground arith

less_or_not : (a l : ℕ) → (a < l) ⊎ (l ≤ a)
less_or_not a l = ground arith

-- If calls of `read` that do not fail find fewer than `l` bytes, in pieces of any sizes, `recvMessage` has
-- read them all and not returned, however many of the calls were at the end of the input, where none wait.
pub recv_message-starves :
    (xs : List Text) (l : ℕ)
    → length (all_bytes xs) < l
    → recv_message (pieces xs) l ≡ reading (all_bytes xs)
unfolding recv_message
recv_message-starves [] l h = refl
recv_message-starves (x ∷ xs) l h =
    rw
      (
        take_all l x (omega (arith, sum, h)),
        more_room (length x) l (omega (arith, sum, h)),
        recv_message-starves xs (l - length x) (omega (arith, sum, h)),
      )
      refl
  where
    sum : length (x ++ all_bytes xs) ≡ length x + length (all_bytes xs)
    sum = length-append x (all_bytes xs)

-- If calls of `read` that do not fail find `l` bytes or more, in pieces of any sizes, `recvMessage`
-- returns 0 with the first `l` of them.
pub recv_message-whole :
    (xs : List Text) (l : ℕ)
    → 1 ≤ l
    → l ≤ length (all_bytes xs)
    → (left : List Waiting) × (recv_message (pieces xs) l ≡ whole (take l (all_bytes xs)) left)
unfolding recv_message
recv_message-whole [] l h g = absurd (omega (arith, h, g))
recv_message-whole (x ∷ xs) l h g = elim (less_or_not (length x) l) [
  | inl more ↦
      let (left, e) =
        recv_message-whole xs (l - length x) (omega (arith, more)) (omega (arith, more, g, sum)) in
      (
        left,
        rw
            (
              take_all l x (omega (arith, more)),
              more_room (length x) l more,
              e,
              take-append_short l x (all_bytes xs) (omega (arith, more)),
            )
            refl,
      )
  | inr full ↦ (
    bytes (drop l x) ∷ pieces xs,
    rw
        (
          no_room (length (take l x)) l (omega (arith, full, length-take l x)),
          take-append_long l x (all_bytes xs) full,
        )
        refl,
  )
]
  where
    sum : length (x ++ all_bytes xs) ≡ length x + length (all_bytes xs)
    sum = length-append x (all_bytes xs)
