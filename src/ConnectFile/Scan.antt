-- ===== src/ConnectFile/Scan.antt =====
-- `fscanf` as the handlers use it, and the conversions `%s` and `%d` of it.
use peer_to_peer_fileshare.Base.{
  ℕ, ◌+◌, ◌*◌, ◌-◌, Bool, false, ◌&&◌, ◌||◌, Option, none, some, [], ◌∷◌, leb, ◌==◌, nat_eq,
  if◌then◌else◌,
}
use peer_to_peer_fileshare.Base.Int.{ℤ, pos, neg}
use peer_to_peer_fileshare.CString.{Text}

-- `isspace`
abbrev pub is_space : ℕ → Bool
is_space c = (c == 32) || (leb 9 c && leb c 13)

abbrev pub is_digit : ℕ → Bool
is_digit c = leb b'0' c && leb c b'9'

-- White space in a format reads any white space.
unfoldable pub skip_space : Text → Text
skip_space [] = []
skip_space (c ∷ s) = let rest = skip_space s in if is_space c then rest else c ∷ s

-- The bytes up to white space, and what follows.
unfoldable pub word : Text → Text × Text
word [] = ([], [])
word (c ∷ s) = let (w, rest) = word s in if is_space c then ([], c ∷ s) else (c ∷ w, rest)

-- `%s`: at least one byte.
unfoldable pub scan_word : Text → Option (Text × Text)
unfolding skip_space word
scan_word s =
    let (w, rest) = word (skip_space s) in elim w [ [] ↦ none | c ∷ w' ↦ some (c ∷ w', rest) ]

-- Digits onto a value read so far.
unfoldable pub scan_digits : ℕ → Text → ℕ
scan_digits n [] = n
scan_digits n (c ∷ s) =
    let more = scan_digits (n * 10 + (c - b'0')) s in if is_digit c then more else n

abbrev pub starts_digit : Text → Bool
starts_digit [] = false
starts_digit (c ∷ s) = is_digit c

abbrev pub scan_nat : Text → Option ℕ
scan_nat s = if starts_digit s then some (scan_digits 0 s) else none

abbrev pub as_int : (ℕ → ℤ) → Option ℕ → Option ℤ
as_int f none = none
as_int f (some n) = some (f n)

abbrev pub scan_signed : Text → Option ℤ
scan_signed [] = none
scan_signed (c ∷ s) =
    if c == b'-'
    then as_int neg (scan_nat s)
    else if c == b'+'
    then as_int pos (scan_nat s)
    else as_int pos (scan_nat (c ∷ s))

-- `%d`, whose value for a number past the range of `int` the C standard leaves open.
unfoldable pub scan_int : Text → Option ℤ
unfolding skip_space scan_digits
scan_int s = scan_signed (skip_space s)

abbrev pub paired : Text → Option ℤ → Option (Text × ℤ)
paired address none = none
paired address (some port) = some (address, port)

unfoldable pub with_port : Option (Text × Text) → Option (Text × ℤ)
unfolding scan_int
with_port none = none
with_port (some (address, rest)) = paired address (scan_int rest)

-- `fscanf(file, "%s\n%d\n", …)`: the two values if its result is 2.
unfoldable pub scan_connection : Text → Option (Text × ℤ)
unfolding scan_word with_port
scan_connection s = with_port (scan_word s)
