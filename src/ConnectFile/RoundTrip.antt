-- ===== src/ConnectFile/RoundTrip.antt =====
-- Reading the text of a `connect` file after printing it.
use peer_to_peer_fileshare.Base.{
  ℕ, zero, suc, ◌+◌, ◌*◌, ◌-◌, ◌/◌, ◌%◌, ◌<◌, ◌≡◌, ◌≢◌, refl, ◌∙◌, ap, true, false, Option, none,
  some, [], ◌∷◌, ◌++◌, append_assoc, arith, ltb, ◌==◌, nat_eq, All, Bool-cases, inl, inr,
}
use peer_to_peer_fileshare.Base.Int.{ℤ, pos, negsuc, neg}
use peer_to_peer_fileshare.CString.{Text, newline}
use peer_to_peer_fileshare.ConnectFile.Decimal.{decimal_fuel, print_int}
use peer_to_peer_fileshare.ConnectFile.Scan.{
  is_space, is_digit, skip_space, word, scan_word, scan_digits, scan_int, paired, with_port,
  scan_connection,
}

scan_digits-digit :
    (k d : ℕ) (s : Text) → d < 10 → scan_digits k ((b'0' + d) ∷ s) ≡ scan_digits (k * 10 + d) s
unfolding scan_digits
scan_digits-digit k d s h =
    let digit : is_digit (b'0' + d) ≡ true = ground arith in
    let value : k * 10 + (b'0' + d - b'0') ≡ k * 10 + d = omega arith in
    rw digit (ap (λ x. scan_digits x s) value)

-- Digits are read back, whatever follows them.
scan_digits-decimal_fuel :
    (f n : ℕ) (rest : Text) → n < f → scan_digits 0 (decimal_fuel f n ++ rest) ≡ scan_digits n rest
unfolding decimal_fuel
scan_digits-decimal_fuel zero n rest h = absurd (omega arith)
scan_digits-decimal_fuel (suc f) n rest h = elim (Bool-cases (ltb n 10)) [
  | inl small ↦
      let value : 0 * 10 + n ≡ n = omega arith in
      rw small (scan_digits-digit 0 n rest (ground arith) ∙ ap (λ x. scan_digits x rest) value)
  | inr big ↦
      let value : n / 10 * 10 + n % 10 ≡ n = omega arith in
      rw big (
        ap (scan_digits 0) (append_assoc (decimal_fuel f (n / 10)) ((b'0' + n % 10) ∷ []) rest)
        ∙ scan_digits-decimal_fuel f (n / 10) ((b'0' + n % 10) ∷ rest) (ground arith)
        ∙ scan_digits-digit (n / 10) (n % 10) rest (omega arith)
        ∙ ap (λ x. scan_digits x rest) value)
]

abbrev StartsWithDigit : Text → Type 0
StartsWithDigit x = (c : ℕ) × (s : Text) × (x ≡ c ∷ s) × (is_digit c ≡ true)

decimal_fuel-StartsWithDigit :
    (f n : ℕ) (rest : Text) → n < f → StartsWithDigit (decimal_fuel f n ++ rest)
unfolding decimal_fuel
decimal_fuel-StartsWithDigit zero n rest h = absurd (omega arith)
decimal_fuel-StartsWithDigit (suc f) n rest h = elim (Bool-cases (ltb n 10)) [
  | inl small ↦ rw small (b'0' + n, rest, refl, ground arith)
  | inr big ↦
      rw (big, append_assoc)
        (decimal_fuel-StartsWithDigit f (n / 10) ((b'0' + n % 10) ∷ rest) (ground arith))
]

-- `%d` on digits, and on a minus sign and digits, after a new line.
scan_int-pos :
    (n : ℕ) (x : Text)
    → StartsWithDigit x
    → scan_digits 0 x ≡ n
    → scan_int (newline ∷ x) ≡ some (pos n)
unfolding scan_int
scan_int-pos n [] (c, s, e, digit) h = cc
scan_int-pos n (d ∷ x) (c, s, e, digit) h =
    let is_digit_d : is_digit d ≡ true = ground arith in
    let no_space : is_space d ≡ false = ground arith in
    let no_minus : (d == b'-') ≡ false = ground arith in
    let no_plus : (d == b'+') ≡ false = ground arith in
    rw (no_space, no_minus, no_plus, is_digit_d) (ap (λ k. some (pos k)) (rw is_digit_d at h))

scan_int-neg :
    (n : ℕ) (x : Text)
    → StartsWithDigit x
    → scan_digits 0 x ≡ n
    → scan_int (newline ∷ b'-' ∷ x) ≡ some (neg n)
unfolding scan_int
scan_int-neg n [] (c, s, e, digit) h = cc
scan_int-neg n (d ∷ x) (c, s, e, digit) h =
    let is_digit_d : is_digit d ≡ true = ground arith in
    rw (is_digit_d) (ap (λ k. some (neg k)) (rw is_digit_d at h))

scan_digits-newline : (n : ℕ) (rest : Text) → scan_digits n (newline ∷ rest) ≡ n
unfolding scan_digits
scan_digits-newline n rest = refl

print_int_pos : (n : ℕ) → print_int (pos n) ≡ decimal_fuel (suc n) n
unfolding print_int
print_int_pos n = refl

print_int_negsuc : (n : ℕ) → print_int (negsuc n) ≡ b'-' ∷ decimal_fuel (suc (suc n)) (suc n)
unfolding print_int
print_int_negsuc n = refl

-- `%d` reads what `%d` printed on a line of its own.
scan_int-print_int :
    (port : ℤ) (rest : Text) → scan_int (newline ∷ (print_int port ++ newline ∷ rest)) ≡ some port
scan_int-print_int (pos n) rest = rw (print_int_pos n) (
    scan_int-pos n _ (decimal_fuel-StartsWithDigit (suc n) n (newline ∷ rest) (omega arith)) (
      scan_digits-decimal_fuel (suc n) n (newline ∷ rest) (omega arith)
      ∙ scan_digits-newline n rest))
scan_int-print_int (negsuc n) rest = rw (print_int_negsuc n) (
    scan_int-neg (suc n) _
      (decimal_fuel-StartsWithDigit (suc (suc n)) (suc n) (newline ∷ rest) (omega arith))
      (scan_digits-decimal_fuel (suc (suc n)) (suc n) (newline ∷ rest) (omega arith)
        ∙ scan_digits-newline (suc n) rest))

-- An address: not empty, and without white space.
pub record IsWord (a : Text) : Type 0 where
  pub nonempty : a ≢ []
  pub no_space : All (λ c. is_space c ≡ false) a

word-append :
    (a rest : Text)
    → All (λ c. is_space c ≡ false) a
    → word (a ++ newline ∷ rest) ≡ (a, newline ∷ rest)
unfolding word
word-append [] rest h = refl
word-append (c ∷ a) rest (h, hs) = rw (h, word-append a rest hs)

skip_space_word : (c : ℕ) (s : Text) → is_space c ≡ false → skip_space (c ∷ s) ≡ c ∷ s
unfolding skip_space
skip_space_word c s h = rw h

scanned :
    (x a rest : Text) (port : ℤ)
    → scan_word x ≡ some (a, rest)
    → scan_int rest ≡ some port
    → scan_connection x ≡ some (a, port)
unfolding scan_connection
scanned x a rest port e k = ap with_port e ∙ ap (paired a) k

scan_word-append :
    (a rest : Text) → IsWord a → scan_word (a ++ newline ∷ rest) ≡ some (a, newline ∷ rest)
unfolding scan_word
scan_word-append [] rest h = absurd (h.nonempty refl)
scan_word-append (c ∷ a) rest h =
    ap
      (λ (x : Text × Text). elim x.0 as (λ _. Option (Text × Text)) [
        | [] ↦ none
        | d ∷ w ↦ some (d ∷ w, x.1)
      ])
      (ap word (skip_space_word c (a ++ newline ∷ rest) h.no_space.0)
        ∙ word-append (c ∷ a) rest h.no_space)

-- The two lines of a `connect` file are read back, whatever the port, if the address is a word.
pub scan_connection-print :
    (a : Text) (port : ℤ) (rest : Text)
    → IsWord a
    → scan_connection (a ++ newline ∷ (print_int port ++ newline ∷ rest)) ≡ some (a, port)
scan_connection-print a port rest h =
    scanned _ a _ port (scan_word-append a (print_int port ++ newline ∷ rest) h)
      (scan_int-print_int port rest)
