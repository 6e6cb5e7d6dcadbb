-- ===== src/Request/FileLines.antt =====
-- The loops over `fgets` of `tratar_peticion`.
use peer_to_peer_fileshare.Base.{
  ℕ, zero, suc, ◌≤◌, ◌-◌, ◌≡◌, refl, ap, ◌∙◌, List, [], ◌∷◌, ◌++◌, nat_eq, length, drop, All, arith,
}
use peer_to_peer_fileshare.CString.{Text}
use peer_to_peer_fileshare.Handle.Listing.{first_line, fgets}
use peer_to_peer_fileshare.Request.{get_lines, file_lines}

first_line-drop : (n : ℕ) (s : Text) → first_line n s ++ drop (length (first_line n s)) s ≡ s
unfolding first_line
first_line-drop zero s = refl
first_line-drop (suc n) [] = refl
first_line-drop (suc n) (c ∷ s) = ground (arith, first_line-drop n s)

length-first_line : (n : ℕ) (s : Text) → length (first_line n s) ≤ n
unfolding first_line
length-first_line zero s = omega arith
length-first_line (suc n) [] = omega arith
length-first_line (suc n) (c ∷ s) = ground (arith, length-first_line n s)

first_line-length : (n c : ℕ) (s : Text) → 1 ≤ length (first_line (suc n) (c ∷ s))
unfolding first_line
first_line-length n c s = ground arith

length-drop : (n : ℕ) (s : Text) → length (drop n s) ≡ length s - n
length-drop zero s = omega arith
length-drop (suc n) [] = omega arith
length-drop (suc n) (c ∷ s) = omega (arith, length-drop n s)

abbrev pub joined : List Text → Text
joined [] = []
joined (l ∷ ls) = l ++ joined ls

-- A string that fits the buffer, and is not empty.
abbrev pub FitsLine : Text → Type 0
FitsLine l = (1 ≤ length l) × (length l ≤ 255)

get_lines-joined : (fuel : ℕ) (x : Text) → length x ≤ fuel → joined (get_lines fuel x) ≡ x
unfolding get_lines fgets
get_lines-joined zero [] h = refl
get_lines-joined zero (c ∷ x) h = absurd (omega arith)
get_lines-joined (suc fuel) [] h = refl
get_lines-joined (suc fuel) (c ∷ x) h =
    let l = first_line 255 (c ∷ x) in
    ap (λ y. l ++ y)
      (get_lines-joined fuel (drop (length l) (c ∷ x))
        (omega (arith, length-drop (length l) (c ∷ x), first_line-length 254 c x)))
    ∙ first_line-drop 255 (c ∷ x)

get_lines-FitsLine : (fuel : ℕ) (x : Text) → All FitsLine (get_lines fuel x)
unfolding get_lines fgets
get_lines-FitsLine zero x = tt
get_lines-FitsLine (suc fuel) [] = tt
get_lines-FitsLine (suc fuel) (c ∷ x) = (
  (first_line-length 254 c x, length-first_line 255 (c ∷ x)),
  get_lines-FitsLine fuel (drop (length (first_line 255 (c ∷ x))) (c ∷ x)),
)

-- The loop over `fgets` ends with the file: the lines that it reads, joined, are the whole file, and
-- each of them has a byte and fits the buffer with its NUL.
pub file_lines-joined : (x : Text) → (joined (file_lines x) ≡ x) × All FitsLine (file_lines x)
unfolding file_lines
file_lines-joined x = (get_lines-joined (length x) x (omega arith), get_lines-FitsLine (length x) x)
