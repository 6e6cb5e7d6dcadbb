-- ===== src/Posix/Memory/Walk.antt =====
-- How a path is read: names between slashes, without empty ones and `.`, and `..` steps back.
use peer_to_peer_fileshare.Base.{
  ◌≡◌, refl, false, [], ◌∷◌, ◌++◌, append_assoc, append-nil, ◌∙◌, arith, ◌==◌, ==_iff, nat_eq,
  list_eq, if◌then◌else◌,
}
use peer_to_peer_fileshare.CString.{Text, codes, slash}
use peer_to_peer_fileshare.Posix.Defs.{Place, IsName, has_byte}

abbrev parent : Place → Place
parent [] = []
parent (n ∷ p) = p

abbrev enter : Place → Text → Place
enter at n =
    if n == []
    then at
    else if n == codes "."
    then at
    else if n == codes ".."
    then parent at
    else n ∷ at

unfoldable pub walk : Place → Text → Text → Place
walk at name [] = enter at name
walk at name (b ∷ s) =
    let deeper = walk (enter at name) [] s in
    let longer = walk at (name ++ b ∷ []) s in if b == slash then deeper else longer

walk-append :
    (at : Place) (name p s : Text) → walk at name (p ++ slash ∷ s) ≡ walk (walk at name p) [] s
unfolding walk
walk-append at name [] s = refl
walk-append at name (b ∷ p) s =
    ground (arith, walk-append (enter at name) [] p s, walk-append at (name ++ b ∷ []) p s)

walk-name :
    (at : Place) (name n : Text) → has_byte slash n ≡ false → walk at name n ≡ enter at (name ++ n)
unfolding walk
walk-name at name [] h = rw append-nil
walk-name at name (b ∷ n) h =
    let joined = append_assoc name (b ∷ []) n in
    ground (arith, walk-name at (name ++ b ∷ []) n, joined)

pub walk-child :
    (at : Place) (name p n : Text) → IsName n → walk at name (p ++ slash ∷ n) ≡ n ∷ walk at name p
walk-child at name p n h =
    walk-append at name p n
    ∙ walk-name (walk at name p) [] n h.no_slash
    ∙ ground (
      arith,
      h.nonempty,
      h.no_dot,
      h.no_dot_dot,
      ==_iff n [],
      ==_iff n (codes "."),
      ==_iff n (codes ".."),
    )

pub walk-slash : (at : Place) (name p : Text) → walk at name (p ++ slash ∷ []) ≡ walk at name p
unfolding walk
walk-slash at name p = walk-append at name p []

pub walk-IsName : (at : Place) (n : Text) → IsName n → walk at [] n ≡ n ∷ at
walk-IsName at n h =
    walk-name at [] n h.no_slash
    ∙ ground (
      arith,
      h.nonempty,
      h.no_dot,
      h.no_dot_dot,
      ==_iff n [],
      ==_iff n (codes "."),
      ==_iff n (codes ".."),
    )
