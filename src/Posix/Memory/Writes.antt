-- ===== src/Posix/Memory/Writes.antt =====
-- Trees as lists of the last writes, the newest first. What is present stands in a directory.
use peer_to_peer_fileshare.Base.{
  ◌≡◌, ◌↔◌, refl, Bool, true, false, ◌&&◌, not, Option, none, some, List, [], ◌∷◌, arith, ◌==◌,
  ==_iff, nat_eq, list_eq, if◌then◌else◌, leb, length, Bool-cases, ◌⊎◌, inl, inr, ap, sym,
}
use mathlib.Core.Option.{some-injective}
use peer_to_peer_fileshare.CString.{Text, codes, slash}
use peer_to_peer_fileshare.Posix.Defs.{
  Place, Node, absent, dir, is_present, is_dir, update, IsName, has_byte, Dirent, entry_type,
  lists_name, AreEntries,
}

abbrev pub Writes : Type 0
Writes = List (Place × Node)

abbrev pub look : Writes → Place → Node
look [] [] = dir
look [] (n ∷ p) = absent
look ((q, v) ∷ l) p = if p == q then v else look l p

pub record Tree : Type 0 where
  pub writes : Writes
  pub root : look writes [] ≡ dir
  pub stands :
      (n : Text) (p : Place)
      → is_present (look writes (n ∷ p)) ≡ true
      → (look writes p ≡ dir) × IsName n

unfoldable pub node : Tree → Place → Node
node s p = look s.writes p

unfoldable pub empty_tree : Tree
empty_tree = record { writes = []; root = refl; stands = λ n p h. cc }

-- The entries of `p`, each named once.
unfoldable pub children : Tree → Place → Writes → List Dirent
children s p [] = []
children s p (([], v) ∷ l) = children s p l
children s p ((n ∷ q, v) ∷ l) =
    let rest = children s p l in
    if (q == p) && is_present (node s (n ∷ p)) && not (lists_name n rest)
    then record { d_name = n; d_type = entry_type (node s (n ∷ p)) } ∷ rest
    else rest

unfoldable pub entries : Tree → Place → List Dirent
unfolding children
entries s p = children s p s.writes

children-AreEntries : (s : Tree) (p : Place) (l : Writes) → AreEntries (node s) p (children s p l)
unfolding children node
children-AreEntries s p [] = tt
children-AreEntries s p (([], v) ∷ l) = children-AreEntries s p l
children-AreEntries s p ((n ∷ q, v) ∷ l) = ground (arith, children-AreEntries s p l, s.stands n p)

children_complete :
    (s : Tree) (p : Place) (n : Text) (l : Writes)
    → is_present (node s (n ∷ p)) ≡ true
    → is_present (look l (n ∷ p)) ≡ true
    → lists_name n (children s p l) ≡ true
unfolding children
children_complete s p n [] h k = cc
children_complete s p n (([], v) ∷ l) h k = children_complete s p n l h k
children_complete s p n ((m ∷ q, v) ∷ l) h k =
    ground (arith, children_complete s p n l h, ==_iff n m, ==_iff m n, ==_iff p q, ==_iff q p)

children_sound :
    (s : Tree) (p : Place) (n : Text) (l : Writes)
    → lists_name n (children s p l) ≡ true
    → is_present (node s (n ∷ p)) ≡ true
unfolding children
children_sound s p n [] h = cc
children_sound s p n (([], v) ∷ l) h = children_sound s p n l h
children_sound s p n ((m ∷ q, v) ∷ l) h = ground (arith, children_sound s p n l, ==_iff m n)

-- What is no name is not listed.
pub entries_names :
    (s : Tree) (p : Place) (n : Text) → ¬ IsName n → lists_name n (entries s p) ≡ false
unfolding entries node
entries_names s p n h = ground (arith, children_sound s p n s.writes, s.stands n p)

pub entries_complete :
    (s : Tree) (p : Place) (n : Text)
    → is_present (node s (n ∷ p)) ≡ true
    → lists_name n (entries s p) ≡ true
unfolding entries node
entries_complete s p n h = children_complete s p n s.writes h h

pub entries-AreEntries : (s : Tree) (p : Place) → AreEntries (node s) p (entries s p)
unfolding entries
entries-AreEntries s p = children-AreEntries s p s.writes

abbrev pub is_nil : List Dirent → Bool
is_nil [] = true
is_nil (e ∷ es) = false

no_entries :
    (s : Tree) (p : Place) (n : Text) → is_nil (entries s p) ≡ true → node s (n ∷ p) ≡ absent
no_entries s p n h = ground (arith, entries_complete s p n)

nil_children :
    (s : Tree) (p : Place) (l : Writes)
    → ((m : Text) → look s.writes (m ∷ p) ≡ absent)
    → is_nil (children s p l) ≡ true
unfolding children node
nil_children s p [] h = refl
nil_children s p (([], v) ∷ l) h = nil_children s p l h
nil_children s p ((n ∷ q, v) ∷ l) h = ground (arith, nil_children s p l h, h n)

nil_entries :
    (s : Tree) (p : Place)
    → ((m : Text) → look s.writes (m ∷ p) ≡ absent)
    → is_nil (entries s p) ≡ true
nil_entries s p h = unfold entries in nil_children s p s.writes h

pub put_stands :
    (s : Tree) (n : Text) (q : Place) (v : Node)
    → IsName n
    → look s.writes q ≡ dir
    → ((m : Text) → look s.writes (m ∷ n ∷ q) ≡ absent)
    → (m : Text) (p : Place) → is_present (look ((n ∷ q, v) ∷ s.writes) (m ∷ p)) ≡ true
    → (look ((n ∷ q, v) ∷ s.writes) p ≡ dir) × IsName m
put_stands s n q v name base bare m p h = ground (
  arith,
  s.stands m p,
  bare m,
  bare n,
  ==_iff m n,
  ==_iff p q,
  ==_iff p (n ∷ q),
  ==_iff q (n ∷ q),
)

abbrev pub is_name : Text → Bool
is_name n =
    not (n == [])
    && not (has_byte slash n)
    && leb (length n) 255
    && not (n == codes ".")
    && not (n == codes "..")

is_name_iff : (n : Text) → (is_name n ≡ true) ↔ IsName n
is_name_iff n = (
  λ h. record {
    nonempty = ground (arith, ==_iff n []);
    no_slash = ground arith;
    name_max = ground arith;
    no_dot = ground (arith, ==_iff n (codes "."));
    no_dot_dot = ground (arith, ==_iff n (codes ".."));
  },
  λ h. ground (
    arith,
    h.nonempty,
    h.no_slash,
    h.name_max,
    h.no_dot,
    h.no_dot_dot,
    ==_iff n [],
    ==_iff n (codes "."),
    ==_iff n (codes ".."),
  ),
)

-- A write is sound where the name is one, it stands in a directory, and nothing stands under it.
unfoldable pub can_put : Tree → Text → Place → Bool
unfolding node entries
can_put s n q = is_name n && is_dir (look s.writes q) && is_nil (entries s (n ∷ q))

pub can_put_iff :
    (s : Tree) (n : Text) (q : Place)
    → (can_put s n q ≡ true)
      ↔ (IsName n × (look s.writes q ≡ dir) × ((m : Text) → look s.writes (m ∷ n ∷ q) ≡ absent))
unfolding can_put
can_put_iff s n q = (
  λ h. (
    (is_name_iff n).0 (ground arith),
    ground arith,
    λ m. unfold node in no_entries s (n ∷ q) m (ground arith),
  ),
  λ (name, base, bare). ground (arith, (is_name_iff n).1 name, nil_entries s (n ∷ q) bare),
)

unfoldable pub put : (s : Tree) (n : Text) (q : Place) → Node → can_put s n q ≡ true → Tree
put s n q v h = record {
  writes = (n ∷ q, v) ∷ s.writes;
  root = s.root;
  stands =
      put_stands s n q v ((can_put_iff s n q).0 h).0 ((can_put_iff s n q).0 h).1
        ((can_put_iff s n q).0 h).2;
}

unfoldable pub put_if :
    (s : Tree) (n : Text) (q : Place)
    → Node
    → (can_put s n q ≡ true) ⊎ (can_put s n q ≡ false)
    → Option Tree
put_if s n q v (inl h) = some (put s n q v h)
put_if s n q v (inr h) = none

put_if-some :
    (s : Tree) (n : Text) (q : Place) (v : Node)
    (c : (can_put s n q ≡ true) ⊎ (can_put s n q ≡ false)) (t : Tree)
    → put_if s n q v c ≡ some t
    → ((m : Text) → node s (m ∷ n ∷ q) ≡ absent) × (node t ≡ update (node s) (n ∷ q) v)
unfolding put_if put node
put_if-some s n q v (inl h) t e = (
  ((can_put_iff s n q).0 h).2,
  ap look (ap (λ (x : Tree). x.writes) (some-injective _ _ (sym e))),
)
put_if-some s n q v (inr h) t e = cc

put_if_ok :
    (s : Tree) (n : Text) (q : Place) (v : Node)
    (c : (can_put s n q ≡ true) ⊎ (can_put s n q ≡ false))
    → can_put s n q ≡ true
    → (t : Tree) × (put_if s n q v c ≡ some t)
unfolding put_if
put_if_ok s n q v (inl h) ok = (put s n q v h, refl)
put_if_ok s n q v (inr h) ok = cc

unfoldable pub try_put : Tree → Place → Node → Option Tree
unfolding put_if put can_put Bool-cases
try_put s [] v = none
try_put s (n ∷ q) v = put_if s n q v (Bool-cases (can_put s n q))

pub try_put-some :
    (s : Tree) (p : Place) (v : Node) (t : Tree)
    → try_put s p v ≡ some t
    → ((m : Text) → node s (m ∷ p) ≡ absent) × (node t ≡ update (node s) p v)
unfolding try_put put node
try_put-some s [] v t h = cc
try_put-some s (n ∷ q) v t h = put_if-some s n q v (Bool-cases (can_put s n q)) t h

pub try_put_ok :
    (s : Tree) (n : Text) (q : Place) (v : Node)
    → IsName n
    → node s q ≡ dir
    → ((m : Text) → node s (m ∷ n ∷ q) ≡ absent)
    → (t : Tree) × (try_put s (n ∷ q) v ≡ some t)
unfolding try_put node
try_put_ok s n q v name base bare =
    put_if_ok s n q v (Bool-cases (can_put s n q)) ((can_put_iff s n q).1 (name, base, bare))

-- Nothing stands under what is no directory.
pub bare : (s : Tree) (p : Place) (m : Text) → is_dir (node s p) ≡ false → node s (m ∷ p) ≡ absent
unfolding node
bare s p m h = ground (arith, s.stands m p)
