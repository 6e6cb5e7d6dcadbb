-- ===== src/Posix/Memory/Lawful.antt =====
-- The calls in memory, and the proofs that they do what POSIX documents and do not fail otherwise.
use peer_to_peer_fileshare.Base.{
  ◌≡◌, ◌≢◌, refl, ap, Bool, true, false, Option, none, some, List, [], ◌∷◌, ◌++◌, arith, sym, subst,
  ◌⊎◌, inl, inr,
}
use mathlib.Core.Option.{some-injective}
use peer_to_peer_fileshare.CString.{Text, codes}
use peer_to_peer_fileshare.Posix.Defs.{
  Place, Node, absent, file, dir, is_present, update, IsName, Dirent, dt_dir, AreEntries,
  lists_name, FileSystem, IsLawful, IsReliable, IsRelative,
}
use peer_to_peer_fileshare.Posix.Memory.Walk.{walk, walk-child, walk-slash, walk-IsName}
use peer_to_peer_fileshare.Posix.Memory.Writes.{
  Tree, node, try_put, try_put-some, try_put_ok, entries, entries-AreEntries, entries_complete,
  entries_names, bare,
}

resolve : Text → Place
resolve p = walk [] [] p

make_dir : Tree → Place → Node → Option Tree
make_dir s p absent = try_put s p dir
make_dir s p (file x) = none
make_dir s p dir = none

remove_dir : Tree → Place → Node → Option Tree
remove_dir s p absent = none
remove_dir s p (file x) = none
remove_dir s p dir = try_put s p absent

remove_any : Tree → Place → Node → Option Tree
remove_any s p absent = none
remove_any s p (file x) = try_put s p absent
remove_any s p dir = try_put s p absent

truncate : Tree → Place → Node → Option Tree
truncate s p absent = try_put s p (file [])
truncate s p (file x) = try_put s p (file [])
truncate s p dir = none

wrote : Tree → Option Tree → Bool × Tree
wrote s none = (false, s)
wrote s (some t) = (true, t)

add_text : Tree → Place → Text → Node → Bool × Tree
add_text s p x absent = (false, s)
add_text s p x (file old) = wrote s (try_put s p (file (old ++ x)))
add_text s p x dir = (false, s)

read_text : Node → Option Text
read_text absent = none
read_text (file x) = some x
read_text dir = some []

link : Text → Dirent
link n = record { d_name = n; d_type = dt_dir }

list_dir : Tree → Place → Node → Option (List Dirent)
list_dir s p absent = none
list_dir s p (file x) = none
list_dir s p dir = some (link (codes ".") ∷ link (codes "..") ∷ entries s p)

module _ (s : Tree) (p : Place) where
  make_dir-some :
      (v : Node) (t : Tree)
      → make_dir s p v ≡ some t
      → (v ≡ absent) × (node t ≡ update (node s) p dir)
  unfolding make_dir
  make_dir-some absent t h = (refl, (try_put-some s p dir t h).1)
  make_dir-some (file x) t h = cc
  make_dir-some dir t h = cc

  remove_dir-some :
      (v : Node) (t : Tree)
      → remove_dir s p v ≡ some t
      → (v ≡ dir) × ((n : Text) → node s (n ∷ p) ≡ absent) × (node t ≡ update (node s) p absent)
  unfolding remove_dir
  remove_dir-some absent t h = cc
  remove_dir-some (file x) t h = cc
  remove_dir-some dir t h = (refl, (try_put-some s p absent t h).0, (try_put-some s p absent t h).1)

  remove_any-some :
      (v : Node) (t : Tree)
      → remove_any s p v ≡ some t
      → (is_present v ≡ true)
        × ((n : Text) → node s (n ∷ p) ≡ absent)
        × (node t ≡ update (node s) p absent)
  unfolding remove_any
  remove_any-some absent t h = cc
  remove_any-some (file x) t h =
      (refl, (try_put-some s p absent t h).0, (try_put-some s p absent t h).1)
  remove_any-some dir t h = (refl, (try_put-some s p absent t h).0, (try_put-some s p absent t h).1)

  truncate-some :
      (v : Node) (t : Tree)
      → truncate s p v ≡ some t
      → (v ≢ dir) × (node t ≡ update (node s) p (file []))
  unfolding truncate
  truncate-some absent t h = (λ e. cc, (try_put-some s p (file []) t h).1)
  truncate-some (file x) t h = (λ e. cc, (try_put-some s p (file []) t h).1)
  truncate-some dir t h = cc

  read_text-some :
      (v : Node) (x : Text) → read_text v ≡ some x → (v ≡ file x) ⊎ ((v ≡ dir) × (x ≡ []))
  unfolding read_text
  read_text-some absent x h = cc
  read_text-some (file y) x h = inl (ap file (some-injective _ _ h))
  read_text-some dir x h = inr (refl, sym (some-injective _ _ h))

-- A file's place can be written: its name is one, and nothing stands under it.
file_ok :
    (s : Tree) (p : Place) (v : Node) (old : Text)
    → node s p ≡ file old
    → (t : Tree) × (try_put s p v ≡ some t)
unfolding node
file_ok s [] v old h = cc (s.root)
file_ok s (n ∷ q) v old h =
    let (base, name) = s.stands n q (rw h) in
    try_put_ok s n q v name base (λ m. bare s (n ∷ q) m (rw h))

add_text-some :
    (s : Tree) (p : Place) (x old : Text)
    → node s p ≡ file old
    → (t : Tree) × (add_text s p x (node s p) ≡ (true, t))
      × (node t ≡ update (node s) p (file (old ++ x)))
unfolding add_text wrote
add_text-some s p x old h =
    let (t, e) = file_ok s p (file (old ++ x)) old h in
    (t, rw (h, add_text, e), (try_put-some s p (file (old ++ x)) t e).1)

list_dir-some :
    (s : Tree) (p : Place) (v : Node) (es : List Dirent)
    → list_dir s p v ≡ some es
    → (v ≡ dir)
      × AreEntries (node s) p es
      × ((n : Text) → is_present (node s (n ∷ p)) ≡ true → lists_name n es ≡ true)
unfolding list_dir link
list_dir-some s p absent es h = cc
list_dir-some s p (file x) es h = cc
list_dir-some s p dir es h = (
  refl,
  subst (AreEntries (node s) p) e linked,
  λ n k. rw (← e) (ground (arith, entries_complete s p n)),
)
  where
    e : link (codes ".") ∷ link (codes "..") ∷ entries s p ≡ es
    e = some-injective _ _ h

    linked : AreEntries (node s) p (link (codes ".") ∷ link (codes "..") ∷ entries s p)
    linked = (
      inl refl,
      entries_names s p (codes ".") (λ n. n.no_dot refl),
      (
        inr (inl refl),
        entries_names s p (codes "..") (λ n. n.no_dot_dot refl),
        entries-AreEntries s p,
      ),
    )

unfoldable pub memory : FileSystem
unfolding resolve make_dir remove_dir remove_any truncate wrote add_text read_text link list_dir
    walk node try_put entries
memory = record {
  State = Tree;
  resolve = resolve;
  node = node;
  access = λ s p. is_present (node s (resolve p));
  mkdir = λ s p. make_dir s (resolve p) (node s (resolve p));
  rmdir = λ s p. remove_dir s (resolve p) (node s (resolve p));
  remove = λ s p. remove_any s (resolve p) (node s (resolve p));
  fopen_write = λ s p. truncate s (resolve p) (node s (resolve p));
  fprintf = λ s p x. add_text s (resolve p) x (node s (resolve p));
  fopen_read = λ s p. read_text (node s (resolve p));
  opendir = λ s p. list_dir s (resolve p) (node s (resolve p));
}

pub memory-IsLawful : IsLawful memory
unfolding memory
memory-IsLawful = record {
  resolve_child = λ c p n h. walk-child [] [] (c ∷ p) n h;
  resolve_slash = λ c p. walk-slash [] [] (c ∷ p);
  stands = λ s n p h. s.stands n p h;
  access_lem = λ s p. refl;
  mkdir_some = λ s p t h. make_dir-some s (resolve p) _ t h;
  rmdir_some = λ s p t h. remove_dir-some s (resolve p) _ t h;
  remove_some = λ s p t h. remove_any-some s (resolve p) _ t h;
  fopen_write_some = λ s p t h. truncate-some s (resolve p) _ t h;
  fprintf_full = λ s p x old h e. let (t, w, u) = add_text-some s (resolve p) x old h in rw w u;
  fprintf_short =
      λ s p x old h. let (t, w, u) = add_text-some s (resolve p) x old h in (old ++ x, rw w u);
  fopen_read_some = λ s p x h. read_text-some s (resolve p) _ x h;
  opendir_some = λ s p es h. list_dir-some s (resolve p) _ es h;
}

pub memory-IsRelative : IsRelative memory
unfolding memory
memory-IsRelative = record { resolve_name = λ n h. walk-IsName [] n h }

truncate_ok :
    (s : Tree) (n : Text) (q : Place)
    → IsName n
    → node s q ≡ dir
    → (v : Node) → node s (n ∷ q) ≡ v
    → v ≢ dir
    → (t : Tree) × (truncate s (n ∷ q) v ≡ some t)
unfolding truncate
truncate_ok s n q name base absent e h =
    try_put_ok s n q (file []) name base (λ m. bare s (n ∷ q) m (rw e))
truncate_ok s n q name base (file x) e h =
    try_put_ok s n q (file []) name base (λ m. bare s (n ∷ q) m (rw e))
truncate_ok s n q name base dir e h = absurd (h refl)

pub memory-IsReliable : IsReliable memory
unfolding memory
memory-IsReliable = record {
  mkdir_ok = λ s p n q name r base free.
      let (t, e) = try_put_ok s n q dir name base (λ m. bare s (n ∷ q) m (rw free)) in
      subst (λ x. (t : Tree) × (make_dir s x (node s x) ≡ some t)) (sym r)
        (t, rw (free, make_dir) e);
  rmdir_ok = λ s p n q r here empty.
      let (base, name) = s.stands n q (rw here) in
      let (t, e) = try_put_ok s n q absent name base empty in
      subst (λ x. (t : Tree) × (remove_dir s x (node s x) ≡ some t)) (sym r)
        (t, rw (here, remove_dir) e);
  remove_ok = λ s p n x q r here.
      let (t, e) = file_ok s (n ∷ q) absent x here in
      subst (λ x. (t : Tree) × (remove_any s x (node s x) ≡ some t)) (sym r)
        (t, rw (here, remove_any) e);
  fopen_write_ok = λ s p n q name r base here.
      subst (λ x. (t : Tree) × (truncate s x (node s x) ≡ some t)) (sym r)
        (truncate_ok s n q name base (node s (n ∷ q)) refl here);
  fprintf_ok = λ s p x old h. let (t, w, u) = add_text-some s (resolve p) x old h in rw w;
  fopen_read_ok = λ s p x h. rw (h, read_text);
  opendir_ok =
      λ s p h. (link (codes ".") ∷ link (codes "..") ∷ entries s (resolve p), rw (h, list_dir));
}
