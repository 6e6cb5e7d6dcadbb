-- ===== src/Posix/Defs.antt =====
-- The interface of the file system: the calls, the places and nodes, and what POSIX documents, with
-- `d_type` of glibc.
use peer_to_peer_fileshare.Base.{
  ℕ, ◌≤◌, ◌≡◌, ◌≢◌, ◌⊎◌, Bool, true, false, length, Option, some, List, [], ◌∷◌, ◌++◌, ◌==◌,
  list_eq, nat_eq, if◌then◌else◌,
}
use peer_to_peer_fileshare.CString.{Text, codes, slash}

-- The place that a path leads to: the names on the way to it, the innermost first.
abbrev pub Place : Type 0
Place = List Text

-- What stands at a place.
pub data Node : Type 0 where
  absent : Node
  file : Text → Node
  dir : Node

abbrev pub is_present : Node → Bool
is_present absent = false
is_present (file t) = true
is_present dir = true

abbrev pub is_dir : Node → Bool
is_dir absent = false
is_dir (file t) = false
is_dir dir = true

abbrev pub update : (Place → Node) → Place → Node → Place → Node
update f p v q = if q == p then v else f q

-- `d_type` of `struct dirent`, as far as the code looks at it. POSIX has no such field; it is taken to be
-- exact, as on a system that never sets it to DT_UNKNOWN.
pub data EntryType : Type 0 where
  dt_dir dt_reg : EntryType

pub record Dirent : Type 0 where
  pub d_name : Text
  pub d_type : EntryType

abbrev pub entry_type : Node → EntryType
entry_type (file t) = dt_reg
entry_type absent = dt_reg
entry_type dir = dt_dir

-- `none` is a call that fails. It leaves the state as it was, except `fprintf`, whose first result
-- says whether it wrote all.
pub record FileSystem : Type 1 where
  pub State : Type 0
  pub resolve : Text → Place
  pub node : State → Place → Node
  pub access : State → Text → Bool
  pub mkdir : State → Text → Option State
  pub rmdir : State → Text → Option State
  pub remove : State → Text → Option State
  pub fopen_write : State → Text → Option State
  pub fprintf : State → Text → Text → Bool × State
  pub fopen_read : State → Text → Option Text
  pub opendir : State → Text → Option (List Dirent)

-- One component of a path: not empty, without a slash, and not one of the two links.
abbrev pub has_byte : ℕ → Text → Bool
has_byte b [] = false
has_byte b (c ∷ s) = if c == b then true else has_byte b s

pub record IsName (n : Text) : Type 0 where
  pub nonempty : n ≢ []
  pub no_slash : has_byte slash n ≡ false
  pub name_max : length n ≤ 255
  pub no_dot : n ≢ codes "."
  pub no_dot_dot : n ≢ codes ".."

-- Something that stands in a directory `p` under the name `n`.
abbrev pub IsEntry : (Place → Node) → Place → Dirent → Type 0
IsEntry f p e = (is_present (f (e.d_name ∷ p)) ≡ true) × (e.d_type ≡ entry_type (f (e.d_name ∷ p)))

abbrev pub lists_name : Text → List Dirent → Bool
lists_name n [] = false
lists_name n (e ∷ es) = if e.d_name == n then true else lists_name n es

-- Entries of a directory other than its two links, each named once.
abbrev pub AreEntries : (Place → Node) → Place → List Dirent → Type 0
AreEntries f p [] = Unit
AreEntries f p (e ∷ es) =
    ((e.d_name ≡ codes ".") ⊎ (e.d_name ≡ codes "..") ⊎ (IsName e.d_name × IsEntry f p e))
    × (lists_name e.d_name es ≡ false)
    × AreEntries f p es

pub record IsLawful (F : FileSystem) : Type 0 where
  pub resolve_child :
      (c : ℕ) (p n : Text) → IsName n → F.resolve ((c ∷ p) ++ (slash ∷ n)) ≡ n ∷ F.resolve (c ∷ p)
  pub resolve_slash : (c : ℕ) (p : Text) → F.resolve ((c ∷ p) ++ (slash ∷ [])) ≡ F.resolve (c ∷ p)
  pub stands :
      (s : F.State) (n : Text) (p : Place)
      → is_present (F.node s (n ∷ p)) ≡ true
      → (F.node s p ≡ dir) × IsName n
  pub access_lem : (s : F.State) (p : Text) → F.access s p ≡ is_present (F.node s (F.resolve p))
  pub mkdir_some :
      (s : F.State) (p : Text) (t : F.State)
      → F.mkdir s p ≡ some t
      → (F.node s (F.resolve p) ≡ absent) × (F.node t ≡ update (F.node s) (F.resolve p) dir)
  pub rmdir_some :
      (s : F.State) (p : Text) (t : F.State)
      → F.rmdir s p ≡ some t
      → (F.node s (F.resolve p) ≡ dir)
        × ((n : Text) → F.node s (n ∷ F.resolve p) ≡ absent)
        × (F.node t ≡ update (F.node s) (F.resolve p) absent)
  pub remove_some :
      (s : F.State) (p : Text) (t : F.State)
      → F.remove s p ≡ some t
      → (is_present (F.node s (F.resolve p)) ≡ true)
        × ((n : Text) → F.node s (n ∷ F.resolve p) ≡ absent)
        × (F.node t ≡ update (F.node s) (F.resolve p) absent)
  pub fopen_write_some :
      (s : F.State) (p : Text) (t : F.State)
      → F.fopen_write s p ≡ some t
      → (F.node s (F.resolve p) ≢ dir) × (F.node t ≡ update (F.node s) (F.resolve p) (file []))
  pub fprintf_full :
      (s : F.State) (p x old : Text)
      → F.node s (F.resolve p) ≡ file old
      → (F.fprintf s p x).0 ≡ true
      → F.node (F.fprintf s p x).1 ≡ update (F.node s) (F.resolve p) (file (old ++ x))
  pub fprintf_short :
      (s : F.State) (p x old : Text)
      → F.node s (F.resolve p) ≡ file old
      → (got : Text) × (F.node (F.fprintf s p x).1 ≡ update (F.node s) (F.resolve p) (file got))
  pub fopen_read_some :
      (s : F.State) (p x : Text)
      → F.fopen_read s p ≡ some x
      → (F.node s (F.resolve p) ≡ file x) ⊎ ((F.node s (F.resolve p) ≡ dir) × (x ≡ []))
  pub opendir_some :
      (s : F.State) (p : Text) (es : List Dirent)
      → F.opendir s p ≡ some es
      → (F.node s (F.resolve p) ≡ dir)
        × AreEntries (F.node s) (F.resolve p) es
        × ((n : Text) → is_present (F.node s (n ∷ F.resolve p)) ≡ true → lists_name n es ≡ true)

-- A system on which calls fail for no reason but the tree: disk, memory, descriptors and permissions
-- suffice.
pub record IsReliable (F : FileSystem) : Type 0 where
  pub mkdir_ok :
      (s : F.State) (p n : Text) (q : Place)
      → IsName n
      → F.resolve p ≡ n ∷ q
      → F.node s q ≡ dir
      → F.node s (n ∷ q) ≡ absent
      → (t : F.State) × (F.mkdir s p ≡ some t)
  pub rmdir_ok :
      (s : F.State) (p n : Text) (q : Place)
      → F.resolve p ≡ n ∷ q
      → F.node s (n ∷ q) ≡ dir
      → ((m : Text) → F.node s (m ∷ n ∷ q) ≡ absent)
      → (t : F.State) × (F.rmdir s p ≡ some t)
  pub remove_ok :
      (s : F.State) (p n x : Text) (q : Place)
      → F.resolve p ≡ n ∷ q
      → F.node s (n ∷ q) ≡ file x
      → (t : F.State) × (F.remove s p ≡ some t)
  pub fopen_write_ok :
      (s : F.State) (p n : Text) (q : Place)
      → IsName n
      → F.resolve p ≡ n ∷ q
      → F.node s q ≡ dir
      → F.node s (n ∷ q) ≢ dir
      → (t : F.State) × (F.fopen_write s p ≡ some t)
  pub fprintf_ok :
      (s : F.State) (p x old : Text)
      → F.node s (F.resolve p) ≡ file old
      → (F.fprintf s p x).0 ≡ true
  pub fopen_read_ok :
      (s : F.State) (p x : Text) → F.node s (F.resolve p) ≡ file x → F.fopen_read s p ≡ some x
  pub opendir_ok :
      (s : F.State) (p : Text)
      → F.node s (F.resolve p) ≡ dir
      → (es : List Dirent) × (F.opendir s p ≡ some es)

-- A path without a slash starts at the working directory.
pub record IsRelative (F : FileSystem) : Type 0 where
  pub resolve_name : (n : Text) → IsName n → F.resolve n ≡ n ∷ F.resolve (codes ".")
