-- ===== src/Handle/Purge.antt =====
-- `remove_files_in_directory` and `handle_unregister`. The recursion runs on fuel, one unit for each
-- level of directories; `none` means that it ran out.
use peer_to_peer_fileshare.Base.{
  ℕ, zero, suc, ◌+◌, Bool, ◌||◌, Option, none, some, List, [], ◌∷◌, ◌++◌, length, ltb, ◌==◌, nat_eq,
  list_eq, if◌then◌else◌,
}
use peer_to_peer_fileshare.CString.{Text, codes, slash, snprintf}
use peer_to_peer_fileshare.Posix.{FileSystem, Dirent, EntryType, dt_dir, dt_reg}
use peer_to_peer_fileshare.Handle.Paths.{user_path}

-- NAME_MAX of <limits.h>
abbrev pub name_max : ℕ
name_max = 255

abbrev pub is_link : Text → Bool
is_link name = (name == codes ".") || (name == codes "..")

-- `max_filepath_len`
abbrev pub max_filepath_len : Text → ℕ
max_filepath_len dirpath = length dirpath + name_max + 2

-- `filepath`
unfoldable pub entry_path : Text → Text → Text
unfolding snprintf
entry_path dirpath name = snprintf (max_filepath_len dirpath) (dirpath ++ slash ∷ name)

-- The result of a call whose failure is only reported.
abbrev pub or_same {ℓ} : {S : Type ℓ} → S → Option S → S
or_same s none = s
or_same s (some t) = t

module _ (F : FileSystem) where
  open F use {State, access, rmdir, remove, opendir}

  -- The two ways to delete an entry; `below` is the recursive call.
  unfoldable pub delete_entry :
      (State → Text → Option State) → Text → State → EntryType → Option State
  delete_entry below filepath s dt_dir = elim (below s filepath) [
    | none ↦ none
    | some t ↦ some (or_same t (rmdir t filepath))
  ]
  delete_entry below filepath s dt_reg = some (or_same s (remove s filepath))

  -- One round of the loop.
  unfoldable pub purge_entry : (State → Text → Option State) → Text → State → Dirent → Option State
  unfolding delete_entry
  purge_entry below dirpath s e =
      let filepath = entry_path dirpath e.d_name in
      if ltb (max_filepath_len dirpath) (length dirpath + length e.d_name + 2)
      then some s
      else if is_link e.d_name
      then some s
      else delete_entry below filepath s e.d_type

  unfoldable pub purge_loop :
      (State → Text → Option State) → Text → State → List Dirent → Option State
  unfolding purge_entry
  purge_loop below dirpath s [] = some s
  purge_loop below dirpath s (e ∷ es) = elim (purge_entry below dirpath s e) [
    | none ↦ none
    | some t ↦ purge_loop below dirpath t es
  ]

  unfoldable pub remove_files_in_directory : ℕ → State → Text → Option State
  unfolding purge_loop
  remove_files_in_directory zero s dirpath = none
  remove_files_in_directory (suc fuel) s dirpath = elim (opendir s dirpath) [
    | none ↦ some s
    | some es ↦ purge_loop (remove_files_in_directory fuel) dirpath s es
  ]

  unfoldable pub handle_unregister : ℕ → Text → State → Option (ℕ × State)
  unfolding remove_files_in_directory
  handle_unregister fuel username s =
      let dirpath = user_path username in
      if access s dirpath
      then elim (remove_files_in_directory fuel s dirpath) [
        | none ↦ none
        | some t ↦ elim (rmdir t dirpath) [ none ↦ some (2, t) | some u ↦ some (0, u) ]
      ]
      else some (1, s)
