-- ===== src/Tests/UserList.antt =====
-- The theorem on `handle_list_users` at work.
use peer_to_peer_fileshare.Base.{
  arith, ◌≡◌, ap, sym, subst, ◌∙◌, ◌==◌, ==_iff, list_eq, nat_eq, Bool-cases, inl, inr, ◌+◌, ◌∷◌,
  [], ◌++◌, refl, none, some, List, false,
}
use mathlib.Core.Option.{some-injective, none-ne-some}
use peer_to_peer_fileshare.Base.Int.{ℤ, pos}
use peer_to_peer_fileshare.CString.{Text, codes}
use peer_to_peer_fileshare.Posix.{Place, Node, absent, file, dir, Dirent, update}
use peer_to_peer_fileshare.Posix.Memory.{
  look, memory, memory-IsLawful, memory-IsReliable, memory-IsRelative,
}
use peer_to_peer_fileshare.ConnectFile.{scan_connection}
use peer_to_peer_fileshare.ConnectFile.RoundTrip.{scan_connection-print}
use peer_to_peer_fileshare.Registry.View.{view, text_of}
use peer_to_peer_fileshare.Handle.Paths.{user_path, connect_path, files_path}
use peer_to_peer_fileshare.Handle.Places.{base}
use peer_to_peer_fileshare.Handle.Access.{users}
use peer_to_peer_fileshare.Handle.Purge.{or_same}
use peer_to_peer_fileshare.Handle.Listing.{handle_list_users}
use peer_to_peer_fileshare.Handle.ListUsers.{
  NamesEach, contact_of, contact_at, list_text, list_count, list_users-listing,
}
use peer_to_peer_fileshare.Handle.Refines.Connect.{contact}
use peer_to_peer_fileshare.Handle.Unregister.{under}
use peer_to_peer_fileshare.Handle.GetFile.{IsOnline}
use peer_to_peer_fileshare.Comm.{eof}
use peer_to_peer_fileshare.Request.{rpc_string, file_lines, users_list_name, tratar_peticion}
use peer_to_peer_fileshare.Request.Opening.{plain-IsLine}
use peer_to_peer_fileshare.Request.Serve.{left, serve, lines, calm, code_line}
use peer_to_peer_fileshare.Request.UserList.{shown_list}
use peer_to_peer_fileshare.Request.ListFiles.{IsShort, users_list_name-IsName, users-outside}
use peer_to_peer_fileshare.Request.UserListing.{AreReadable, serve-list_users}
use peer_to_peer_fileshare.Tests.Data.{
  ann, address, ann_online, ann-IsUser, address-IsWord, two_users, database_place,
}

abbrev list_name : Text
list_name = codes "ann_users_connected.txt"

-- The file for the list is open, and one of the two users is connected.
unfoldable with_list : memory.State
unfolding memory ann_online
with_list = or_same ann_online (memory.fopen_write ann_online list_name)

abbrev list_writes : List (Place × Node)
list_writes =
    (list_name ∷ [], file [])
    ∷ (codes "files" ∷ ann ∷ codes "database" ∷ [], dir)
    ∷ (codes "connect" ∷ ann ∷ codes "database" ∷ [], file (contact address (pos 4000)))
    ∷ (codes "connect" ∷ ann ∷ codes "database" ∷ [], file (codes "10.0.0.7" ++ 10 ∷ []))
    ∷ (codes "connect" ∷ ann ∷ codes "database" ∷ [], file [])
    ∷ two_users

list_tree : (q : Place) → memory.node with_list q ≡ look list_writes q
unfolding memory with_list user_path connect_path files_path
list_tree q = refl

list_writes-absent :
    (v : Text)
    → (v == ann) ≡ false
    → look list_writes (codes "connect" ∷ v ∷ codes "database" ∷ []) ≡ absent
list_writes-absent v h = rw h refl

ann_listed : contact_of (users memory with_list) ann ≡ some (contact address (pos 4000))
unfolding memory with_list view user_path connect_path files_path
ann_listed = refl

list_readable :
    (v x : Text)
    → contact_of (users memory with_list) v ≡ some x
    → (a : Text × ℤ) × (scan_connection x ≡ some a)
list_readable v x on = elim (Bool-cases (v == ann)) [
  | inl same ↦
      let here =
        subst (λ w. contact_of (users memory with_list) w ≡ some x) ((==_iff v ann).0 same) on in
      let is_x = some-injective _ _ (sym ann_listed ∙ here) in
      (
        (address, pos 4000),
        subst (λ y. scan_connection y ≡ some (address, pos 4000)) is_x ann_scans,
      )
  | inr other ↦ absurd (none-ne-some x (sym (nobody v other) ∙ on))
]
  where
    ann_scans : scan_connection (contact address (pos 4000)) ≡ some (address, pos 4000)
    ann_scans = scan_connection-print address (pos 4000) [] address-IsWord

    nobody : (w : Text) → (w == ann) ≡ false → contact_of (users memory with_list) w ≡ none
    nobody w other =
        contact_at memory-IsLawful with_list w
        ∙ ap (λ p. text_of (memory.node with_list (codes "connect" ∷ w ∷ p))) database_place
        ∙ ap text_of
            (list_tree (codes "connect" ∷ w ∷ codes "database" ∷ []) ∙ list_writes-absent w other)

ann_asks : IsOnline (users memory with_list) ann (contact address (pos 4000))
unfolding memory with_list view user_path connect_path files_path
ann_asks = (_, refl, refl)

list_place : memory.resolve list_name ≡ list_name ∷ []
unfolding memory
list_place = refl

list_apart : under (base memory) (memory.resolve list_name) ≡ false
unfolding memory
list_apart = refl

list_empty : memory.node with_list (memory.resolve list_name) ≡ file []
list_empty = ap (memory.node with_list) list_place ∙ list_tree (list_name ∷ [])

list_users-listing_example :
    (es : List Dirent) × (t : memory.State) × NamesEach (contact_of (users memory with_list)) es
    × (handle_list_users memory ann 0 list_name with_list
        ≡ (0, 0 + list_count (users memory with_list) es, t))
    × (memory.node t
        ≡ update
            (memory.node with_list)
            (memory.resolve list_name)
            (file ([] ++ list_text (users memory with_list) es)))
list_users-listing_example =
    list_users-listing memory-IsLawful with_list memory-IsReliable list_name [] list_apart
      list_readable 0 ann-IsUser ann_asks list_empty

-- The same user asks over its socket, before there is a file for the list.
abbrev noon : Text
noon = codes "25/11/2026 12:00:00"

ann-IsShort : IsShort ann
ann-IsShort = record { name = ann-IsUser.name; short = omega arith }

no_list : memory.node ann_online (list_name ∷ memory.resolve (codes ".")) ≡ absent
unfolding memory ann_online user_path connect_path files_path
no_list = refl

root_dir : memory.node ann_online (memory.resolve (codes ".")) ≡ dir
unfolding memory ann_online user_path connect_path files_path
root_dir = refl

opens_with_list :
    (t : memory.State) → memory.fopen_write ann_online list_name ≡ some t → with_list ≡ t
unfolding with_list
opens_with_list t e = ap (or_same ann_online) e

list_opens : memory.fopen_write ann_online list_name ≡ some with_list
list_opens =
    let (t, e) =
      memory-IsReliable.fopen_write_ok ann_online list_name list_name (memory.resolve (codes "."))
        (users_list_name-IsName ann-IsShort)
        (memory-IsRelative.resolve_name list_name (users_list_name-IsName ann-IsShort)) root_dir
        (λ e. cc (sym no_list ∙ e)) in
    e ∙ ap some (sym (opens_with_list t e))

same_users : users memory with_list ≡ users memory ann_online
same_users =
    users-outside memory-IsLawful memory-IsRelative ann_online (users_list_name-IsName ann-IsShort)
      with_list (file [])
      (memory-IsLawful.fopen_write_some ann_online list_name with_list list_opens).1

ann_online_asks : IsOnline (users memory ann_online) ann (contact address (pos 4000))
ann_online_asks = subst (λ g. IsOnline g ann (contact address (pos 4000))) same_users ann_asks

readable_before :
    AreReadable memory-IsLawful memory-IsReliable memory-IsRelative ann_online ann-IsShort
      ann_online_asks
readable_before =
    subst
      (λ g. (v y : Text) → contact_of g v ≡ some y → (a : Text × ℤ) × (scan_connection y ≡ some a))
      same_users list_readable

serve-list_users_example :
    (es : List Dirent) × (t : memory.State) × NamesEach (contact_of (users memory ann_online)) es
    × (serve
          (tratar_peticion memory (λ f. []) (λ s. 2))
          (calm address ann_online (lines (codes "LIST_USERS" ∷ noon ∷ ann ∷ []) (eof ∷ [])) [] [])
        ≡ (
          left,
          calm address t
              (eof ∷ [])
              ((([] ++ code_line 0) ++ code_line (list_count (users memory ann_online) es))
                ++ shown_list file_lines (list_text (users memory ann_online) es))
              ([] ++ rpc_string ann (codes "LIST_USERS") noon ∷ []),
        ))
    × (memory.node t (memory.resolve (users_list_name ann)) ≡ absent)
    × (users memory t ≡ users memory ann_online)
serve-list_users_example =
    serve-list_users memory-IsLawful memory-IsReliable memory-IsRelative ann_online ann-IsShort
      ann_online_asks (λ f. []) (λ s. 2) address noon [] (eof ∷ []) [] readable_before
      (λ e. cc (sym no_list ∙ e)) (plain-IsLine noon refl, omega arith)
      (plain-IsLine ann refl, omega arith) refl
