-- ===== src/Tests/ContentList.antt =====
-- The theorem on `handle_list_content` at work.
use peer_to_peer_fileshare.Base.{
  ◌≡◌, ap, sym, subst, ◌∙◌, ◌==◌, ==_iff, list_eq, nat_eq, Bool-cases, inl, inr, true, ◌+◌, ◌∷◌, [],
  ◌++◌, refl, none, some, List, false, arith,
}
use mathlib.Core.Option.{some-injective, none-ne-some}
use peer_to_peer_fileshare.Base.Int.{pos}
use peer_to_peer_fileshare.CString.{Text, codes, buffer_size}
use peer_to_peer_fileshare.Posix.{is_present, Place, Node, absent, file, dir, Dirent, update}
use peer_to_peer_fileshare.Posix.Memory.{
  look, memory, memory-IsLawful, memory-IsReliable, memory-IsRelative,
}
use peer_to_peer_fileshare.Registry.View.{view, text_of}
use peer_to_peer_fileshare.Handle.Paths.{user_path, connect_path, files_path, published_path}
use peer_to_peer_fileshare.Handle.Places.{base, files_place}
use peer_to_peer_fileshare.Handle.Access.{users}
use peer_to_peer_fileshare.Handle.Purge.{or_same}
use peer_to_peer_fileshare.Handle.Listing.{fgets, handle_list_content}
use peer_to_peer_fileshare.Handle.ListUsers.{NamesEach}
use peer_to_peer_fileshare.Handle.ListContent.{
  file_of, file_at, content_text, content_count, list_content-listing,
}
use peer_to_peer_fileshare.Handle.Refines.Connect.{contact}
use peer_to_peer_fileshare.Handle.Unregister.{under}
use peer_to_peer_fileshare.Handle.GetFile.{IsOnline}
use peer_to_peer_fileshare.Comm.{eof}
use peer_to_peer_fileshare.Request.{rpc_string, content_list_name, tratar_peticion}
use peer_to_peer_fileshare.Request.Opening.{plain-IsLine}
use peer_to_peer_fileshare.Request.Serve.{left, serve, lines, calm, code_line}
use peer_to_peer_fileshare.Request.UserList.{shown_list, content_lines}
use peer_to_peer_fileshare.Request.ListFiles.{
  IsShort, content_list_name-IsName, users-outside, kept_below,
}
use peer_to_peer_fileshare.Request.ContentListing.{HaveLines, serve-list_content}
use peer_to_peer_fileshare.Tests.Data.{
  ann, notes, address, with_notes, ann-IsUser, two_users, database_place,
}

abbrev content_name : Text
content_name = codes "annann_content.txt"

-- A connected user has published a file, and the file for the answer is open.
unfoldable with_content : memory.State
unfolding memory with_notes
with_content = or_same with_notes (memory.fopen_write with_notes content_name)

abbrev content_writes : List (Place × Node)
content_writes =
    (content_name ∷ [], file [])
    ∷ (notes ∷ codes "files" ∷ ann ∷ codes "database" ∷ [], file (codes "my notes" ++ 10 ∷ []))
    ∷ (notes ∷ codes "files" ∷ ann ∷ codes "database" ∷ [], file [])
    ∷ (codes "files" ∷ ann ∷ codes "database" ∷ [], dir)
    ∷ (codes "connect" ∷ ann ∷ codes "database" ∷ [], file (contact address (pos 4000)))
    ∷ (codes "connect" ∷ ann ∷ codes "database" ∷ [], file (codes "10.0.0.7" ++ 10 ∷ []))
    ∷ (codes "connect" ∷ ann ∷ codes "database" ∷ [], file [])
    ∷ two_users

content_tree : (q : Place) → memory.node with_content q ≡ look content_writes q
unfolding memory with_content user_path connect_path files_path published_path
content_tree q = refl

content_writes-absent :
    (f : Text)
    → (f == notes) ≡ false
    → look content_writes (f ∷ codes "files" ∷ ann ∷ codes "database" ∷ []) ≡ absent
content_writes-absent f h = ground arith

ann_there : is_present (memory.node with_content (ann ∷ base memory)) ≡ true
ann_there =
    ap (λ p. is_present (memory.node with_content (ann ∷ p))) database_place
    ∙ ap is_present (content_tree (ann ∷ codes "database" ∷ []))

notes_text : file_of (users memory with_content) ann notes ≡ some (codes "my notes" ++ 10 ∷ [])
notes_text =
    file_at memory-IsLawful with_content ann-IsUser ann_there notes
    ∙ ap (λ p. text_of (memory.node with_content (notes ∷ codes "files" ∷ ann ∷ p))) database_place
    ∙ ap text_of (content_tree (notes ∷ codes "files" ∷ ann ∷ codes "database" ∷ []))

notes_line : fgets buffer_size (codes "my notes" ++ 10 ∷ []) ≡ some (codes "my notes" ++ 10 ∷ [])
unfolding fgets
notes_line = refl

content_readable :
    (f d : Text)
    → file_of (users memory with_content) ann f ≡ some d
    → (e : Text) × (fgets buffer_size d ≡ some e)
content_readable f d on = elim (Bool-cases (f == notes)) [
  | inl same ↦
      let here =
        subst (λ w. file_of (users memory with_content) ann w ≡ some d) ((==_iff f notes).0 same)
          on in
      let is_d = some-injective _ _ (sym notes_text ∙ here) in
      (
        codes "my notes" ++ 10 ∷ [],
        subst (λ y. fgets buffer_size y ≡ some (codes "my notes" ++ 10 ∷ [])) is_d notes_line,
      )
  | inr other ↦ absurd (none-ne-some d (sym (nothing other) ∙ on))
]
  where
    nothing : (f == notes) ≡ false → file_of (users memory with_content) ann f ≡ none
    nothing other =
        file_at memory-IsLawful with_content ann-IsUser ann_there f
        ∙ ap (λ p. text_of (memory.node with_content (f ∷ codes "files" ∷ ann ∷ p))) database_place
        ∙ ap text_of (
            content_tree (f ∷ codes "files" ∷ ann ∷ codes "database" ∷ [])
            ∙ content_writes-absent f other)

ann_shares : IsOnline (users memory with_content) ann (contact address (pos 4000))
unfolding memory with_content view user_path connect_path files_path published_path
ann_shares = (_, refl, refl)

content_apart : under (base memory) (memory.resolve content_name) ≡ false
unfolding memory
content_apart = refl

content_place : memory.resolve content_name ≡ content_name ∷ []
unfolding memory
content_place = refl

content_empty : memory.node with_content (memory.resolve content_name) ≡ file []
content_empty = ap (memory.node with_content) content_place ∙ content_tree (content_name ∷ [])

folder_there : memory.node with_content (files_place memory ann) ≡ dir
folder_there =
    ap (λ p. memory.node with_content (codes "files" ∷ ann ∷ p)) database_place
    ∙ content_tree (codes "files" ∷ ann ∷ codes "database" ∷ [])

list_content-listing_example :
    (es : List Dirent) × (t : memory.State) × NamesEach (file_of (users memory with_content) ann) es
    × (handle_list_content memory ann ann 0 content_name with_content
        ≡ (0, 0 + content_count (users memory with_content) ann es, t))
    × (memory.node t
        ≡ update
            (memory.node with_content)
            (memory.resolve content_name)
            (file ([] ++ content_text (users memory with_content) ann es)))
list_content-listing_example =
    list_content-listing memory-IsLawful memory-IsReliable with_content content_name [] 0 ann-IsUser
      ann-IsUser ann_shares ann_shares content_apart content_readable folder_there content_empty

-- The same user asks over its socket, before there is a file for the answer.
abbrev noon : Text
noon = codes "25/11/2026 12:00:00"

ann-IsShort : IsShort ann
ann-IsShort = record { name = ann-IsUser.name; short = omega arith }

no_list : memory.node with_notes (content_name ∷ memory.resolve (codes ".")) ≡ absent
unfolding memory with_notes user_path connect_path files_path published_path
no_list = refl

root_dir : memory.node with_notes (memory.resolve (codes ".")) ≡ dir
unfolding memory with_notes user_path connect_path files_path published_path
root_dir = refl

opens_with_content :
    (t : memory.State) → memory.fopen_write with_notes content_name ≡ some t → with_content ≡ t
unfolding with_content
opens_with_content t e = ap (or_same with_notes) e

content_opens : memory.fopen_write with_notes content_name ≡ some with_content
content_opens =
    let (t, e) =
      memory-IsReliable.fopen_write_ok with_notes content_name content_name
        (memory.resolve (codes ".")) (content_list_name-IsName ann-IsShort ann-IsShort)
        (memory-IsRelative.resolve_name content_name
          (content_list_name-IsName ann-IsShort ann-IsShort))
        root_dir (λ e. cc (sym no_list ∙ e)) in
    e ∙ ap some (sym (opens_with_content t e))

same_users : users memory with_content ≡ users memory with_notes
same_users =
    users-outside memory-IsLawful memory-IsRelative with_notes
      (content_list_name-IsName ann-IsShort ann-IsShort) with_content (file [])
      (memory-IsLawful.fopen_write_some with_notes content_name with_content content_opens).1

ann_asks : IsOnline (users memory with_notes) ann (contact address (pos 4000))
ann_asks = subst (λ g. IsOnline g ann (contact address (pos 4000))) same_users ann_shares

lines_before :
    HaveLines memory-IsLawful memory-IsReliable memory-IsRelative with_notes ann-IsShort ann-IsShort
      ann_asks ann_asks
lines_before =
    subst
      (λ g. (f d : Text) → file_of g ann f ≡ some d → (e : Text) × (fgets buffer_size d ≡ some e))
      same_users content_readable

folder_before : memory.node with_notes (files_place memory ann) ≡ dir
folder_before =
    sym (
      kept_below memory-IsLawful memory-IsRelative with_notes
        (content_list_name-IsName ann-IsShort ann-IsShort) with_content (file [])
        (files_place memory ann)
        (memory-IsLawful.fopen_write_some with_notes content_name with_content content_opens).1
        (omega arith))
    ∙ folder_there

serve-list_content_example :
    (es : List Dirent) × (t : memory.State) × NamesEach (file_of (users memory with_notes) ann) es
    × (serve (tratar_peticion memory (λ f. []) (λ s. 2)) (
          calm address with_notes
            (lines (codes "LIST_CONTENT" ∷ noon ∷ ann ∷ ann ∷ []) (eof ∷ []))
            []
            [])
        ≡ (
          left,
          calm address t
              (eof ∷ [])
              ((([] ++ code_line 0) ++ code_line (content_count (users memory with_notes) ann es))
                ++ shown_list content_lines (content_text (users memory with_notes) ann es))
              ([] ++ rpc_string ann (codes "LIST_CONTENT") noon ∷ []),
        ))
    × (memory.node t (memory.resolve (content_list_name ann ann)) ≡ absent)
    × (users memory t ≡ users memory with_notes)
serve-list_content_example =
    serve-list_content memory-IsLawful memory-IsReliable memory-IsRelative with_notes ann-IsShort
      ann-IsShort ann_asks ann_asks (λ f. []) (λ s. 2) address noon [] (eof ∷ []) [] lines_before
      folder_before (λ e. cc (sym no_list ∙ e)) (plain-IsLine noon refl, omega arith)
      (plain-IsLine ann refl, omega arith) (plain-IsLine ann refl, omega arith) refl
