-- ===== src/Handle/Writing.antt =====
-- Files that a handler opens for writing: what the tree holds after `fopen` and after each `fprintf`.
use peer_to_peer_fileshare.Base.{
  ◌≡◌, ◌∙◌, ap₂, fun_ext, true, Bool-cases, inl, inr, some, [], ◌++◌, ◌==◌, ==_refl, nat_eq,
  list_eq,
}
use peer_to_peer_fileshare.CString.{Text}
use peer_to_peer_fileshare.Posix.{Place, Node, file, update, FileSystem, IsLawful}

update_twice :
    (f : Place → Node) (p : Place) (v w : Node) → update (update f p v) p w ≡ update f p w
update_twice f p v w = fun_ext λ q. elim (Bool-cases (q == p)) [ inl e ↦ rw e | inr e ↦ rw e ]

pub update_self : (f : Place → Node) (p : Place) (v : Node) → update f p v p ≡ v
update_self f p v = rw (==_refl p)

module _ {F : FileSystem} (L : IsLawful F) (f : Place → Node) (path : Text) (p : Place) where
  -- A file that the handler has written `old` to, over the tree `f`.
  abbrev pub Open : F.State → Text → Type 0
  Open s old = F.node s ≡ update f p (file old)

  pub opened :
      (s t : F.State)
      → F.resolve path ≡ p
      → F.node s ≡ f
      → F.fopen_write s path ≡ some t
      → Open t []
  opened s t r e o = (L.fopen_write_some s path t o).1 ∙ ap₂ (λ g q. update g q (file [])) e r

  pub holds :
      (s : F.State) (old : Text)
      → F.resolve path ≡ p
      → Open s old
      → F.node s (F.resolve path) ≡ file old
  holds s old r o = ap₂ (λ g q. g q) o r ∙ update_self f p (file old)

  rewritten :
      (s : F.State) (old got : Text)
      → F.resolve path ≡ p
      → Open s old
      → update (F.node s) (F.resolve path) (file got) ≡ update f p (file got)
  rewritten s old got r o =
      ap₂ (λ g q. update g q (file got)) o r ∙ update_twice f p (file old) (file got)

  pub printed :
      (s : F.State) (old x : Text)
      → F.resolve path ≡ p
      → Open s old
      → (F.fprintf s path x).0 ≡ true
      → Open (F.fprintf s path x).1 (old ++ x)
  printed s old x r o e =
      L.fprintf_full s path x old (holds s old r o) e ∙ rewritten s old (old ++ x) r o

  pub printed_some :
      (s : F.State) (old x : Text)
      → F.resolve path ≡ p
      → Open s old
      → (got : Text) × Open (F.fprintf s path x).1 got
  printed_some s old x r o =
      let (got, e) = L.fprintf_short s path x old (holds s old r o) in
      (got, e ∙ rewritten s old got r o)
