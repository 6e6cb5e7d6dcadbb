-- ===== src/Handle/Contact.antt =====
-- A `connect` file written and read.
use peer_to_peer_fileshare.Base.{ℕ, ◌≡◌, refl, sym, ap, ◌∙◌, inl, inr, Bool-cases, some, [], ◌++◌}
use peer_to_peer_fileshare.Base.Int.{ℤ}
use peer_to_peer_fileshare.CString.{Text}
use peer_to_peer_fileshare.Posix.{Node, file, FileSystem, IsLawful}
use peer_to_peer_fileshare.ConnectFile.{scan_connection, print_int}
use peer_to_peer_fileshare.ConnectFile.RoundTrip.{IsWord}
use peer_to_peer_fileshare.Handle.GetFile.{scan_connection-contact}
use peer_to_peer_fileshare.Handle.Writing.{printed, update_self}
use peer_to_peer_fileshare.Handle.ListUsers.Rounds.{update_same}
use peer_to_peer_fileshare.Handle.Account.{line, write_connection}

module _ {F : FileSystem} (L : IsLawful F) (s t : F.State) (path address : Text) (port : ℤ)
    (empty : F.node s (F.resolve path) ≡ file []) where
  -- A call that returns 0 has written both lines.
  both_written :
      write_connection F address port (some path) s ≡ (0, t)
      → F.node t (F.resolve path) ≡ file (line address ++ line (print_int port))
  unfolding write_connection
  both_written e = elim (Bool-cases (F.fprintf s path (line address)).0) [
    | inr short ↦ cc (e, short)
    | inl ok ↦
        let first =
          printed L (F.node s) path _ s [] (line address) refl
            (update_same (F.node s) (F.resolve path) (file []) empty) ok in
        elim (Bool-cases
          (F.fprintf (F.fprintf s path (line address)).1 path (line (print_int port))).0) [
            | inr short ↦ cc (e, ok, short)
            | inl both ↦
                let ran : write_connection F address port (some path) s ≡ (
                  0,
                  (F.fprintf (F.fprintf s path (line address)).1 path (line (print_int port))).1,
                ) =
                  rw (ok, both) refl in
                let now = ap (λ (r : ℕ × F.State). r.1) (sym ran ∙ e) in
                ap (λ v. F.node v (F.resolve path)) (sym now)
                ∙ ap (λ f. f (F.resolve path))
                    (printed L (F.node s) path _ _ (line address) (line (print_int port)) refl first
                      both)
                ∙ update_self (F.node s) (F.resolve path) _
          ]
  ]

  read_back : (x y : Text) (v : Node) → (v ≡ file x) → (v ≡ file y) → x ≡ y
  read_back x y v h k = cc

  -- What write_connection has written to an empty file, if it returns 0, fopen and fscanf with
  -- "%s\n%d\n" read back: the address, if it is a word, and the port.
  pub write_connection-scan :
      (x : Text)
      → IsWord address
      → write_connection F address port (some path) s ≡ (0, t)
      → F.fopen_read t path ≡ some x
      → scan_connection x ≡ some (address, port)
  write_connection-scan x h e r = elim (L.fopen_read_some t path x r) [
    | inl held ↦
        ap scan_connection (read_back _ _ _ held (both_written e))
        ∙ scan_connection-contact address port h
    | inr (folder, k) ↦ cc (folder, both_written e)
  ]
