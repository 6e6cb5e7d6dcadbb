-- ===== src/Handle/Unregister/Losses.antt =====
-- What an account loses where the tree only loses.
use peer_to_peer_fileshare.Base.{◌≡◌, ◌⊎◌, inl, inr, Bool-cases, true, none, ◌∷◌, arith}
use peer_to_peer_fileshare.CString.{Text, codes}
use peer_to_peer_fileshare.Posix.{Place, Node, is_present}
use peer_to_peer_fileshare.Registry.Deed.{Loses}
use peer_to_peer_fileshare.Registry.View.{view, view-none, view-some, text_of}
use peer_to_peer_fileshare.Handle.Unregister.Deletion.{OnlyDeletes}

module _ (p b : Place) (f g : Place → Node) (d : OnlyDeletes p f g) where
  text_less : (q : Place) → (text_of (g q) ≡ text_of (f q)) ⊎ (text_of (g q) ≡ none)
  text_less q = ground (arith, d q)

  pub OnlyDeletes-Loses : (u : Text) → Loses (view f b u) (view g b u)
  OnlyDeletes-Loses u = elim (Bool-cases (is_present (g (u ∷ b)))) [
    | inr gone ↦ rw (view-none g b u gone) tt
    | inl there ↦
        let before : is_present (f (u ∷ b)) ≡ true = ground (arith, d (u ∷ b)) in
        rw (view-some g b u there, view-some f b u before)
          (text_less (codes "connect" ∷ u ∷ b), λ x. text_less (x ∷ codes "files" ∷ u ∷ b))
  ]
