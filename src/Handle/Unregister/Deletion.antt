-- ===== src/Handle/Unregister/Deletion.antt =====
-- Trees that differ by what was deleted under a place, and the depth of the directories there.
use peer_to_peer_fileshare.Base.{
  ℕ, zero, suc, ◌≡◌, ap, ◌⊎◌, Bool, true, false, [], ◌∷◌, arith, ◌==◌, ==_iff, ==_refl, list_eq,
  nat_eq, if◌then◌else◌,
}
use peer_to_peer_fileshare.CString.{Text}
use peer_to_peer_fileshare.Posix.{Place, Node, absent, dir, update}

-- Whether a place lies below `p`.
abbrev pub under : Place → Place → Bool
under p [] = false
under p (n ∷ q) = if q == p then true else under p q

-- From `f` to `g` nothing changes but what is gone under `p`.
abbrev pub OnlyDeletes : Place → (Place → Node) → (Place → Node) → Type 0
OnlyDeletes p f g = (q : Place) → (g q ≡ f q) ⊎ ((under p q ≡ true) × (g q ≡ absent))

under-cons : (n : Text) (p q : Place) → under (n ∷ p) q ≡ true → under p q ≡ true
under-cons n p [] h = cc
under-cons n p (m ∷ q) h = ground (arith, under-cons n p q, ==_iff q (n ∷ p), ==_iff q p, ==_refl p)

pub OnlyDeletes-trans :
    (p : Place) (f g h : Place → Node) → OnlyDeletes p f g → OnlyDeletes p g h → OnlyDeletes p f h
OnlyDeletes-trans p f g h a b q = ground (arith, a q, b q)

pub OnlyDeletes-child :
    (n : Text) (p : Place) (f g : Place → Node) → OnlyDeletes (n ∷ p) f g → OnlyDeletes p f g
OnlyDeletes-child n p f g a q = ground (arith, a q, under-cons n p q)

pub OnlyDeletes-update :
    (n : Text) (p : Place) (f g : Place → Node) → g ≡ update f (n ∷ p) absent → OnlyDeletes p f g
OnlyDeletes-update n p f g e q = ground (arith, ap (λ k. k q) e, ==_iff q (n ∷ p), under_child)
  where
    under_child : under p (n ∷ p) ≡ true
    under_child = rw (==_refl p)

-- What is gone stays gone.
pub OnlyDeletes-absent :
    (p q : Place) (f g : Place → Node) → OnlyDeletes p f g → f q ≡ absent → g q ≡ absent
OnlyDeletes-absent p q f g a e = ground (arith, a q)

-- Under `p` the directories are less than `n` levels deep.
abbrev pub Fits : ℕ → (Place → Node) → Place → Type 0
Fits zero f p = ⊥
Fits (suc n) f p = (m : Text) → f (m ∷ p) ≡ dir → Fits n f (m ∷ p)

pub Fits-OnlyDeletes :
    (n : ℕ) (p r : Place) (f g : Place → Node) → OnlyDeletes r f g → Fits n f p → Fits n g p
Fits-OnlyDeletes zero p r f g d h = h
Fits-OnlyDeletes (suc n) p r f g d h =
    λ m e. Fits-OnlyDeletes n (m ∷ p) r f g d (h m (ground (arith, d (m ∷ p))))
