-- ===== src/Handle/Tidy/Stable.antt =====
-- Properties of the tree that no change which the server makes can break.
use peer_to_peer_fileshare.Base.{
  ◌+◌, ◌<◌, ◌≤◌, ◌≡◌, ◌≢◌, ap, false, ◌∷◌, length, ==_iff, list_eq, nat_eq, arith, [],
}
use peer_to_peer_fileshare.CString.{Text, codes}
use peer_to_peer_fileshare.Posix.{Place, Node, absent, file, dir, is_dir, update, FileSystem}
use peer_to_peer_fileshare.Registry.View.{ne_length}
use peer_to_peer_fileshare.Handle.Places.{base}
use peer_to_peer_fileshare.Handle.Unregister.{OnlyDeletes}
use peer_to_peer_fileshare.Handle.Tidy.{
  IsTidy, IsTidy-home, IsTidy-contact, IsTidy-folder, IsTidy-published, IsTidy-gone, IsTidy-less,
  IsTidy-beside,
}

-- The directory of users is tidy.
abbrev pub Tidy : (F : FileSystem) → F.State → Type 0
Tidy F s = IsTidy (F.node s) (base F)

-- A property of the tree that no change which the server makes can break.
pub record IsStable (b : Place) (P : (Place → Node) → Type 0) : Type 0 where
  pub home : (f : Place → Node) (u : Text) → P f → P (update f (u ∷ b) dir)
  pub contact :
      (f : Place → Node) (u x : Text) → P f → P (update f (codes "connect" ∷ u ∷ b) (file x))
  pub folder : (f : Place → Node) (u : Text) → P f → P (update f (codes "files" ∷ u ∷ b) dir)
  pub published :
      (f : Place → Node) (u n x : Text) → P f → P (update f (n ∷ codes "files" ∷ u ∷ b) (file x))
  pub gone : (f : Place → Node) (p : Place) → length b < length p → P f → P (update f p absent)
  pub less : (f g : Place → Node) → P f → OnlyDeletes b f g → P g
  pub beside :
      (f : Place → Node) (p : Place) (v : Node)
      → p ≢ b
      → length p ≤ length b
      → is_dir v ≡ false
      → P f
      → P (update f p v)

pub IsTidy-IsStable : (b : Place) → IsStable b (λ f. IsTidy f b)
IsTidy-IsStable b = record {
  home = λ f u h. IsTidy-home f b h u;
  contact = λ f u x h. IsTidy-contact f b h u x;
  folder = λ f u h. IsTidy-folder f b h u;
  published = λ f u n x h. IsTidy-published f b h u n x;
  gone = λ f p far h. IsTidy-gone f b h [] p (λ e. absurd (omega (arith, far, ap length e)));
  less = λ f g h d. IsTidy-less f g b h d;
  beside = λ f p v apart short plain h. IsTidy-beside f b p v apart short h;
}

-- Where a name of nine bytes or more could stand in the directory `w`, no directory does.
abbrev pub IsClear : Place → (Place → Node) → Type 0
IsClear w f = (n : Text) → 9 ≤ length n → is_dir (f (n ∷ w)) ≡ false

module _ (w : Place) (name : Text) where
  -- A change further down.
  IsClear-below :
      (f : Place → Node) (p : Place) (v : Node)
      → length w + 1 < length p
      → IsClear w f
      → IsClear w (update f p v)
  IsClear-below f p v far h n long =
      rw (ne_length (n ∷ w) p (λ e. absurd (omega (arith, e, far)))) (h n long)

  pub IsClear-IsStable : IsStable (name ∷ w) (IsClear w)
  IsClear-IsStable = record {
    home = λ f u. IsClear-below f (u ∷ name ∷ w) dir (omega arith);
    contact = λ f u x. IsClear-below f (codes "connect" ∷ u ∷ name ∷ w) (file x) (omega arith);
    folder = λ f u. IsClear-below f (codes "files" ∷ u ∷ name ∷ w) dir (omega arith);
    published =
        λ f u n x. IsClear-below f (n ∷ codes "files" ∷ u ∷ name ∷ w) (file x) (omega arith);
    gone = λ f p far. IsClear-below f p absent (omega (arith, far));
    less = λ f g h d n long. ground (arith, d (n ∷ w), h n long);
    beside = λ f p v apart short plain h n long. ground (arith, h n long, plain, ==_iff (n ∷ w) p);
  }

-- Two such properties at once.
abbrev pub Both : ((Place → Node) → Type 0) → ((Place → Node) → Type 0) → (Place → Node) → Type 0
Both P Q f = P f × Q f

pub Both-IsStable :
    (b : Place) (P Q : (Place → Node) → Type 0)
    → IsStable b P
    → IsStable b Q
    → IsStable b (Both P Q)
Both-IsStable b P Q h k = record {
  home = λ f u (x, y). (h.home f u x, k.home f u y);
  contact = λ f u a (x, y). (h.contact f u a x, k.contact f u a y);
  folder = λ f u (x, y). (h.folder f u x, k.folder f u y);
  published = λ f u n a (x, y). (h.published f u n a x, k.published f u n a y);
  gone = λ f p far (x, y). (h.gone f p far x, k.gone f p far y);
  less = λ f g (x, y) d. (h.less f g x d, k.less f g y d);
  beside = λ f p v apart short plain (x, y).
      (h.beside f p v apart short plain x, k.beside f p v apart short plain y);
}
