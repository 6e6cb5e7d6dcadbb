-- ===== src/Handle/Layout.antt =====
-- The layout of `./database/`: what stands where between two requests, if no call failed for another reason
-- than the tree.
use peer_to_peer_fileshare.Base.{
  ◌≡◌, some, refl, sym, subst, ap, ◌∙◌, inl, inr, true, false, Bool-cases, ◌∷◌, ◌==◌, ==_refl,
  ==_iff, list_eq, nat_eq, fun_ext, arith, length, ◌≤◌, ◌+◌,
}
use peer_to_peer_fileshare.CString.{Text, codes}
use peer_to_peer_fileshare.Posix.{Place, Node, absent, file, dir, is_present, is_dir, update}
use peer_to_peer_fileshare.Registry.View.{text_of, depths, same, ne_length}

-- What stands at the places of one user.
pub record Area : Type 0 where
  pub home : Node
  pub contact : Node
  pub folder : Node

abbrev pub area : (Place → Node) → Place → Text → Area
area f b u = record {
  home = f (u ∷ b);
  contact = f (codes "connect" ∷ u ∷ b);
  folder = f (codes "files" ∷ u ∷ b);
}

-- A user is a directory, its `connect` a file and its `files` a directory, which is there when the user is
-- connected.
pub record IsKept (a : Area) : Type 0 where
  pub home_dir : is_present a.home ≡ true → a.home ≡ dir
  pub contact_file : is_dir a.contact ≡ false
  pub folder_there : is_present a.contact ≡ true → a.folder ≡ dir
  pub folder_dir : is_present a.folder ≡ true → a.folder ≡ dir

pub file_of : (v : Node) (x : Text) → text_of v ≡ some x → is_dir v ≡ false → v ≡ file x
file_of v x h k = ground arith

-- No directory stands where the published files do, or beside them.
abbrev pub IsShallow : (Place → Node) → Place → Type 0
IsShallow f b = (u m x : Text) → is_dir (f (x ∷ m ∷ u ∷ b)) ≡ false

-- The directory of users is there, and every user's area is as above.
pub record IsLaid (f : Place → Node) (b : Place) : Type 0 where
  pub database : f b ≡ dir
  pub kept : (u : Text) → IsKept (area f b u)
  pub shallow : IsShallow f b

-- A change in one user's area.
pub IsLaid-after :
    (f g : Place → Node) (b : Place) (u : Text)
    → IsLaid f b
    → g b ≡ f b
    → ((w : Text) → (w == u) ≡ false → area g b w ≡ area f b w)
    → IsKept (area g b u)
    → IsShallow g b
    → IsLaid g b
IsLaid-after f g b u h e others self shallow = record {
  database = e ∙ h.database;
  kept = λ w. elim (Bool-cases (w == u)) [
    | inl here ↦ subst (λ v. IsKept (area g b v)) (sym ((==_iff w u).0 here)) self
    | inr there ↦ subst IsKept (sym (others w there)) (h.kept w)
  ];
  shallow = shallow;
}

module _ (f : Place → Node) (b : Place) (u : Text) where
  pub others_home :
      (v : Node) (w : Text) → (w == u) ≡ false → area (update f (u ∷ b) v) b w ≡ area f b w
  others_home v w e = simp (depths, e)

  others_contact :
      (v : Node) (w : Text)
      → (w == u) ≡ false
      → area (update f (codes "connect" ∷ u ∷ b) v) b w ≡ area f b w
  others_contact v w e = simp (depths, e)

  area_home : (v : Node) → area (update f (u ∷ b) v) b u ≡ record (area f b u) { home = v }
  area_home v = simp (depths, ==_refl u, same b)

  area_contact :
      (v : Node)
      → area (update f (codes "connect" ∷ u ∷ b) v) b u ≡ record (area f b u) { contact = v }
  area_contact v = simp (depths, ==_refl u, same b)

  area_folder :
      (v : Node)
      → area (update f (codes "files" ∷ u ∷ b) v) b u ≡ record (area f b u) { folder = v }
  area_folder v = simp (depths, ==_refl u, same b)

  others_folder :
      (v : Node) (w : Text)
      → (w == u) ≡ false
      → area (update f (codes "files" ∷ u ∷ b) v) b w ≡ area f b w
  others_folder v w e = simp (depths, e)

  others_published :
      (x : Text) (v : Node) (w : Text)
      → (w == u) ≡ false
      → area (update f (x ∷ codes "files" ∷ u ∷ b) v) b w ≡ area f b w
  others_published x v w e = simp depths

  area_published :
      (x : Text) (v : Node) → area (update f (x ∷ codes "files" ∷ u ∷ b) v) b u ≡ area f b u
  area_published x v = simp depths

  pub base_home : (v : Node) → update f (u ∷ b) v b ≡ f b
  base_home v = simp depths

  base_inside : (n : Text) (v : Node) → update f (n ∷ u ∷ b) v b ≡ f b
  base_inside n v = simp depths

  base_published : (x : Text) (v : Node) → update f (x ∷ codes "files" ∷ u ∷ b) v b ≡ f b
  base_published x v = rw (ne_length b (x ∷ codes "files" ∷ u ∷ b) (omega arith))

  -- Writes at the places of users, contacts and folders.
  IsShallow-over :
      (p : Place) (v : Node) → length p ≤ length b + 2 → IsShallow f b → IsShallow (update f p v) b
  IsShallow-over p v short h w m x =
      rw (ne_length (x ∷ m ∷ w ∷ b) p (omega (arith, short))) (h w m x)

  IsShallow-in :
      (p : Place) (v : Node) → is_dir v ≡ false → IsShallow f b → IsShallow (update f p v) b
  IsShallow-in p v plain h w m x = elim (Bool-cases (x ∷ m ∷ w ∷ b == p)) [
    | inl here ↦ rw here plain
    | inr there ↦ rw there (h w m x)
  ]

-- To write what is there.
pub update_same : (f : Place → Node) (p : Place) (v : Node) → f p ≡ v → update f p v ≡ f
update_same f p v h = fun_ext λ q. elim (Bool-cases (q == p)) [
  | inl here ↦ rw here (sym h ∙ ap f (sym ((==_iff q p).0 here)))
  | inr there ↦ rw there refl
]

module _ (f : Place → Node) (b : Place) (h : IsLaid f b) (u : Text) where
  user : IsKept (area f b u)
  user = h.kept u

  -- A new user's directory.
  pub IsLaid-home : IsLaid (update f (u ∷ b) dir) b
  IsLaid-home =
      IsLaid-after f _ b u h (base_home f b u dir) (others_home f b u dir)
        (subst IsKept (sym (area_home f b u dir)) (record {
          home_dir = λ e. refl;
          contact_file = user.contact_file;
          folder_there = user.folder_there;
          folder_dir = user.folder_dir;
        }))
        (IsShallow-over f b u (u ∷ b) dir (omega arith) h.shallow)

  -- A user's contact is gone.
  pub IsLaid-offline : IsLaid (update f (codes "connect" ∷ u ∷ b) absent) b
  IsLaid-offline =
      IsLaid-after f _ b u h (base_inside f b u _ absent) (others_contact f b u absent)
        (subst IsKept (sym (area_contact f b u absent)) (record {
          home_dir = user.home_dir;
          contact_file = refl;
          folder_there = λ e. cc;
          folder_dir = user.folder_dir;
        }))
        (IsShallow-over f b u (codes "connect" ∷ u ∷ b) absent (omega arith) h.shallow)

  -- A user's contact is written, and the folder is there.
  pub IsLaid-online :
      (x : Text)
      → IsLaid (update (update f (codes "connect" ∷ u ∷ b) (file x)) (codes "files" ∷ u ∷ b) dir) b
  IsLaid-online x =
      IsLaid-after f _ b u h (base_inside g b u _ dir ∙ base_inside f b u _ (file x))
        (λ w e. others_folder g b u dir w e ∙ others_contact f b u (file x) w e)
        (subst IsKept
          (sym (
            area_folder g b u dir
            ∙ ap (λ (a : Area). let c : Area = record a { folder = dir } in c)
                (area_contact f b u (file x))))
          (record {
            home_dir = user.home_dir;
            contact_file = refl;
            folder_there = λ e. refl;
            folder_dir = λ e. refl;
          }))
        (IsShallow-over g b u (codes "files" ∷ u ∷ b) dir (omega arith)
          (IsShallow-over f b u (codes "connect" ∷ u ∷ b) (file x) (omega arith) h.shallow))
    where
      g : Place → Node
      g = update f (codes "connect" ∷ u ∷ b) (file x)

  -- A published file is written or withdrawn.
  pub IsLaid-published :
      (x : Text) (v : Node) → is_dir v ≡ false → IsLaid (update f (x ∷ codes "files" ∷ u ∷ b) v) b
  IsLaid-published x v e =
      IsLaid-after f _ b u h (base_published f b u x v) (others_published f b u x v)
        (subst IsKept (sym (area_published f b u x v)) user)
        (IsShallow-in f b u (x ∷ codes "files" ∷ u ∷ b) v e h.shallow)
