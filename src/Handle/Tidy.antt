-- ===== src/Handle/Tidy.antt =====
-- What stands where in `./database/` whatever calls fail: no file where a directory belongs, no directory where
-- a file does.
pub mod Stable
pub mod Handlers
use peer_to_peer_fileshare.Base.{
  ◌+◌, ◌<◌, ℕ, ◌≤◌, ◌≡◌, ◌≢◌, refl, sym, subst, ap, ◌∙◌, Bool, true, false, Bool-cases, inl, inr,
  Option, none, some, Option-cases, [], ◌∷◌, length, ◌<◌, ◌==◌, ==_iff, list_eq, nat_eq, arith,
  if◌then◌else◌, zero, suc,
}
use peer_to_peer_fileshare.Base.Int.{ℤ}
use peer_to_peer_fileshare.CString.{Text, codes}
use peer_to_peer_fileshare.Posix.{
  Place, Node, absent, file, dir, is_dir, is_present, update, IsName, FileSystem, IsLawful,
}
use peer_to_peer_fileshare.Registry.View.{ne_length}
use peer_to_peer_fileshare.ConnectFile.{print_int}
use peer_to_peer_fileshare.Handle.Paths.{user_path, connect_path, files_path, published_path}
use peer_to_peer_fileshare.Handle.Places.{
  IsUser, base, user_place, connect_place, files_place, published_place, resolve-user_path,
  resolve-connect_path, resolve-files_path, resolve-published_path,
}
use peer_to_peer_fileshare.Handle.Access.{users}
use peer_to_peer_fileshare.Handle.Writing.{opened, printed_some}
use peer_to_peer_fileshare.Handle.Account.{
  line, handle_register, write_connection, connect_folder, handle_connect, handle_publish,
  handle_delete, handle_disconnect,
}
use peer_to_peer_fileshare.Handle.Unregister.{under, OnlyDeletes}
use peer_to_peer_fileshare.Handle.Unregister.Accounts.{not_under}
use peer_to_peer_fileshare.Handle.Layout.{IsShallow, IsLaid}

abbrev pub is_file : Node → Bool
is_file absent = false
is_file (file x) = true
is_file dir = false

-- The directory of users is there; no file stands for a user or for its `files`, and no directory for its
-- `connect` or at the depth of the published files.
pub record IsTidy (f : Place → Node) (b : Place) : Type 0 where
  pub database : f b ≡ dir
  pub homes : (u : Text) → is_file (f (u ∷ b)) ≡ false
  pub contacts : (u : Text) → is_dir (f (codes "connect" ∷ u ∷ b)) ≡ false
  pub folders : (u : Text) → is_file (f (codes "files" ∷ u ∷ b)) ≡ false
  pub shallow : IsShallow f b

no_file : (v : Node) → (is_present v ≡ true → v ≡ dir) → is_file v ≡ false
no_file absent h = refl
no_file (file x) h = cc (h refl)
no_file dir h = refl

-- The layout on a reliable system is one of these.
pub IsLaid-IsTidy : (f : Place → Node) (b : Place) → IsLaid f b → IsTidy f b
IsLaid-IsTidy f b h = record {
  database = h.database;
  homes = λ u. no_file _ (h.kept u).home_dir;
  contacts = λ u. (h.kept u).contact_file;
  folders = λ u. no_file _ (h.kept u).folder_dir;
  shallow = h.shallow;
}

-- What is deleted below the directory of users leaves it so.
pub IsTidy-less : (f g : Place → Node) (b : Place) → IsTidy f b → OnlyDeletes b f g → IsTidy g b
IsTidy-less f g b h d = record {
  database = ground (arith, d b, not_under b b (omega arith), h.database);
  homes = λ u. ground (arith, d (u ∷ b), h.homes u);
  contacts = λ u. ground (arith, d (codes "connect" ∷ u ∷ b), h.contacts u);
  folders = λ u. ground (arith, d (codes "files" ∷ u ∷ b), h.folders u);
  shallow = λ u m x. ground (arith, d (x ∷ m ∷ u ∷ b), h.shallow u m x);
}

-- A change at one place.
IsTidy-at :
    (f : Place → Node) (b p : Place) (v : Node)
    → IsTidy f b
    → p ≢ b
    → ((u : Text) → p ≡ u ∷ b → is_file v ≡ false)
    → ((u : Text) → p ≡ codes "connect" ∷ u ∷ b → is_dir v ≡ false)
    → ((u : Text) → p ≡ codes "files" ∷ u ∷ b → is_file v ≡ false)
    → ((u m x : Text) → p ≡ x ∷ m ∷ u ∷ b → is_dir v ≡ false)
    → IsTidy (update f p v) b
IsTidy-at f b p v h apart home contact folder deep = record {
  database = ground (arith, h.database, ==_iff b p, apart);
  homes = λ u. ground (arith, h.homes u, ==_iff (u ∷ b) p, home u);
  contacts = λ u. ground (arith, h.contacts u, ==_iff (codes "connect" ∷ u ∷ b) p, contact u);
  folders = λ u. ground (arith, h.folders u, ==_iff (codes "files" ∷ u ∷ b) p, folder u);
  shallow = λ u m x. ground (arith, h.shallow u m x, ==_iff (x ∷ m ∷ u ∷ b) p, deep u m x);
}

module _ (f : Place → Node) (b : Place) (h : IsTidy f b) (u : Text) where
  abbrev longer : (p q : Place) → length p ≢ length q → p ≡ q → ⊥
  longer p q n e = n (ap length e)

  pub IsTidy-home : IsTidy (update f (u ∷ b) dir) b
  IsTidy-home =
      IsTidy-at f b (u ∷ b) dir h (longer _ _ (omega arith)) (λ w e. refl)
        (λ w e. absurd (longer _ _ (omega arith) e)) (λ w e. refl)
        (λ w m x e. absurd (longer _ _ (omega arith) e))

  pub IsTidy-contact : (x : Text) → IsTidy (update f (codes "connect" ∷ u ∷ b) (file x)) b
  IsTidy-contact x =
      IsTidy-at f b _ (file x) h (longer _ _ (omega arith))
        (λ w e. absurd (longer _ _ (omega arith) e)) (λ w e. refl) (λ w e. cc) (λ w m y e. refl)

  pub IsTidy-folder : IsTidy (update f (codes "files" ∷ u ∷ b) dir) b
  IsTidy-folder =
      IsTidy-at f b _ dir h (longer _ _ (omega arith)) (λ w e. refl) (λ w e. cc) (λ w e. refl)
        (λ w m y e. absurd (longer _ _ (omega arith) e))

  pub IsTidy-published : (n x : Text) → IsTidy (update f (n ∷ codes "files" ∷ u ∷ b) (file x)) b
  IsTidy-published n x =
      IsTidy-at f b _ (file x) h (longer _ _ (omega arith))
        (λ w e. absurd (longer _ _ (omega arith) e)) (λ w e. refl)
        (λ w e. absurd (longer _ _ (omega arith) e)) (λ w m y e. refl)

  pub IsTidy-gone : (p : Place) → p ≢ b → IsTidy (update f p absent) b
  IsTidy-gone p apart =
      IsTidy-at f b p absent h apart (λ w e. refl) (λ w e. refl) (λ w e. refl) (λ w m x e. refl)

-- A change beside the directory of users.
pub IsTidy-beside :
    (f : Place → Node) (b p : Place) (v : Node)
    → p ≢ b
    → length p ≤ length b
    → IsTidy f b
    → IsTidy (update f p v) b
IsTidy-beside f b p v apart short h =
    IsTidy-at f b p v h apart (λ w e. absurd (omega (arith, short, ap length e)))
      (λ w e. absurd (omega (arith, short, ap length e)))
      (λ w e. absurd (omega (arith, short, ap length e)))
      (λ w m x e. absurd (omega (arith, short, ap length e)))
