-- ===== src/Handle/ListContent/Rounds.antt =====
-- What `handle_list_content` is to print, and single rounds of its loop.
use peer_to_peer_fileshare.Base.{
  ℕ, ◌+◌, ◌≡◌, refl, true, false, Option, none, some, List, [], ◌∷◌, ◌++◌, arith, ==_refl, list_eq,
  nat_eq,
}
use peer_to_peer_fileshare.CString.{Text, buffer_size}
use peer_to_peer_fileshare.Posix.{
  Place, Node, absent, file, dir, is_present, Dirent, dt_reg, FileSystem,
}
use peer_to_peer_fileshare.Registry.{Account, Registry}
use peer_to_peer_fileshare.Registry.View.{text_of}
use peer_to_peer_fileshare.Handle.Paths.{content_path}
use peer_to_peer_fileshare.Handle.Purge.{is_link}
use peer_to_peer_fileshare.Handle.Listing.{go, fgets, content_start, content_end, list_file}
use peer_to_peer_fileshare.Handle.Unregister.{under}

abbrev pub file_text : Text → Option Account → Option Text
file_text f none = none
file_text f (some a) = a.files f

-- The description that a user published for a file, and the line of it that is told.
abbrev pub file_of : Registry → Text → Text → Option Text
file_of g u f = file_text f (g u)

abbrev pub told : Option Text → Option Text
told none = none
told (some d) = fgets buffer_size d

abbrev pub lines_of : Text → Option Text → Text
lines_of name none = []
lines_of name (some d) = content_start name ++ content_end d

abbrev pub one_of : Option Text → ℕ
one_of none = 0
one_of (some d) = 1

-- A line for each published file, in the order of the directory, and how many they are.
abbrev pub content_text : Registry → Text → List Dirent → Text
content_text g u [] = []
content_text g u (e ∷ es) = lines_of e.d_name (told (file_of g u e.d_name)) ++ content_text g u es

abbrev pub content_count : Registry → Text → List Dirent → ℕ
content_count g u [] = 0
content_count g u (e ∷ es) = one_of (told (file_of g u e.d_name)) + content_count g u es

pub under_three : (b : Place) (n m k : Text) → under b (n ∷ m ∷ k ∷ b) ≡ true
under_three b n m k = ground (arith, ==_refl b)

fgets-nil : fgets buffer_size [] ≡ none
fgets-nil = unfold fgets in refl

pub told_file :
    (v : Node) (x d : Text) → text_of v ≡ some x → fgets buffer_size x ≡ some d → v ≡ file x
told_file v x d h k = ground (arith, fgets-nil)

pub present-text_of : (v : Node) → is_present v ≡ true → (x : Text) × (text_of v ≡ some x)
present-text_of absent h = cc
present-text_of (file x) h = (x, refl)
present-text_of dir h = ([], refl)

module _ (F : FileSystem) (owner_path content_list : Text) where
  pub skips_link :
      (e : Dirent) (n : ℕ) (t : F.State)
      → is_link e.d_name ≡ true
      → list_file F owner_path content_list e n t ≡ go n t
  unfolding list_file
  skips_link e n t h = ground arith

  abbrev pub started : F.State → Text → F.State
  started t name = (F.fprintf t content_list (content_start name)).1

  pub prints :
      (e : Dirent) (n : ℕ) (t : F.State) (x d : Text)
      → e.d_type ≡ dt_reg
      → is_link e.d_name ≡ false
      → F.fopen_read (started t e.d_name) (content_path owner_path e.d_name) ≡ some x
      → fgets buffer_size x ≡ some d
      → list_file F owner_path content_list e n t
        ≡ go (n + 1) (F.fprintf (started t e.d_name) content_list (content_end d)).1
  unfolding list_file
  prints e n t x d k l o c = rw (k, l, o, c)
