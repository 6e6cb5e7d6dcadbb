-- ===== src/Registry/View.antt =====
-- The registry that a tree of files stands for, and what single writes to the tree do to it.
use peer_to_peer_fileshare.Base.{
  ◌≤◌, ◌≡◌, ◌≢◌, refl, sym, subst, ap, Bool, true, false, ◌&&◌, Option, none, some, [], ◌∷◌, ◌==◌,
  ==_iff, ==_refl, list_eq, nat_eq, if◌then◌else◌, fun_ext, length, arith, Bool-cases, inl, inr,
}
use peer_to_peer_fileshare.CString.{Text, codes}
use peer_to_peer_fileshare.Posix.{Place, Node, absent, file, dir, is_present, update}
use peer_to_peer_fileshare.Registry.Spec.{Account, Registry, set, set_file, new_account}

abbrev pub text_of : Node → Option Text
text_of absent = none
text_of (file x) = some x
text_of dir = some []

abbrev pub account_at : (Place → Node) → Place → Text → Account
account_at f b u = record {
  online = text_of (f (codes "connect" ∷ u ∷ b));
  files = λ x. text_of (f (x ∷ codes "files" ∷ u ∷ b));
}

-- The users under the directory `b`.
unfoldable pub view : (Place → Node) → Place → Registry
view f b u = if is_present (f (u ∷ b)) then some (account_at f b u) else none

pub view-some :
    (f : Place → Node) (b : Place) (u : Text)
    → is_present (f (u ∷ b)) ≡ true
    → view f b u ≡ some (account_at f b u)
unfolding view
view-some f b u h = rw h

pub view-none :
    (f : Place → Node) (b : Place) (u : Text) → is_present (f (u ∷ b)) ≡ false → view f b u ≡ none
unfolding view
view-none f b u h = rw h

-- Places at different depths differ.
pub ne_length : (p q : Place) → length p ≢ length q → (p == q) ≡ false
ne_length p q h = ground (arith, ==_iff p q, λ (e : p ≡ q). h (ap length e))

module _ (b : Place) where
  pub up : (n : Text) → (b == n ∷ b) ≡ false
  up n = ne_length b (n ∷ b) (omega arith)

  pub down : (n : Text) → (n ∷ b == b) ≡ false
  down n = ne_length (n ∷ b) b (omega arith)

  pub up_two : (n m : Text) → (b == n ∷ m ∷ b) ≡ false
  up_two n m = ne_length b (n ∷ m ∷ b) (omega arith)

  pub down_two : (n m : Text) → (n ∷ m ∷ b == b) ≡ false
  down_two n m = ne_length (n ∷ m ∷ b) b (omega arith)

pub same : (b : Place) → (b == b) ≡ true
same b = ==_refl b

pub and_false : (x : Bool) → (x && false) ≡ false
and_false true = refl
and_false false = refl

pub ruleset depths = (up, down, up_two, down_two, and_false)

-- A registry that has `a` for `u` and agrees with `h` elsewhere.
pub set_unique :
    (u : Text) (a : Option Account) (g h : Registry)
    → g u ≡ a
    → ((w : Text) → (w == u) ≡ false → g w ≡ h w)
    → g ≡ set u a h
set_unique u a g h self others = fun_ext λ w. elim (Bool-cases (w == u)) [
  | inl e ↦ rw e (subst (λ x. g x ≡ a) (sym ((==_iff w u).0 e)) self)
  | inr e ↦ rw e (others w e)
]

module _ (f : Place → Node) (b : Place) (u : Text) where
  pub view-update_connect :
      (v : Node)
      → is_present (f (u ∷ b)) ≡ true
      → view (update f (codes "connect" ∷ u ∷ b) v) b
        ≡ set u (some (record (account_at f b u) { online = text_of v })) (view f b)
  unfolding view
  view-update_connect v h =
      set_unique u _ _ (view f b) (simp (depths, h, ==_refl u, same b)) (λ w e. simp (depths, e))

  pub view-update_published :
      (x : Text) (v : Node)
      → is_present (f (u ∷ b)) ≡ true
      → view (update f (x ∷ codes "files" ∷ u ∷ b) v) b
        ≡ set u
            (some (record (account_at f b u) {
              files = set_file x (text_of v) (account_at f b u).files;
            }))
            (view f b)
  unfolding view
  view-update_published x v h =
      set_unique u _ _ (view f b)
        (simp (depths, h)
          (ap
            (λ (m : Text → Option Text).
              some
                (let a : Account = record { online = (account_at f b u).online; files = m } in a))
            (fun_ext λ y. ground (arith, ==_refl u, same b))))
        (λ w e. simp (depths, e))

  pub view-update_files : (v : Node) → view (update f (codes "files" ∷ u ∷ b) v) b ≡ view f b
  unfolding view
  view-update_files v = fun_ext λ w. simp depths

  pub view-update_user :
      f (codes "connect" ∷ u ∷ b) ≡ absent
      → ((x : Text) → f (x ∷ codes "files" ∷ u ∷ b) ≡ absent)
      → view (update f (u ∷ b) dir) b ≡ set u (some new_account) (view f b)
  unfolding view
  view-update_user c h =
      set_unique u _ _ (view f b) (simp (depths, c, h, ==_refl u, same b)) (λ w e. simp (depths, e))

  pub view-update_gone : view (update f (u ∷ b) absent) b ≡ set u none (view f b)
  unfolding view
  view-update_gone =
      set_unique u _ _ (view f b) (simp (depths, ==_refl u, same b)) (λ w e. simp (depths, e))

-- A write at a place no deeper than the directory of users.
pub view-update_outside :
    (f : Place → Node) (b p : Place) (v : Node)
    → length p ≤ length b
    → view (update f p v) b ≡ view f b
unfolding view
view-update_outside f b p v h = fun_ext λ u. simp (
  ne_length (u ∷ b) p (omega (arith, h)),
  ne_length (codes "connect" ∷ u ∷ b) p (omega (arith, h)),
  λ (x : Text). ne_length (x ∷ codes "files" ∷ u ∷ b) p (omega (arith, h)),
)
