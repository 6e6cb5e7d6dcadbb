-- ===== src/Handle/Reliable/Removal.antt =====
-- `handle_unregister` on a reliable system.
use peer_to_peer_fileshare.Base.{
  ℕ, ◌≡◌, refl, sym, subst, ◌∙◌, ap, inl, inr, Bool-cases, Option-cases, false, none, some, ◌∷◌,
  arith, ◌==◌, ==_refl, list_eq, nat_eq,
}
use mathlib.Core.Option.{some-injective}
use peer_to_peer_fileshare.CString.{Text, codes}
use peer_to_peer_fileshare.Posix.{
  Place, Node, absent, is_present, is_dir, update, FileSystem, IsLawful, IsReliable,
}
use peer_to_peer_fileshare.Registry.{Registry, unregister_spec}
use peer_to_peer_fileshare.Registry.View.{view-some}
use peer_to_peer_fileshare.Handle.Paths.{user_path}
use peer_to_peer_fileshare.Handle.Places.{IsUser, base, user_place, resolve-user_path}
use peer_to_peer_fileshare.Handle.Access.{users, absent_below}
use peer_to_peer_fileshare.Handle.Standing.{absent_of}
use peer_to_peer_fileshare.Handle.Purge.{remove_files_in_directory, handle_unregister}
use peer_to_peer_fileshare.Handle.Unregister.{OnlyDeletes, Fits}
use peer_to_peer_fileshare.Handle.Unregister.Accounts.{
  not_under, kept_user, kept_below, frames, removed, unknown_user, out_of_fuel, unregister_refines,
  unregister-OnlyDeletes,
}
use peer_to_peer_fileshare.Handle.Layout.{
  area, IsKept, IsShallow, IsLaid-after, others_home, base_home,
}
use peer_to_peer_fileshare.Handle.Reliable.Does.{Laid, Does}

-- What stands beside a user, at the directory of users and in another's area, is the same.
abbrev Spares : (Place → Node) → (Place → Node) → Place → Text → Type 0
Spares f g b u = (g b ≡ f b) × ((w : Text) → (w == u) ≡ false → area g b w ≡ area f b w)

deletes_under-Spares :
    (f g : Place → Node) (b : Place) (u : Text) → OnlyDeletes (u ∷ b) f g → Spares f g b u
deletes_under-Spares f g b u d = (
  ground (arith, d b, not_under (u ∷ b) b (omega arith)),
  λ w e. simp (kept_user f g b u w d e, kept_below f g b u w d e),
)

module _ {F : FileSystem} (L : IsLawful F) (s : F.State) {u : Text} (h : IsUser u) where
  gone_too :
      (t v : F.State)
      → Spares (F.node s) (F.node t) (base F) u
      → F.rmdir t (user_path u) ≡ some v
      → Spares (F.node s) (F.node v) (base F) u
  gone_too t v (same_base, same_area) e =
      subst (λ g. Spares (F.node s) g (base F) u)
        (sym
          ((L.rmdir_some t _ v e).2 ∙ ap (λ q. update (F.node t) q absent) (resolve-user_path L h)))
        (
          base_home (F.node t) (base F) u absent ∙ same_base,
          λ w d. others_home (F.node t) (base F) u absent w d ∙ same_area w d,
        )

  unregister-Spares :
      (fuel : ℕ) (r : ℕ × F.State)
      → handle_unregister F fuel u s ≡ some r
      → Spares (F.node s) (F.node r.1) (base F) u
  unregister-Spares fuel r e = elim (Bool-cases (is_present (F.node s (user_place F u)))) [
    | inr free ↦
        ended (some-injective _ _ (sym (unknown_user L s h fuel free) ∙ e)) (refl, λ w d. refl)
    | inl p ↦ elim (Option-cases (remove_files_in_directory F fuel s (user_path u))) [
      | inl out ↦ absurd (cc (out_of_fuel L s h fuel p out, e))
      | inr (t, ran) ↦
          let spared = deletes_under-Spares _ _ _ u (frames L s h fuel t ran) in
          elim (Option-cases (F.rmdir t (user_path u))) [
            | inl stays ↦
                ended (some-injective _ _ (sym (removed L s h fuel t none p ran stays) ∙ e)) spared
            | inr (v, gone) ↦
                ended (some-injective _ _ (sym (removed L s h fuel t (some v) p ran gone) ∙ e))
                  (gone_too t v spared gone)
          ]
    ]
  ]
    where
      ended :
          {x : ℕ × F.State}
          → x ≡ r
          → Spares (F.node s) (F.node x.1) (base F) u
          → Spares (F.node s) (F.node r.1) (base F) u
      ended q k = subst (λ y. Spares (F.node s) (F.node y.1) (base F) u) q k

-- After `unregister_spec` the user is not registered.
unregister_spec-none : (u : Text) (g : Registry) → (unregister_spec u g).1 u ≡ none
unregister_spec-none u g = elim (Option-cases (g u)) [
  | inl e ↦ rw (e, unregister_spec) e
  | inr (a, e) ↦ rw (e, unregister_spec) (ground (arith, ==_refl u))
]

module _ {F : FileSystem} (L : IsLawful F) (t : F.State) (u : Text) where
  nobody : users F t u ≡ none → is_present (F.node t (user_place F u)) ≡ false
  nobody e = elim (Bool-cases (is_present (F.node t (user_place F u)))) [
    | inl p ↦ absurd (cc (e, view-some (F.node t) (base F) u p))
    | inr p ↦ p
  ]

  pub nothing-IsKept :
      is_present (F.node t (user_place F u)) ≡ false → IsKept (area (F.node t) (base F) u)
  nothing-IsKept p = record {
    home_dir = λ e. cc (p, e);
    contact_file = ap is_dir (below (codes "connect"));
    folder_there = λ e. cc (ap is_present (below (codes "connect")), e);
    folder_dir = λ e. cc (ap is_present (below (codes "files")), e);
  }
    where
      below : (n : Text) → F.node t (n ∷ u ∷ base F) ≡ absent
      below n = absent_below L t _ n (ground (arith, absent_of _ p))

module _ {F : FileSystem} (L : IsLawful F) (R : IsReliable F) (s : F.State) (laid : Laid F s)
    {u : Text} (h : IsUser u) where
  -- No directory lies deeper than the folder in a user's directory.
  laid-Fits : Fits 2 (F.node s) (user_place F u)
  laid-Fits = λ m e n d. cc (d, laid.shallow u m n)

  deleted-IsShallow : (g : Place → Node) → OnlyDeletes (base F) (F.node s) g → IsShallow g (base F)
  deleted-IsShallow g d = λ w m x. ground (arith, d (x ∷ m ∷ w ∷ base F), laid.shallow w m x)

  pub unregister-Does :
      (r : ℕ × F.State) × (handle_unregister F 2 u s ≡ some r)
      × Does F r (unregister_spec u (users F s))
  unregister-Does =
      let (r, ran, carried) =
        unregister_refines L s h R 2 laid-Fits (λ p. (laid.kept u).home_dir p) in
      let (same_base, same_area) = unregister-Spares L s h 2 r ran in
      let left : users F r.1 u ≡ none =
        ap (λ (x : ℕ × Registry). x.1 u) carried ∙ unregister_spec-none u (users F s) in
      (
        r,
        ran,
        (
          carried,
          IsLaid-after (F.node s) (F.node r.1) (base F) u laid same_base same_area
              (nothing-IsKept L r.1 u (nobody L r.1 u left))
              (deleted-IsShallow (F.node r.1) (unregister-OnlyDeletes L s h 2 r ran)),
        ),
      )
