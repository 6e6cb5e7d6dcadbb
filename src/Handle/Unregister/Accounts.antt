-- ===== src/Handle/Unregister/Accounts.antt =====
-- `handle_unregister` against `unregister_spec`, and the accounts of the other users.
use peer_to_peer_fileshare.Base.{
  ℕ, ◌≤◌, ◌≡◌, ◌≢◌, refl, sym, ◌∙◌, ap, subst, fun_ext, inl, inr, Bool-cases, Option-cases, true,
  false, Option, none, some, [], ◌∷◌, ◌++◌, arith, length, ◌==◌, ==_iff, list_eq, nat_eq,
}
use mathlib.Core.Option.{some-injective}
use peer_to_peer_fileshare.CString.{Text, codes}
use peer_to_peer_fileshare.Posix.{
  Place, Node, absent, dir, update, is_present, FileSystem, IsLawful, IsReliable,
}
use peer_to_peer_fileshare.Registry.{set, unregister_spec}
use peer_to_peer_fileshare.Registry.View.{view, view-none, view-some, view-update_gone, down}
use peer_to_peer_fileshare.Handle.Access.{users, access-user_path, Carries, carries}
use peer_to_peer_fileshare.Handle.Paths.{user_path}
use peer_to_peer_fileshare.Handle.Places.{
  IsUser, base, user_place, user_path_lem, resolve-user_path,
}
use peer_to_peer_fileshare.Handle.Purge.{remove_files_in_directory, handle_unregister}
use peer_to_peer_fileshare.Handle.Unregister.Deletion.{
  under, OnlyDeletes, OnlyDeletes-trans, OnlyDeletes-child, OnlyDeletes-update, Fits,
}
use peer_to_peer_fileshare.Handle.Unregister.Frame.{remove_files_in_directory-Frames}
use peer_to_peer_fileshare.Handle.Unregister.Clean.{remove_files_in_directory-Cleans}

pub not_under : (p q : Place) → length q ≤ length p → under p q ≡ false
not_under p [] h = refl
not_under p (n ∷ q) h = ground (arith, not_under p q, ==_iff q p, λ (e : q ≡ p). ap length e)

module _ (f g : Place → Node) (b : Place) (u w : Text) (d : OnlyDeletes (u ∷ b) f g)
    (other : (w == u) ≡ false) where
  pub kept_user : g (w ∷ b) ≡ f (w ∷ b)
  kept_user = ground (arith, d (w ∷ b), not_under (u ∷ b) (w ∷ b) (omega arith))

  pub kept_below : (n : Text) → g (n ∷ w ∷ b) ≡ f (n ∷ w ∷ b)
  kept_below n = ground (arith, d (n ∷ w ∷ b), not_under (u ∷ b) (w ∷ b) (omega arith), ==_iff w u)

  kept_two : (n m : Text) → g (n ∷ m ∷ w ∷ b) ≡ f (n ∷ m ∷ w ∷ b)
  kept_two n m =
      ground
        (arith, d (n ∷ m ∷ w ∷ b), not_under (u ∷ b) (w ∷ b) (omega arith), ==_iff w u, down b w)

  pub view-OnlyDeletes : view g b w ≡ view f b w
  unfolding view
  view-OnlyDeletes = simp (kept_user, kept_below, kept_two)

module _ {F : FileSystem} (L : IsLawful F) (s : F.State) {u : Text} (h : IsUser u) where
  -- The path in the form that the results on directories want.
  pub inner : Text
  inner = codes "/database/" ++ u

  pub same_path : user_path u ≡ b'.' ∷ inner
  unfolding inner
  same_path = user_path_lem h

  pub same_place : F.resolve (b'.' ∷ inner) ≡ user_place F u
  same_place = ap F.resolve (sym same_path) ∙ resolve-user_path L h

  pub frames :
      (fuel : ℕ) (t : F.State)
      → remove_files_in_directory F fuel s (user_path u) ≡ some t
      → OnlyDeletes (user_place F u) (F.node s) (F.node t)
  frames fuel t e =
      subst (λ q. OnlyDeletes q (F.node s) (F.node t)) same_place
        (remove_files_in_directory-Frames L fuel s t b'.' inner
          (ap (remove_files_in_directory F fuel s) (sym same_path) ∙ e))

  pub unknown_user :
      (fuel : ℕ)
      → is_present (F.node s (user_place F u)) ≡ false
      → handle_unregister F fuel u s ≡ some (1, s)
  unfolding handle_unregister
  unknown_user fuel p = ground (arith, access-user_path L s h)

  pub removed :
      (fuel : ℕ) (t : F.State) (o : Option F.State)
      → is_present (F.node s (user_place F u)) ≡ true
      → remove_files_in_directory F fuel s (user_path u) ≡ some t
      → F.rmdir t (user_path u) ≡ o
      → handle_unregister F fuel u s ≡ elim o [ none ↦ some (2, t) | some v ↦ some (0, v) ]
  unfolding handle_unregister
  removed fuel t o p e r = ground (arith, access-user_path L s h)

  pub out_of_fuel :
      (fuel : ℕ)
      → is_present (F.node s (user_place F u)) ≡ true
      → remove_files_in_directory F fuel s (user_path u) ≡ none
      → handle_unregister F fuel u s ≡ none
  unfolding handle_unregister
  out_of_fuel fuel p e = ground (arith, access-user_path L s h)

  without :
      (t v : F.State)
      → OnlyDeletes (user_place F u) (F.node s) (F.node t)
      → F.rmdir t (user_path u) ≡ some v
      → users F v ≡ set u none (users F s)
  without t v d e =
      ap (λ g. view g (base F))
        ((L.rmdir_some t _ v e).2 ∙ ap (λ q. update (F.node t) q absent) (resolve-user_path L h))
      ∙ view-update_gone (F.node t) (base F) u
      ∙ fun_ext λ w. elim (Bool-cases (w == u)) [
        | inl same ↦ rw same
        | inr other ↦ rw other (view-OnlyDeletes (F.node s) (F.node t) (base F) u w d other)
      ]

  -- With fuel for the depth of the user's directory, on a system whose calls fail for no reason
  -- but the tree, `handle_unregister` returns, and what it did is `unregister_spec`: the user is
  -- no longer registered and all else is as before, with code 0, or it was not registered, with
  -- code 1. The name is one that the buffers hold, and what stands at the user's place is a
  -- directory.
  pub unregister_refines :
      IsReliable F
      → (fuel : ℕ) → Fits fuel (F.node s) (user_place F u)
      → (is_present (F.node s (user_place F u)) ≡ true → F.node s (user_place F u) ≡ dir)
      → (r : ℕ × F.State) × (handle_unregister F fuel u s ≡ some r)
        × Carries F r (unregister_spec u (users F s))
  unregister_refines R fuel fits whole =
      elim (Bool-cases (is_present (F.node s (user_place F u)))) [
        | inr free ↦ (
          (1, s),
          unknown_user fuel free,
          carries F 1 s _ refl refl (rw (view-none (F.node s) (base F) u free, unregister_spec)),
        )
        | inl p ↦
            let (t, ran, bare) =
              remove_files_in_directory-Cleans L R fuel s b'.' inner
                (subst (Fits fuel (F.node s)) (sym same_place) fits) in
            let ran' = ap (remove_files_in_directory F fuel s) same_path ∙ ran in
            let d = frames fuel t ran' in
            let still : F.node t (user_place F u) ≡ dir =
              ground
                (arith, d (user_place F u), whole p, not_under (user_place F u) (user_place F u)) in
            let (v, gone) =
              R.rmdir_ok t (user_path u) u (base F) (resolve-user_path L h) still
                (subst (λ q. (m : Text) → F.node t (m ∷ q) ≡ absent) same_place bare) in
            (
              (0, v),
              removed fuel t (some v) p ran' gone,
              carries F 0 v _ refl (without t v d gone)
                  (rw (view-some (F.node s) (base F) u p, unregister_spec)),
            )
      ]

  -- However a call of `handle_unregister` that returns ends, and whatever fails in it, no other
  -- user's account changes. The name is one that the buffers hold.
  pub unregister-others :
      (fuel : ℕ) (w : Text) (r : ℕ × F.State)
      → w ≢ u
      → handle_unregister F fuel u s ≡ some r
      → users F r.1 w ≡ users F s w
  unregister-others fuel w r ne e = elim (Bool-cases (is_present (F.node s (user_place F u)))) [
    | inr free ↦ ended (some-injective _ _ (sym (unknown_user fuel free) ∙ e)) refl
    | inl p ↦ elim (Option-cases (remove_files_in_directory F fuel s (user_path u))) [
      | inl out ↦ cc (out_of_fuel fuel p out)
      | inr (t, ran) ↦
          let other : (w == u) ≡ false = ground (arith, ==_iff w u) in
          let kept =
            view-OnlyDeletes (F.node s) (F.node t) (base F) u w (frames fuel t ran) other in
          elim (Option-cases (F.rmdir t (user_path u))) [
            | inl stays ↦
                ended (some-injective _ _ (sym (removed fuel t none p ran stays) ∙ e)) kept
            | inr (v, gone) ↦
                ended (some-injective _ _ (sym (removed fuel t (some v) p ran gone) ∙ e))
                  (ap (λ g. g w) (without t v (frames fuel t ran) gone) ∙ rw other)
          ]
    ]
  ]
    where
      ended : {x : ℕ × F.State} → x ≡ r → users F x.1 w ≡ users F s w → users F r.1 w ≡ users F s w
      ended q k = subst (λ y. users F y.1 w ≡ users F s w) q k

  -- Whatever fails in it, the tree below the directory of users only loses.
  pub unregister-OnlyDeletes :
      (fuel : ℕ) (r : ℕ × F.State)
      → handle_unregister F fuel u s ≡ some r
      → OnlyDeletes (base F) (F.node s) (F.node r.1)
  unregister-OnlyDeletes fuel r e = elim (Bool-cases (is_present (F.node s (user_place F u)))) [
    | inr free ↦ ended (some-injective _ _ (sym (unknown_user fuel free) ∙ e)) (λ q. inl refl)
    | inl p ↦ elim (Option-cases (remove_files_in_directory F fuel s (user_path u))) [
      | inl out ↦ cc (out_of_fuel fuel p out)
      | inr (t, ran) ↦
          let less = OnlyDeletes-child u (base F) (F.node s) (F.node t) (frames fuel t ran) in
          elim (Option-cases (F.rmdir t (user_path u))) [
            | inl stays ↦
                ended (some-injective _ _ (sym (removed fuel t none p ran stays) ∙ e)) less
            | inr (v, gone) ↦
                ended (some-injective _ _ (sym (removed fuel t (some v) p ran gone) ∙ e)) (
                  OnlyDeletes-trans (base F) (F.node s) (F.node t) (F.node v) less (
                    OnlyDeletes-update u (base F) (F.node t) (F.node v) (
                      (L.rmdir_some t _ v gone).2
                      ∙ ap (λ q. update (F.node t) q absent) (resolve-user_path L h))))
          ]
    ]
  ]
    where
      ended :
          {x : ℕ × F.State}
          → x ≡ r
          → OnlyDeletes (base F) (F.node s) (F.node x.1)
          → OnlyDeletes (base F) (F.node s) (F.node r.1)
      ended q k = subst (λ y. OnlyDeletes (base F) (F.node s) (F.node y.1)) q k

  -- A call that returns 0 has removed the account.
  pub unregister-done :
      (fuel : ℕ) (v : F.State)
      → handle_unregister F fuel u s ≡ some (0, v)
      → users F v ≡ set u none (users F s)
  unregister-done fuel v e = elim (Bool-cases (is_present (F.node s (user_place F u)))) [
    | inr free ↦ cc (e, unknown_user fuel free)
    | inl p ↦ elim (Option-cases (remove_files_in_directory F fuel s (user_path u))) [
      | inl out ↦ cc (e, out_of_fuel fuel p out)
      | inr (t, ran) ↦ elim (Option-cases (F.rmdir t (user_path u))) [
        | inl kept ↦ cc (e, removed fuel t none p ran kept)
        | inr (x, gone) ↦
            let same : x ≡ v =
              ap (λ (r : ℕ × F.State). r.1)
                (some-injective _ _ (sym (removed fuel t (some x) p ran gone) ∙ e)) in
            subst (λ y. users F y ≡ set u none (users F s)) same
              (without t x (frames fuel t ran) gone)
      ]
    ]
  ]
