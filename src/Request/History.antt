-- ===== src/Request/History.antt =====
-- Histories of the files: one operation on the accounts after the other.
use peer_to_peer_fileshare.Base.{
  ℕ, zero, suc, ◌≡◌, ◌≢◌, refl, sym, ap, ◌∙◌, subst, Option, none, some, list_eq, nat_eq,
}
use peer_to_peer_fileshare.CString.{Text}
use peer_to_peer_fileshare.Posix.{FileSystem, IsLawful}
use peer_to_peer_fileshare.Registry.{set}
use peer_to_peer_fileshare.Registry.Deed.{Deed, Loses, nothing}
use peer_to_peer_fileshare.Handle.Places.{IsUser, base}
use peer_to_peer_fileshare.Handle.Access.{users}
use peer_to_peer_fileshare.Handle.Purge.{handle_unregister}
use peer_to_peer_fileshare.Handle.Unregister.Accounts.{
  unregister-others, unregister-OnlyDeletes, unregister-done,
}
use peer_to_peer_fileshare.Handle.Unregister.Losses.{OnlyDeletes-Loses}
use peer_to_peer_fileshare.Request.{unregister_call}

module _ (F : FileSystem) (fuel : F.State → ℕ) where
  -- What a removal left: the whole account is gone if the code is 0; otherwise things of it.
  abbrev pub IsRemoval : Text → F.State → F.State → Type 0
  IsRemoval u s t =
      (t ≡ (unregister_call F fuel u s).1)
      × ((unregister_call F fuel u s).0 ≡ some 0 → users F t ≡ set u none (users F s))
      × ((w : Text) → w ≢ u → users F t w ≡ users F s w)
      × Loses (users F s u) (users F t u)

  -- One operation of the registry as a whole, or what a call of `handle_unregister` did, which can stop halfway.
  pub data Change (s t : F.State) : Type 0 where
    done : Deed (users F s) (users F t) → Change s t
    removes : (u : Text) → IsRemoval u s t → Change s t

  pub data History (s : F.State) : F.State → Type 0 where
    begun : History s s
    then_change : {t u : F.State} → History s t → Change t u → History s u

pub History-trans :
    {F : FileSystem} {fuel : F.State → ℕ} {s t u : F.State}
    → History F fuel s t
    → History F fuel t u
    → History F fuel s u
History-trans r begun = r
History-trans r (then_change x d) = then_change (History-trans r x) d

module _ {F : FileSystem} (L : IsLawful F) (fuel : F.State → ℕ) (s : F.State) {u : Text}
    (h : IsUser u) where
  called :
      (c : ℕ) (t : F.State)
      → handle_unregister F (fuel s) u s ≡ some (c, t)
      → unregister_call F fuel u s ≡ (some c, t)
  unfolding unregister_call
  called c t e = rw (unregister_call, e) refl

  all_gone :
      (c : ℕ) (t : F.State)
      → handle_unregister F (fuel s) u s ≡ some (c, t)
      → some c ≡ some 0
      → users F t ≡ set u none (users F s)
  all_gone zero t e z = unregister-done L s h (fuel s) t e
  all_gone (suc c) t e z = cc z

  returned-IsRemoval :
      (c : ℕ) (t : F.State)
      → handle_unregister F (fuel s) u s ≡ some (c, t)
      → IsRemoval F fuel u s t
  returned-IsRemoval c t e = (
    ap (λ (r : Option ℕ × F.State). r.1) (sym (called c t e)),
    λ z. all_gone c t e (ap (λ (r : Option ℕ × F.State). r.0) (sym (called c t e)) ∙ z),
    λ w ne. unregister-others L s h (fuel s) w (c, t) ne e,
    OnlyDeletes-Loses (base F) (base F) (F.node s) (F.node t)
        (unregister-OnlyDeletes L s h (fuel s) (c, t) e) u,
  )

  ended-Change :
      (o : Option (ℕ × F.State))
      → handle_unregister F (fuel s) u s ≡ o
      → Change F fuel s (unregister_call F fuel u s).1
  unfolding unregister_call
  ended-Change none e = rw (unregister_call, e) (done nothing)
  ended-Change (some (c, t)) e =
      subst (λ (r : Option ℕ × F.State). Change F fuel s r.1) (sym (called c t e))
        (removes u (returned-IsRemoval c t e))

  pub unregister-Change : Change F fuel s (unregister_call F fuel u s).1
  unregister-Change = ended-Change _ refl
