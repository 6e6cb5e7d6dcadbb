-- ===== src/Request/Tidiness.antt =====
-- `./database/` stays tidy while the threads take turns.
use peer_to_peer_fileshare.Base.{
  zero, suc, false, none, ℕ, ◌≡◌, ◌≤◌, refl, sym, subst, inl, inr, Option-cases, some, [], ◌++◌,
  length, length-append, arith, nat_eq, list_eq,
}
use peer_to_peer_fileshare.CString.{Text, codes}
use peer_to_peer_fileshare.Posix.{
  Place, is_dir, Node, absent, file, update, IsName, FileSystem, IsLawful, IsRelative,
}
use peer_to_peer_fileshare.Handle.Places.{IsUser, base, user_place}
use peer_to_peer_fileshare.Handle.Purge.{handle_unregister}
use peer_to_peer_fileshare.Handle.Writing.{opened}
use peer_to_peer_fileshare.Handle.Keeping.{
  Keeps, handle_list_users-Keeps, handle_list_content-Keeps,
}
use peer_to_peer_fileshare.Handle.Tidy.{IsTidy}
use peer_to_peer_fileshare.Handle.Tidy.Stable.{Tidy, IsStable, IsTidy-IsStable}
use peer_to_peer_fileshare.Handle.Tidy.Handlers.{
  register-keeps, connect-keeps, publish-keeps, delete-keeps, disconnect-keeps,
}
use peer_to_peer_fileshare.Handle.Unregister.Accounts.{unregister-OnlyDeletes}
use peer_to_peer_fileshare.Handle.Unregister.{Fits}
use peer_to_peer_fileshare.Handle.Unregister.Ends.{handle_unregister-returns}
use peer_to_peer_fileshare.Request.{
  Stale, atoi, unregister_call, open_users, open_content, removal, users_list_name,
  content_list_name,
}
use peer_to_peer_fileshare.Request.Rules.{Rules}
use peer_to_peer_fileshare.Request.Obedience.{Permits}
use peer_to_peer_fileshare.Request.Whole.{tratar_peticion-Obeys}
use peer_to_peer_fileshare.Request.Threads.{Threads, Run, begin, turn, opened as threads}
use peer_to_peer_fileshare.Request.Order.{IsInOrder, Run-IsInOrder}
use peer_to_peer_fileshare.Request.ListFiles.{
  IsShort, IsShort-IsUser, users_list_name-IsName, content_list_name-IsName, outside, beside,
}
use peer_to_peer_fileshare.Request.Evolution.{AreNames, named}

-- The file for a list does not have the name of the directory of users.
pub users_list_name-ne : (u : Text) → 9 ≤ length (users_list_name u)
users_list_name-ne u = omega (arith, length-append u (codes "_users_connected.txt"))

pub content_list_name-ne : (u o : Text) → 9 ≤ length (content_list_name u o)
content_list_name-ne u o =
    omega
      (arith, length-append u (o ++ codes "_content.txt"), length-append o (codes "_content.txt"))

module _ {F : FileSystem} (L : IsLawful F) (W : IsRelative F) (P : (Place → Node) → Type 0)
    (C : IsStable (base F) P) where
  module _ (s : F.State) (h : P (F.node s)) where
    module _ {n : Text} (k : IsName n) (long : 9 ≤ length n) where
      written-keeps :
          (t : F.State) (v : Node)
          → is_dir v ≡ false
          → F.node t ≡ update (F.node s) (F.resolve n) v
          → P (F.node t)
      written-keeps t v plain e =
          subst (λ g. P g) (sym e)
            (C.beside (F.node s) (F.resolve n) v
              (beside L W s k (λ e. absurd (omega (arith, e, long)))) (outside L W s k) plain h)

      removal-keeps : P (F.node (removal F n s).1)
      removal-keeps = elim (Option-cases (F.remove s n)) [
        | inl e ↦ rw (removal, e) h
        | inr (t, e) ↦ rw (removal, e) (written-keeps t absent refl (L.remove_some s n t e).2)
      ]

      Keeps-keeps : (t : F.State) → Keeps L (F.node s) n (F.resolve n) t → P (F.node t)
      Keeps-keeps t (got, o) = written-keeps t (file got) refl o

    open_users-keeps : {u : Text} → IsShort u → P (F.node (open_users F u s).1)
    unfolding open_users
    open_users-keeps {u} a = elim (Option-cases (F.fopen_write s (users_list_name u))) [
      | inl e ↦ rw (open_users, e) h
      | inr (t, e) ↦
          rw (open_users, e)
            (Keeps-keeps (users_list_name-IsName a) (users_list_name-ne u) _ (
              handle_list_users-Keeps L (F.node s) (users_list_name u) _ refl u 0 t
                ([], opened L (F.node s) (users_list_name u) _ s t refl refl e)))
    ]

    open_content-keeps : {u o : Text} → IsShort u → IsShort o → P (F.node (open_content F u o s).1)
    unfolding open_content
    open_content-keeps {u} {o} a b = elim (Option-cases (F.fopen_write s (content_list_name u o))) [
      | inl e ↦ rw (open_content, e) h
      | inr (t, e) ↦
          rw (open_content, e)
            (Keeps-keeps (content_list_name-IsName a b) (content_list_name-ne u o) _ (
              handle_list_content-Keeps L (F.node s) (content_list_name u o) _ refl u o 0 t
                ([], opened L (F.node s) (content_list_name u o) _ s t refl refl e)))
    ]

    unregister-keeps :
        {u : Text} → IsUser u → (fuel : F.State → ℕ) → P (F.node (unregister_call F fuel u s).1)
    unfolding unregister_call
    unregister-keeps {u} k fuel = elim (Option-cases (handle_unregister F (fuel s) u s)) [
      | inl e ↦ rw (unregister_call, e) h
      | inr (r, e) ↦
          rw (unregister_call, e) (C.less _ _ h (unregister-OnlyDeletes L s k (fuel s) r e))
    ]

  -- What the calls of `handle_unregister` and of `fopen` come to, and what may be if one comes to nothing.
  module _ (fuel : F.State → ℕ) (old : ℕ → Stale) (Leave : Type 0)
      (ends : (u : Text) (s : F.State)
        → IsShort u
        → P (F.node s)
        → (unregister_call F fuel u s).0 ≡ none
        → Leave)
      (lists : (u : Text) (s : F.State)
        → IsShort u
        → P (F.node s)
        → (open_users F u s).0 ≡ none
        → Leave)
      (contents : (u o : Text) (s : F.State)
        → IsShort u
        → IsShort o
        → P (F.node s)
        → (open_content F u o s).0 ≡ none
        → Leave) where
    -- Names are sent where names are read, and each call on the files keeps the property.
    abbrev pub stable : Rules F.State
    stable = record {
      allowed = AreNames;
      here = λ s. P (F.node s);
      may = λ f. (s : F.State) → P (F.node s) → P (F.node (f s));
      keeps = λ f m. m;
      may_leave = Leave;
    }

    stable-Permits : Permits F fuel stable
    stable-Permits = record {
      same = λ s h. h;
      register = λ u a s h. register-keeps L P C (IsShort-IsUser a) s h;
      unregister = λ u a s h. unregister-keeps s h (IsShort-IsUser a) fuel;
      unregister_ended = λ u s a h e. ends u s a h e;
      connect =
          λ u port address a s h. connect-keeps L P C (IsShort-IsUser a) s h (atoi port) address;
      publish = λ u f d a b s h. publish-keeps L P C (IsShort-IsUser a) s h b d;
      delete = λ u f a b s h. delete-keeps L P C (IsShort-IsUser a) s h b;
      disconnect = λ u a s h. disconnect-keeps L P C (IsShort-IsUser a) s h;
      users = λ u a s h. open_users-keeps s h a;
      users_closed = λ u s a h e. lists u s a h e;
      users_removal =
          λ u a s h. removal-keeps s h (users_list_name-IsName a) (users_list_name-ne u);
      content = λ u o a b s h. open_content-keeps s h a b;
      content_closed = λ u o s a b h e. contents u o s a b h e;
      content_removal = λ u o a b s h.
          removal-keeps s h (content_list_name-IsName a b) (content_list_name-ne u o);
    }

    -- The rules on what may be read are those of the accounts.
    as_stable : {v w : Threads F.State} → Run (named L W fuel old) old v w → Run stable old v w
    as_stable begin = begin
    as_stable (turn i a r ok e) = turn i a (as_stable r) ok e

    -- A run keeps the property, and every thread obeys.
    pub Run-stable :
        (s : F.State) (v : Threads F.State)
        → P (F.node s)
        → Run (named L W fuel old) old (threads F old fuel s) v
        → IsInOrder stable old v
    Run-stable s v h r =
        Run-IsInOrder stable old
          (h, λ i. tratar_peticion-Obeys F fuel stable stable-Permits (old i)) (as_stable r)

module _ {F : FileSystem} (L : IsLawful F) (W : IsRelative F) where
  -- Two units of fuel suffice for every user.
  pub Tidy-ends :
      (s : F.State)
      → Tidy F s
      → {u : Text} → IsUser u
      → (fuel : ℕ) → 2 ≤ fuel
      → (r : ℕ × F.State) × (handle_unregister F fuel u s ≡ some r)
  Tidy-ends s h {u} k fuel enough = handle_unregister-returns L s k fuel (deep fuel enough)
    where
      deep : (fuel : ℕ) → 2 ≤ fuel → Fits fuel (F.node s) (user_place F u)
      deep zero e = absurd (omega (arith, e))
      deep (suc zero) e = absurd (omega (arith, e))
      deep (suc (suc n)) e = λ m x y d. cc (d, h.shallow u m y)

  pub Run-Tidy :
      (fuel : F.State → ℕ) (old : ℕ → Stale) (s : F.State) (v : Threads F.State)
      → Tidy F s
      → Run (named L W fuel old) old (threads F old fuel s) v
      → Tidy F v.files
  Run-Tidy fuel old s v h r =
      (Run-stable L W (λ f. IsTidy f (base F)) (IsTidy-IsStable (base F)) fuel old Unit
        (λ u s a h e. tt) (λ u s a h e. tt) (λ u o s a b h e. tt) s v h r).0
