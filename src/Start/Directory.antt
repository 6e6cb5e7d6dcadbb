-- ===== src/Start/Directory.antt =====
-- The directory of users when `main` comes to its loop.
use peer_to_peer_fileshare.Base.{
  ◌≡◌, refl, sym, subst, ap, ◌∙◌, ◌⊎◌, inl, inr, Bool, true, false, Option, none, some, List, ◌∷◌,
  ℕ, ==_refl, list_eq, nat_eq,
}
use peer_to_peer_fileshare.Base.Int.{ℤ, pos, negsuc}
use peer_to_peer_fileshare.CString.{Text}
use peer_to_peer_fileshare.Posix.{
  Place, Node, absent, dir, is_dir, is_present, update, FileSystem, IsLawful,
}
use peer_to_peer_fileshare.Registry.View.{down}
use peer_to_peer_fileshare.Handle.Paths.{data_directory}
use peer_to_peer_fileshare.Handle.Places.{base, resolve-data_directory}
use peer_to_peer_fileshare.Handle.Access.{absent_below}
use peer_to_peer_fileshare.Handle.Reliable.Does.{Laid}
use peer_to_peer_fileshare.Handle.Reliable.Removal.{nothing-IsKept}
use peer_to_peer_fileshare.Request.{atoi}
use peer_to_peer_fileshare.Comm.Network.{Network}
use peer_to_peer_fileshare.Comm.Sockets.{server_socket}
use peer_to_peer_fileshare.Start.Defs.{
  Errno, Outcome, stops, serves, after_mkdir, make_directory, after_directory, after_socket, start,
}
use peer_to_peer_fileshare.Start.Outcomes.{start_rule}

module _ {F : FileSystem} (L : IsLawful F) where
  -- A new directory of users is empty.
  module _ (s t : F.State) (e : F.mkdir s data_directory ≡ some t) where
    free : F.node s (base F) ≡ absent
    free = ap (F.node s) (sym (resolve-data_directory L)) ∙ (L.mkdir_some s data_directory t e).0

    made : F.node t ≡ update (F.node s) (base F) dir
    made =
        (L.mkdir_some s data_directory t e).1
        ∙ ap (λ p. update (F.node s) p dir) (resolve-data_directory L)

    no_home : (u : Text) → F.node t (u ∷ base F) ≡ absent
    no_home u =
        ap (λ (f : Place → Node). f (u ∷ base F)) made
        ∙ rw (down (base F) u) (absent_below L s (base F) u (ap is_dir free))

    nothing_in : (m u : Text) → F.node t (m ∷ u ∷ base F) ≡ absent
    nothing_in m u = absent_below L t _ m (ap is_dir (no_home u))

    pub new-Laid : Laid F t
    new-Laid = record {
      database = ap (λ (f : Place → Node). f (base F)) made ∙ rw (==_refl (base F)) refl;
      kept = λ u. nothing-IsKept L t u (ap is_present (no_home u));
      shallow = λ u m x. ap is_dir (absent_below L t _ x (ap is_dir (nothing_in m u)));
    }

  -- Nothing has the name of the directory of users, or the files are as wanted.
  abbrev pub IsStartable : (F.State → Type 0) → F.State → Type 0
  IsStartable P s = (F.node s (base F) ≡ absent) ⊎ P s

  module _ (E : Errno F) (N : Network) (P : F.State → Type 0)
      (fresh : (s t : F.State) → F.mkdir s data_directory ≡ some t → P t) where
    -- What `mkdir` leaves, with what `main` takes of it.
    abbrev Made : Bool × F.State → Type 0
    Made (true, t) = P t
    Made (false, t) = IsStartable P t

    directory-Made :
        (s : F.State) (o : Option F.State)
        → IsStartable P s
        → F.mkdir s data_directory ≡ o
        → Made (after_mkdir F E s o)
    directory-Made s (some t) h f = fresh s t f
    directory-Made s none h f = by_errno (E.is_eexist s data_directory) h refl
      where
        by_errno : (b : Bool) → IsStartable P s → E.is_eexist s data_directory ≡ b → Made (b, s)
        by_errno false k e = k
        by_errno true (inr p) e = p
        by_errno true (inl free) e = absurd (
            cc (
              ap (λ p. is_present (F.node s p)) (sym (resolve-data_directory L))
                  ∙ E.is_eexist_lem s data_directory f e,
              ap is_present free,
            ))

    -- How `main` comes to its loop, or ends before it.
    abbrev Started : Outcome × F.State × N.State → Type 0
    Started (serves d, t, x) = P t
    Started (stops c, t, x) = IsStartable P t

    after_directory-Started :
        (d : ℕ) (w : N.State) (r : Bool × F.State) → Made r → Started (after_directory F N E d w r)
    after_directory-Started d w (true, t) h = h
    after_directory-Started d w (false, t) h = h

    after_socket-Started :
        (s : F.State) (r : ℤ × N.State) → IsStartable P s → Started (after_socket F N E s r)
    unfolding make_directory
    after_socket-Started s (negsuc n, w) h = h
    after_socket-Started s (pos c, w) h = after_directory-Started c w _ (directory-Made s _ h refl)

    module _ (argv : List Text) (set : Bool) (s : F.State) (w : N.State) (h : IsStartable P s) where
      start-Started : Started (start F N E argv set s w)
      start-Started =
          start_rule E N Started argv set s w (λ refused. h)
            (λ program port ok named. after_socket-Started s (server_socket N (atoi port) w) h)

      -- When `main` comes to its loop the files are as wanted.
      pub start-ready :
          (d : ℕ) (t : F.State) (x : N.State) → start F N E argv set s w ≡ (serves d, t, x) → P t
      start-ready d t x e = subst Started e start-Started

      startable : (r : Outcome × F.State × N.State) → Started r → IsStartable P r.1
      startable (serves d, t, x) k = inr k
      startable (stops c, t, x) k = k

      -- However a start of the server ends, it can be started again.
      pub start-IsStartable : IsStartable P (start F N E argv set s w).1
      start-IsStartable = startable _ start-Started
