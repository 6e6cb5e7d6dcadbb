-- ===== src/Handle/Names.antt =====
-- User names that the buffers of servidor_handle.c do not hold, and the empty name.
use peer_to_peer_fileshare.Base.{
  ℕ, ◌≤◌, ◌≡◌, sym, ◌∙◌, ap, subst, inl, inr, Option-cases, true, Option, none, some, [], ◌∷◌, ◌++◌,
  arith, length, take-append, if◌then◌else◌,
}
use peer_to_peer_fileshare.Base.Int.{ℤ}
use peer_to_peer_fileshare.CString.{Text, codes}
use peer_to_peer_fileshare.Posix.{absent, dir, is_present, FileSystem, IsLawful, IsReliable}
use peer_to_peer_fileshare.Registry.View.{view-none}
use peer_to_peer_fileshare.Handle.Access.{users}
use peer_to_peer_fileshare.Handle.Paths.{data_directory, user_path, connect_path}
use peer_to_peer_fileshare.Handle.Places.{base, resolve-data_directory}
use peer_to_peer_fileshare.Handle.Account.{handle_connect}
use peer_to_peer_fileshare.Handle.Purge.{remove_files_in_directory, handle_unregister}
use peer_to_peer_fileshare.Handle.Unregister.{Fits}
use peer_to_peer_fileshare.Handle.Unregister.Clean.{remove_files_in_directory-Cleans}

-- From 244 bytes on `snprintf` cuts the path of the `connect` file down to that of the directory.
connect_path-long : (u : Text) → 244 ≤ length u → connect_path u ≡ user_path u
unfolding connect_path user_path
connect_path-long u h = ap (λ x. data_directory ++ x) (take-append 244 u (codes "/connect") h)

-- For a name of 244 bytes or more `handle_connect` returns 2 if the directory of the user is
-- there, 1 if it is not, and changes nothing: the user never gets connected.
pub connect_long :
    (F : FileSystem) (u : Text) (port : ℤ) (address : Text) (s : F.State)
    → 244 ≤ length u
    → handle_connect F u port address s ≡ (if F.access s (user_path u) then 2 else 1, s)
unfolding handle_connect
connect_long F u port address s h = ground (arith, ap (F.access s) (connect_path-long u h))

unregister_runs :
    (F : FileSystem) (s : F.State) (fuel : ℕ) (t : F.State) (o : Option F.State)
    → F.access s data_directory ≡ true
    → remove_files_in_directory F fuel s data_directory ≡ some t
    → F.rmdir t data_directory ≡ o
    → handle_unregister F fuel [] s ≡ elim o [ none ↦ some (2, t) | some u ↦ some (0, u) ]
unfolding handle_unregister user_path
unregister_runs F s fuel t o there ran gone = ground arith

-- UNREGISTER with the empty name: if the directory of users is there, the fuel suffices for its
-- depth and calls fail for no reason but the tree, `handle_unregister` returns and no user is
-- left.
pub unregister_empty :
    {F : FileSystem} (L : IsLawful F) (R : IsReliable F) (s : F.State) (fuel : ℕ)
    → F.node s (base F) ≡ dir
    → Fits fuel (F.node s) (base F)
    → (r : ℕ × F.State) × (handle_unregister F fuel [] s ≡ some r)
      × ((v : Text) → users F r.1 v ≡ none)
unregister_empty {F} L R s fuel here fits =
    let (t, ran, bare) =
      remove_files_in_directory-Cleans L R fuel s b'.' (codes "/database/")
        (subst (Fits fuel (F.node s)) (sym at) fits) in
    let bare' = subst (λ q. (m : Text) → F.node t (m ∷ q) ≡ absent) at bare in
    elim (Option-cases (F.rmdir t data_directory)) [
      | inl stays ↦ (
        (2, t),
        unregister_runs F s fuel t none there ran stays,
        λ v. view-none _ _ v (rw (bare' v)),
      )
      | inr (u, gone) ↦ (
        (0, u),
        unregister_runs F s fuel t (some u) there ran gone,
        λ v.
            view-none _ _ v (rw (L.rmdir_some t data_directory u gone).2 (ground (arith, bare' v))),
      )
    ]
  where
    at : F.resolve data_directory ≡ base F
    at = resolve-data_directory L

    there : F.access s data_directory ≡ true
    there = L.access_lem s data_directory ∙ ap (λ q. is_present (F.node s q)) at ∙ rw here
