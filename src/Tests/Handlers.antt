-- ===== src/Tests/Handlers.antt =====
-- The theorems on the handlers that change one directory, and on unregistering, at work.
use peer_to_peer_fileshare.Base.{
  ◌≡◌, ◌≢◌, ◌⊎◌, ap, list_eq, nat_eq, ◌∷◌, [], ℕ, refl, length, none, some, arith,
}
use peer_to_peer_fileshare.CString.{Text, codes}
use peer_to_peer_fileshare.Posix.{Place, absent, dir}
use peer_to_peer_fileshare.Posix.Memory.{look, memory, memory-IsLawful, memory-IsReliable}
use peer_to_peer_fileshare.Registry.{publish_spec, unregister_spec}
use peer_to_peer_fileshare.Handle.Paths.{user_path, published_path}
use peer_to_peer_fileshare.Handle.Places.{base, user_place}
use peer_to_peer_fileshare.Handle.Access.{users, Carries}
use peer_to_peer_fileshare.Handle.Account.{handle_publish}
use peer_to_peer_fileshare.Handle.Purge.{handle_unregister}
use peer_to_peer_fileshare.Handle.Refines.Publish.{Written, publish_refines}
use peer_to_peer_fileshare.Handle.Unregister.{Fits}
use peer_to_peer_fileshare.Handle.Unregister.Accounts.{unregister_refines, unregister-others}
use peer_to_peer_fileshare.Handle.Names.{unregister_empty}
use peer_to_peer_fileshare.Tests.Data.{
  ann, bob, notes, with_both, ann_online, notes-IsName, ann-IsUser, two_users, database_place,
}

publish_refines_example :
    (memory.fopen_write ann_online (published_path (user_path ann) notes) ≡ none)
      × (handle_publish memory ann notes (codes "my notes") ann_online ≡ (4, ann_online))
    ⊎ ((got : Text) × Written memory-IsLawful ann_online ann-IsUser notes-IsName
          (codes "my notes")
          got
        × Carries memory
            (handle_publish memory ann notes (codes "my notes") ann_online)
            (publish_spec ann notes got (users memory ann_online)))
publish_refines_example =
    publish_refines memory-IsLawful ann_online ann-IsUser notes-IsName (codes "my notes")

ann_dir : memory.node with_both (user_place memory ann) ≡ dir
unfolding memory with_both user_path
ann_dir = refl

database_dir : memory.node with_both (base memory) ≡ dir
unfolding memory with_both user_path
database_dir = refl

ann_tree : (q : Place) → memory.node with_both q ≡ look two_users q
unfolding memory with_both user_path
ann_tree q = refl

two_users-bare : (m n : Text) → look two_users (n ∷ m ∷ codes "database" ∷ []) ≡ absent
two_users-bare m n = ground arith

-- The directory of a user holds no others.
database_depth : Fits 2 (memory.node with_both) (base memory)
database_depth =
    λ m e n d. cc (d, ann_tree (n ∷ m ∷ base memory), two_users-bare m n, database_place)

ann_depth : Fits 1 (memory.node with_both) (user_place memory ann)
ann_depth = database_depth ann ann_dir

unregister_refines_example :
    (r : ℕ × memory.State) × (handle_unregister memory 1 ann with_both ≡ some r)
    × Carries memory r (unregister_spec ann (users memory with_both))
unregister_refines_example =
    unregister_refines memory-IsLawful with_both ann-IsUser memory-IsReliable 1 ann_depth
      (λ p. ann_dir)

bob_ne_ann : bob ≢ ann
bob_ne_ann = λ e. omega (arith, ap length e)

pub ann_leaves :
    (r : ℕ × memory.State) × (handle_unregister memory 1 ann with_both ≡ some r)
    × Carries memory r (unregister_spec ann (users memory with_both))
ann_leaves =
    unregister_refines memory-IsLawful with_both ann-IsUser memory-IsReliable 1 ann_depth
      (λ p. ann_dir)

unregister-others_example : users memory ann_leaves.0.1 bob ≡ users memory with_both bob
unregister-others_example =
    unregister-others memory-IsLawful with_both ann-IsUser 1 bob ann_leaves.0 bob_ne_ann
      ann_leaves.1

unregister_empty_example :
    (r : ℕ × memory.State) × (handle_unregister memory 2 [] with_both ≡ some r)
    × ((v : Text) → users memory r.1 v ≡ none)
unregister_empty_example =
    unregister_empty memory-IsLawful memory-IsReliable with_both 2 database_dir database_depth
