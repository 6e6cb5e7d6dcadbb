-- ===== src/Tests/Meeting.antt =====
-- The theorem on a client that connects and another that asks where it is, at work.
use peer_to_peer_fileshare.Base.{
  ℕ, ◌<◌, ◌≡◌, refl, ◌∙◌, sym, subst, ap, Bool-cases, Option, none, some, [], ◌∷◌, length, ltb,
  arith, inl, inr, if◌then◌else◌,
}
use mathlib.Core.Option.{some-injective}
use peer_to_peer_fileshare.Base.Int.{pos}
use peer_to_peer_fileshare.CString.{Text, codes}
use peer_to_peer_fileshare.Posix.Memory.{memory, memory-IsLawful, memory-IsReliable}
use peer_to_peer_fileshare.Registry.View.{view}
use peer_to_peer_fileshare.ConnectFile.RoundTrip.{IsWord}
use peer_to_peer_fileshare.Comm.{eof}
use peer_to_peer_fileshare.Handle.Paths.{user_path, connect_path, files_path}
use peer_to_peer_fileshare.Handle.Access.{users}
use peer_to_peer_fileshare.Handle.Account.{handle_connect}
use peer_to_peer_fileshare.Handle.Refines.Connect.{contact}
use peer_to_peer_fileshare.Handle.GetFile.{IsOnline}
use peer_to_peer_fileshare.Request.{Stale, atoi}
use peer_to_peer_fileshare.Request.Opening.{plain-IsLine}
use peer_to_peer_fileshare.Request.Peer.{Peers, inet_addrstrlen, get_client_address}
use peer_to_peer_fileshare.Request.Meeting.{Connects, Finds, serve-connect-get_file}
use peer_to_peer_fileshare.Tests.Data.{
  ann, bob, address, ann_online, ann-IsUser, bob-IsUser, address-IsWord,
}

abbrev blank : Stale
blank f = []

abbrev noon : Text
noon = codes "25/11/2026 12:00:00"

abbrev fits : Text → ℕ → Option Text
fits a n = if ltb 8 n then some address else none

fits-IsWord : (a : Text) (n : ℕ) (x : Text) → fits a n ≡ some x → IsWord x × (length x < n)
fits-IsWord a n x e = elim (Bool-cases (ltb 8 n)) [
  | inl room ↦
      subst (λ y. IsWord y × (length y < n))
        (some-injective _ _ (sym (ap (λ b. if b then some address else none) room) ∙ e))
        (address-IsWord, ground arith)
  | inr tight ↦ absurd (cc (sym (ap (λ b. if b then some address else none) tight) ∙ e))
]

-- Every client is at 10.0.0.7.
abbrev one_host : Peers
one_host = record {
  getpeername = λ sc. some (10 ∷ 0 ∷ 0 ∷ 7 ∷ []);
  inet_ntop = fits;
  inet_ntop_some = fits-IsWord;
}

found : get_client_address one_host 5 inet_addrstrlen ≡ some address
unfolding get_client_address
found = refl

ann-IsOnline : IsOnline (users memory ann_online) ann (contact address (pos 4000))
unfolding memory ann_online view user_path connect_path files_path
ann-IsOnline = (_, refl, refl)

bob_connects : (handle_connect memory bob (atoi (codes "4001")) address ann_online).0 ≡ 0
unfolding memory ann_online handle_connect atoi user_path connect_path files_path
bob_connects = refl

abbrev four_thousand_one : Text
four_thousand_one = codes "4001"

serve-connect-get_file_example :
    let after = (handle_connect memory bob (atoi four_thousand_one) address ann_online).1 in
    Connects memory
      (λ s. 2)
      blank
      []
      (eof ∷ [])
      []
      (get_client_address one_host 5 inet_addrstrlen)
      address
      noon
      bob
      four_thousand_one
      ann_online
      after
    × Finds memory
        (λ s. 2)
        blank
        []
        (eof ∷ [])
        []
        address
        ann
        bob
        after
        address
        (atoi four_thousand_one)
serve-connect-get_file_example =
    serve-connect-get_file memory-IsLawful memory-IsReliable one_host (λ s. 2) blank blank 5 address
      ann_online found four_thousand_one noon address [] [] (eof ∷ []) (eof ∷ []) [] [] ann-IsUser
      bob-IsUser refl refl (plain-IsLine noon refl, omega arith)
      (plain-IsLine four_thousand_one refl, omega arith) (plain-IsLine bob refl, omega arith)
      (plain-IsLine ann refl, omega arith) (plain-IsLine bob refl, omega arith) bob_connects
      (inl ann-IsOnline)
