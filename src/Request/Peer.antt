-- ===== src/Request/Peer.antt =====
-- servidor.c: `get_client_address`, and the calls of the C library that it makes.
use peer_to_peer_fileshare.Base.{ℕ, ◌<◌, ◌≡◌, Option, none, some, length}
use peer_to_peer_fileshare.CString.{Text}
use peer_to_peer_fileshare.ConnectFile.RoundTrip.{IsWord}

-- INET_ADDRSTRLEN of <netinet/in.h>
abbrev pub inet_addrstrlen : ℕ
inet_addrstrlen = 16

-- `getpeername` gives the bytes of the address at the other end of a socket; `inet_ntop` writes them in
-- dotted decimal, where the size given has room for that and its NUL.
pub record Peers : Type 0 where
  pub getpeername : ℕ → Option Text
  pub inet_ntop : Text → ℕ → Option Text
  pub inet_ntop_some :
      (a : Text) (n : ℕ) (x : Text) → inet_ntop a n ≡ some x → IsWord x × (length x < n)

abbrev pub after_getpeername : Peers → ℕ → Option Text → Option Text
after_getpeername P size none = none
after_getpeername P size (some addr) = P.inet_ntop addr size

-- `none` is the result -1, and the buffer is not looked at then.
unfoldable pub get_client_address : Peers → ℕ → ℕ → Option Text
get_client_address P sc addr_size = after_getpeername P addr_size (P.getpeername sc)

pub get_client_address-IsWord :
    (P : Peers) (sc size : ℕ) (x : Text) → get_client_address P sc size ≡ some x → IsWord x
unfolding get_client_address
get_client_address-IsWord P sc size x e = from (P.getpeername sc) e
  where
    from : (o : Option Text) → after_getpeername P size o ≡ some x → IsWord x
    from none f = absurd (cc f)
    from (some a) f = (P.inet_ntop_some a size x f).0
