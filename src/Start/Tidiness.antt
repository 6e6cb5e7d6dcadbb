-- ===== src/Start/Tidiness.antt =====
-- The directory of users over the starts of the server.
use peer_to_peer_fileshare.Handle.Tidy.Stable.{Tidy}
use peer_to_peer_fileshare.Comm.Network.{Network}
