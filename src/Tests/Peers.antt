-- ===== src/Tests/Peers.antt =====
-- A run of the peer map across a restart.
use rustdesk_server.Prelude.{refl, some, true, [], ◌∷◌}
use rustdesk_server.Prelude.Text.{text}
use rustdesk_server.Net.{SocketAddr, v4}
use rustdesk_server.Hbbs.Peers.{Peer, PeerMap, default_peer, update_pk}
use rustdesk_server.Hbbs.Database.{Outside, database, insert_peer, update_peer_pk}
use rustdesk_server.Hbbs.Database.Restart.{Finds, found_after_restart}
use rustdesk_server.Prelude.Map

abbrev home : SocketAddr
home = record { ip = v4 167772161; port = 21116 }

-- Everything can be written, and the guids are numbers.
abbrev sqlite : Outside
sqlite = record {
  can_write = λ n. true;
  new_guid = λ n. n ∷ [];
  new_guid_length = λ n. refl;
  to_json = λ t. t;
  from_json = λ t. some t;
  from-to_json = λ t. refl;
}

abbrev empty_map : PeerMap (database sqlite)
empty_map = record { map = []; db = record { rows = []; statements = 0 } }

abbrev stored : PeerMap (database sqlite)
stored =
    (update_pk (database sqlite) 500 (text "id-one") (default_peer 400) home (text "uuid")
      (text "pk") (text "10.0.0.1") empty_map).1

-- The peer in memory after its first registration, the guid of which is 0.
abbrev peer : Peer
peer = record (default_peer 400) {
  socket_addr = home;
  last_reg_time = 500;
  guid = 0 ∷ [];
  uuid = text "uuid";
  pk = text "pk";
  info_ip = text "10.0.0.1";
}

found_after_restart_example :
    Finds sqlite 9000 (text "id-one") (text "uuid") (text "pk") (text "10.0.0.1") stored.db
    × Finds sqlite 9000
        (text "id-one")
        (text "uuid")
        (text "new")
        (text "10.0.0.2")
        (update_pk
          (database sqlite)
          800
          (text "id-one")
          peer
          home
          (text "uuid")
          (text "new")
          (text "10.0.0.2")
          stored).1.db
unfolding update_pk default_peer insert_peer update_peer_pk Map.get Map.insert
found_after_restart_example =
    found_after_restart sqlite 500 800 9000 (text "id-one") (default_peer 400) peer home home
      (text "uuid") (text "uuid") (text "pk") (text "new") (text "10.0.0.1") (text "10.0.0.2")
      empty_map refl refl refl refl
