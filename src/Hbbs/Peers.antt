-- ===== src/Hbbs/Peers.antt =====
-- src/peer.rs: the peers, in memory and in the database. A `LockPeer` is shared between the map and
-- whoever looked it up, and no peer leaves the map, so a change to it is a change of the map.
pub mod Laws
pub mod Directory
use rustdesk_server.Prelude.{
  ℕ, ◌+◌, ◌≡◌, ◌≢◌, Bool, true, false, Option, none, some, List, [], ◌∷◌, unwrap_or, ◌==◌, text_eq,
  if◌then◌else◌,
}
use rustdesk_server.Prelude.Map
use rustdesk_server.Prelude.Map.{Map}
use rustdesk_server.Prelude.Text.{Text, is_empty}
use rustdesk_server.Net.{SocketAddr, v4}
use rustdesk_server.Clock.{expired_time}

-- A row of the table `peer` of src/database.rs; the columns that no statement sets, and the id, by which it is found, are left out.
pub record DbPeer : Type 0 where
  pub guid : Text
  pub uuid : Text
  pub pk : Text
  pub info : Text

-- What src/peer.rs uses of src/database.rs, and the JSON of `PeerInfo`. `none` is an error. Hbbs/Database
-- is the implementation.
pub record Database : Type 1 where
  pub Db : Type 0
  pub get_peer : Text → Db → Option DbPeer
  -- A new guid, and the database with the row.
  pub insert_peer : Text → Text → Text → Text → Db → Option (Text × Db)
  -- By guid; the uuid stays.
  pub update_pk : Text → Text → Text → Text → Db → Option Db
  pub to_json : Text → Text
  pub from_json : Text → Option Text

pub record Peer : Type 0 where
  pub socket_addr : SocketAddr
  pub last_reg_time : ℕ
  pub guid : Text
  pub uuid : Text
  pub pk : Text
  pub info_ip : Text
  -- How often the key was registered, and when last.
  pub reg_count : ℕ
  pub reg_time : ℕ

pub data RegResult : Type 0 where
  reg_ok uuid_mismatch too_frequent server_error : RegResult

-- `Peer::default`
unfoldable pub default_peer : ℕ → Peer
default_peer now = record {
  socket_addr = record { ip = v4 0; port = 0 };
  last_reg_time = expired_time now;
  guid = [];
  uuid = [];
  pk = [];
  info_ip = [];
  reg_count = 0;
  reg_time = expired_time now;
}

module _ (ext : Database) where
  open ext use {Db, get_peer, insert_peer, to_json, from_json}

  pub record PeerMap : Type 0 where
    pub map : Map Text Peer
    pub db : Db

  -- A peer as the database remembers it.
  unfoldable pub from_row : ℕ → DbPeer → Peer
  unfolding default_peer
  from_row now row = record (default_peer now) {
    guid = row.guid;
    uuid = row.uuid;
    pk = row.pk;
    info_ip = unwrap_or (from_json row.info) [];
  }

  unfoldable pub get_in_memory : Text → PeerMap → Option Peer
  get_in_memory id pm = Map.get id pm.map

  -- From memory, else from the database, which puts it in memory.
  unfoldable pub get : ℕ → Text → PeerMap → Option Peer × PeerMap
  unfolding from_row
  get now id pm = elim (Map.get id pm.map) [
    | some p ↦ (some p, pm)
    | none ↦ elim (get_peer id pm.db) [
      | none ↦ (none, pm)
      | some row ↦ let p = from_row now row in (some p, record pm { map = Map.insert id p pm.map })
    ]
  ]

  or_default : ℕ → Text → Option Peer × PeerMap → Peer × PeerMap
  or_default now id (some p, pm) = (p, pm)
  or_default now id (none, pm) =
      (default_peer now, record pm { map = Map.insert id (default_peer now) pm.map })

  unfoldable pub get_or : ℕ → Text → PeerMap → Peer × PeerMap
  unfolding or_default
  get_or now id pm = or_default now id (get now id pm)

  unfoldable pub put_peer : Text → Peer → PeerMap → PeerMap
  put_peer id p pm = record pm { map = Map.insert id p pm.map }

  -- What follows the change in memory: insert the peer's row, or update it.
  unfoldable pub save : Text → Peer → PeerMap → RegResult × PeerMap
  unfolding put_peer
  save id p pm =
      let info = to_json p.info_ip in
      if is_empty p.guid
      then elim (insert_peer id p.uuid p.pk info pm.db) [
        | none ↦ (server_error, pm)
        | some (guid, db) ↦ (reg_ok, put_peer id (record p { guid = guid }) (record pm { db = db }))
      ]
      else elim (ext.update_pk p.guid id p.pk info pm.db) [
        | none ↦ (server_error, pm)
        | some db ↦ (reg_ok, record pm { db = db })
      ]

  -- `PeerMap::update_pk` of a peer that is in memory.
  unfoldable pub update_pk :
      ℕ → Text → Peer → SocketAddr → Text → Text → Text → PeerMap → RegResult × PeerMap
  unfolding save put_peer
  update_pk now id peer addr uuid pk ip pm =
      let p = record peer {
        socket_addr = addr;
        uuid = uuid;
        pk = pk;
        last_reg_time = now;
        info_ip = ip;
      } in
      save id p (put_peer id p pm)
