-- ===== src/Hbbs/Database/Restart.antt =====
-- What a server that starts again finds in the table of src/database.rs.
use rustdesk_server.Prelude.{
  ℕ, ◌≡◌, refl, true, false, some, [], arith, Option-cases, inl, inr, beq_refl, text_eq,
}
use rustdesk_server.Prelude.Map
use rustdesk_server.Prelude.Map.{get-insert}
use rustdesk_server.Prelude.Text.{Text, is_empty}
use rustdesk_server.Net.{SocketAddr}
use rustdesk_server.Hbbs.Peers.{DbPeer, Peer, PeerMap, reg_ok, get, update_pk, put_peer, from_row}
use rustdesk_server.Hbbs.Database.{
  Outside, Table, database, get_peer, insert_peer, update_peer_pk, Owns, get_peer-insert_peer,
  insert_peer_guid, insert_peer-Owns, get_peer-update_peer_pk,
}

module _ (os : Outside) where
  abbrev Peers : Type 0
  Peers = PeerMap (database os)

  -- A server that starts on the table finds the peer, with this uuid, key and address.
  pub Finds : ℕ → Text → Text → Text → Text → Table → Type 0
  Finds later id uuid pk ip t =
      (p : Peer) × ((get (database os) later id (record { map = []; db = t })).0 ≡ some p)
      × (p.uuid ≡ uuid)
      × (p.pk ≡ pk)
      × (p.info_ip ≡ ip)

  get_peer-Finds :
      (later : ℕ) (id guid uuid pk ip : Text) (t : Table)
      → get_peer id t ≡ some (record { guid = guid; uuid = uuid; pk = pk; info = os.to_json ip })
      → Finds later id uuid pk ip t
  unfolding Finds get from_row Map.get
  get_peer-Finds later id guid uuid pk ip t h =
      let row : DbPeer = record { guid = guid; uuid = uuid; pk = pk; info = os.to_json ip } in
      (from_row (database os) later row, rw (get, h) refl, refl, refl, rw (os.from-to_json ip) refl)

  -- The row of a peer in memory.
  IsStored : Text → Text → Text → Text → Peer → Table → Type 0
  IsStored id uuid pk ip p t =
      (is_empty p.guid ≡ false)
      × Owns os p.guid id t.rows
      × (get_peer id t
          ≡ some (record { guid = p.guid; uuid = uuid; pk = pk; info = os.to_json ip }))

  inserted-IsStored :
      (now : ℕ) (id : Text) (peer p : Peer) (addr : SocketAddr) (uuid pk ip : Text) (pm : Peers)
      → is_empty peer.guid ≡ true
      → let r = update_pk (database os) now id peer addr uuid pk ip pm in
        r.0 ≡ reg_ok → Map.get id r.1.map ≡ some p → IsStored id uuid pk ip p r.1.db
  unfolding update_pk put_peer IsStored
  inserted-IsStored now id peer p addr uuid pk ip pm g h m =
      let info = os.to_json ip in
      elim (Option-cases (insert_peer os id uuid pk info pm.db)) [
        | inl d ↦ ground (arith, g, d, h)
        | inr ((guid, t), d) ↦
            let q : Peer = record peer {
              socket_addr = addr;
              uuid = uuid;
              pk = pk;
              last_reg_time = now;
              info_ip = ip;
            } in
            let there =
              get-insert id id (record q { guid = guid }) (put_peer (database os) id q pm).map in
            let same : p.guid ≡ guid = ground (arith, g, d, m, there, beq_refl id) in
            let new : (update_pk (database os) now id peer addr uuid pk ip pm).1.db ≡ t =
              ground (arith, g, d) in
            rw (same, new)
              (
                insert_peer_guid os id uuid pk info pm.db guid t d,
                insert_peer-Owns os id uuid pk info pm.db guid t d,
                get_peer-insert_peer os id uuid pk info pm.db guid t d,
              )
      ]

  renewed-IsStored :
      (now : ℕ) (id : Text) (p : Peer) (addr : SocketAddr) (uuid uuid' pk pk' ip ip' : Text)
      (pm : Peers)
      → IsStored id uuid pk ip p pm.db
      → let r = update_pk (database os) now id p addr uuid' pk' ip' pm in
        r.0 ≡ reg_ok
        → get_peer id r.1.db
          ≡ some (record { guid = p.guid; uuid = uuid; pk = pk'; info = os.to_json ip' })
  unfolding update_pk put_peer IsStored
  renewed-IsStored now id p addr uuid uuid' pk pk' ip ip' pm (g, o, f) h =
      let info = os.to_json ip' in
      elim (Option-cases (update_peer_pk os p.guid id pk' info pm.db)) [
        | inl d ↦ ground (arith, g, d, h)
        | inr (t, d) ↦
            let row : DbPeer = record {
              guid = p.guid;
              uuid = uuid;
              pk = pk;
              info = os.to_json ip;
            } in
            let found = get_peer-update_peer_pk os p.guid id pk' info pm.db t row o f refl d in
            ground (arith, g, d, found)
      ]

  -- A new peer whose key the table took is found again by a server that starts on that table, with the
  -- same uuid, key and address. If the peer then registers again, with whatever uuid, and the table
  -- takes that too, a server that starts after it finds the new key and address, and the first uuid.
  pub found_after_restart :
      (now now' later : ℕ) (id : Text) (peer p : Peer) (addr addr' : SocketAddr)
      (uuid uuid' pk pk' ip ip' : Text) (pm : Peers)
      → is_empty peer.guid ≡ true
      → let first = update_pk (database os) now id peer addr uuid pk ip pm in
        first.0 ≡ reg_ok
        → Map.get id first.1.map ≡ some p
        → let second = update_pk (database os) now' id p addr' uuid' pk' ip' first.1 in
          second.0 ≡ reg_ok
          → Finds later id uuid pk ip first.1.db × Finds later id uuid pk' ip' second.1.db
  unfolding IsStored
  found_after_restart now now' later id peer p addr addr' uuid uuid' pk pk' ip ip' pm g h m h' =
      let first = (update_pk (database os) now id peer addr uuid pk ip pm).1 in
      let stored = inserted-IsStored now id peer p addr uuid pk ip pm g h m in
      let second = (update_pk (database os) now' id p addr' uuid' pk' ip' first).1 in
      let renewed = renewed-IsStored now' id p addr' uuid uuid' pk pk' ip ip' first stored h' in
      (
        get_peer-Finds later id p.guid uuid pk ip first.db stored.2,
        get_peer-Finds later id p.guid uuid pk' ip' second.db renewed,
      )
