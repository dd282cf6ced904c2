-- ===== src/Hbbs/Peers/Laws.antt =====
-- What the operations of src/peer.rs leave in the map of peers.
use rustdesk_server.Prelude.{
  ℕ, ◌≡◌, inl, inr, false, some, arith, ◌==◌, text_eq, beq_refl, list_beq_iff, Option-cases,
  Bool-cases, ◌∙◌,
}
use rustdesk_server.Prelude.Map
use rustdesk_server.Prelude.Map.{get-insert}
use rustdesk_server.Prelude.Text.{Text, is_empty}
use rustdesk_server.Net.{SocketAddr}
use rustdesk_server.Hbbs.Peers.{
  Database, Peer, PeerMap, get, get_or, put_peer, save, update_pk, from_row, default_peer,
}

module _ (ext : Database) where
  pub put_peer_self :
      (id : Text) (p : Peer) (pm : PeerMap ext) → Map.get id (put_peer ext id p pm).map ≡ some p
  unfolding put_peer
  put_peer_self id p pm = ground (arith, get-insert id id p pm.map, beq_refl id)

  pub put_peer-other :
      (id j : Text) (p : Peer) (pm : PeerMap ext)
      → (id == j) ≡ false
      → Map.get j (put_peer ext id p pm).map ≡ Map.get j pm.map
  unfolding put_peer
  put_peer-other id j p pm h = ground (arith, get-insert id j p pm.map)

  pub get_or_self :
      (now : ℕ) (id : Text) (pm : PeerMap ext)
      → Map.get id (get_or ext now id pm).1.map ≡ some (get_or ext now id pm).0
  unfolding get_or get
  get_or_self now id pm = elim (Option-cases (Map.get id pm.map)) [
    | inr (p, e) ↦ ground (arith, e)
    | inl e ↦ elim (Option-cases (ext.get_peer id pm.db)) [
      | inl d ↦ ground (arith, e, d, get-insert id id (default_peer now) pm.map, beq_refl id)
      | inr (row, d) ↦
          ground (arith, e, d, get-insert id id (from_row ext now row) pm.map, beq_refl id)
    ]
  ]

  pub get_or-keeps :
      (now : ℕ) (id j : Text) (pm : PeerMap ext) (p : Peer)
      → Map.get j pm.map ≡ some p
      → Map.get j (get_or ext now id pm).1.map ≡ some p
  unfolding get_or get
  get_or-keeps now id j pm p h = elim (Option-cases (Map.get id pm.map)) [
    | inr (q, e) ↦ ground (arith, e, h)
    | inl e ↦
        let other : (id == j) ≡ false = ground (arith, e, h, list_beq_iff id j) in
        elim (Option-cases (ext.get_peer id pm.db)) [
          | inl d ↦ ground (arith, e, d, h, other, get-insert id j (default_peer now) pm.map)
          | inr (row, d) ↦
              ground (arith, e, d, h, other, get-insert id j (from_row ext now row) pm.map)
        ]
  ]

  -- What a peer's registration sets.
  pub record Registered (uuid pk ip : Text) (addr : SocketAddr) (now : ℕ) (p : Peer) : Type 0 where
    pub same_uuid : p.uuid ≡ uuid
    pub same_pk : p.pk ≡ pk
    pub same_info_ip : p.info_ip ≡ ip
    pub same_socket_addr : p.socket_addr ≡ addr
    pub same_last_reg_time : p.last_reg_time ≡ now

  save-Registered :
      (id : Text) (p : Peer) (pm : PeerMap ext)
      → Map.get id pm.map ≡ some p
      → (p' : Peer) × (Map.get id (save ext id p pm).1.map ≡ some p')
        × Registered p.uuid p.pk p.info_ip p.socket_addr p.last_reg_time p'
  unfolding save put_peer
  save-Registered id p pm h = elim (Bool-cases (is_empty p.guid)) [
    | inr e ↦ (p, ground (arith, e, h), ground arith)
    | inl e ↦ elim (Option-cases (ext.insert_peer id p.uuid p.pk (ext.to_json p.info_ip) pm.db)) [
      | inl d ↦ (p, ground (arith, e, d, h), ground arith)
      | inr ((guid, db), d) ↦ (
        record p { guid = guid },
        ground (arith, e, d, get-insert id id (record p { guid = guid }) pm.map, beq_refl id),
        ground arith,
      )
    ]
  ]

  save-other :
      (id j : Text) (p : Peer) (pm : PeerMap ext)
      → (id == j) ≡ false
      → Map.get j (save ext id p pm).1.map ≡ Map.get j pm.map
  unfolding save put_peer
  save-other id j p pm h = elim (Bool-cases (is_empty p.guid)) [
    | inr e ↦ ground (arith, e)
    | inl e ↦ elim (Option-cases (ext.insert_peer id p.uuid p.pk (ext.to_json p.info_ip) pm.db)) [
      | inl d ↦ ground (arith, e, d)
      | inr ((guid, db), d) ↦
          ground (arith, e, d, get-insert id j (record p { guid = guid }) pm.map)
    ]
  ]

  -- The peer after `update_pk`, whether or not the database took it.
  pub update_pk-Registered :
      (now : ℕ) (id : Text) (peer : Peer) (addr : SocketAddr) (uuid pk ip : Text) (pm : PeerMap ext)
      → (p' : Peer) × (Map.get id (update_pk ext now id peer addr uuid pk ip pm).1.map ≡ some p')
        × Registered uuid pk ip addr now p'
  unfolding update_pk
  update_pk-Registered now id peer addr uuid pk ip pm =
      let p = record peer {
        socket_addr = addr;
        uuid = uuid;
        pk = pk;
        last_reg_time = now;
        info_ip = ip;
      } in
      save-Registered id p (put_peer ext id p pm) (put_peer_self id p pm)

  pub update_pk-other :
      (now : ℕ) (id j : Text) (peer : Peer) (addr : SocketAddr) (uuid pk ip : Text)
      → (pm : PeerMap ext) → (id == j) ≡ false
      → Map.get j (update_pk ext now id peer addr uuid pk ip pm).1.map ≡ Map.get j pm.map
  unfolding update_pk
  update_pk-other now id j peer addr uuid pk ip pm h =
      save-other id j _ (put_peer ext id _ pm) h ∙ put_peer-other id j _ pm h
