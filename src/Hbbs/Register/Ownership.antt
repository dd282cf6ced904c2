-- ===== src/Hbbs/Register/Ownership.antt =====
-- Who may change the record of an id, by `handle_register_pk` of src/rendezvous_server.rs.
use rustdesk_server.Prelude.{
  ℕ, ◌≡◌, refl, ◌⊎◌, inl, inr, Bool, false, ◌||◌, some, arith, ltb, ◌==◌, text_eq, list_beq_iff,
  Option-cases, Bool-cases, length, ◌∙◌, subst,
}
use rustdesk_server.Prelude.Map
use rustdesk_server.Prelude.Text.{Text, is_empty}
use rustdesk_server.Net.{SocketAddr}
use rustdesk_server.Hbbs.Blocker.{check_ip_blocker}
use rustdesk_server.Hbbs.Peers.{Database, Peer, reg_ok, get_or}
use rustdesk_server.Hbbs.Peers.Laws.{get_or_self, get_or-keeps}
use rustdesk_server.Hbbs.Register.{
  RegisterPk, Registry, compare_peer, count_reg, finish, register_peer, register_allowed,
  handle_register_pk, max_peer_id_len,
}
use rustdesk_server.Hbbs.Register.Finishing.{
  Agrees, compare_peer-Agrees, SameOwner, count_reg-SameOwner, Holds, finish-Holds, finish-other,
}

module _ (ext : Database) where
  -- What `j` holds after, whose peer was `p`: the same uuid, and another key only from the same
  -- uuid and address.
  pub record Keeps (rk : RegisterPk) (ip j : Text) (p : Peer) (r : Registry ext) : Type 0 where
    pub peer : Peer
    pub found : Map.get j r.peers.map ≡ some peer
    pub same_uuid : peer.uuid ≡ p.uuid
    pub pk_from :
        (peer.pk ≡ p.pk) ⊎ ((rk.id ≡ j) × (rk.uuid ≡ p.uuid) × (p.info_ip ≡ ip) × (peer.pk ≡ rk.pk))

  Keeps-same :
      (rk : RegisterPk) (ip j : Text) (p : Peer) (r : Registry ext)
      → Map.get j r.peers.map ≡ some p
      → Keeps rk ip j p r
  Keeps-same rk ip j p r h = record { peer = p; found = h; same_uuid = refl; pk_from = inl refl }

  finish-Keeps :
      (now : ℕ) (rk : RegisterPk) (addr : SocketAddr) (ip : Text) (ws changed moved : Bool)
      → (peer peer' : Peer) (r : Registry ext) (j : Text) (p : Peer) → Agrees rk ip peer changed
      → SameOwner peer peer'
      → Map.get rk.id r.peers.map ≡ some peer
      → Map.get j r.peers.map ≡ some p
      → is_empty p.uuid ≡ false
      → Keeps rk ip j p (finish ext now rk addr ip ws (changed, moved) peer' r).1
  finish-Keeps now rk addr ip ws changed moved peer peer' r j p a o g h n =
      elim (Bool-cases (rk.id == j)) [
        | inr e ↦
            Keeps-same rk ip j p _
              (finish-other ext now rk addr ip ws changed moved peer' r j e ∙ h)
        | inl e ↦
            let same : rk.id ≡ j = ground (arith, list_beq_iff rk.id j, e) in
            let (q, f, t) = finish-Holds ext now rk addr ip ws changed moved peer peer' r a o in
            let peer-p : peer ≡ p = grind (arith, g, h, same) in
            let owner = a.owner in
            let key = a.key in
            let u = t.uuid in
            let k = t.pk in
            let i = t.info_ip in
            record {
              peer = q;
              found =
                  subst
                    (λ x.
                      Map.get x (finish ext now rk addr ip ws (changed, moved) peer' r).1.peers.map
                      ≡ some q)
                    same f;
              same_uuid = grind (arith, owner, u, peer-p, n);
              pk_from = grind (arith, owner, key, u, k, i, same, peer-p, n);
            }
      ]

  register_peer-Keeps :
      (now : ℕ) (rk : RegisterPk) (addr : SocketAddr) (ip : Text) (ws : Bool)
      → (peer : Peer) (r : Registry ext) (j : Text) (p : Peer)
      → Map.get rk.id r.peers.map ≡ some peer
      → Map.get j r.peers.map ≡ some p
      → is_empty p.uuid ≡ false
      → Keeps rk ip j p (register_peer ext now rk addr ip ws peer r).1
  unfolding register_peer
  register_peer-Keeps now rk addr ip ws peer r j p g h n =
      elim (Option-cases (compare_peer rk ip peer)) [
        | inl e ↦ rw (register_peer, e) (Keeps-same rk ip j p r h)
        | inr ((changed, moved), e) ↦ elim (Option-cases (count_reg now peer)) [
          | inl d ↦ rw (register_peer, e, d) (Keeps-same rk ip j p r h)
          | inr (peer', d) ↦
              rw (register_peer, e, d)
                (finish-Keeps now rk addr ip ws changed moved peer peer' r j p
                  (compare_peer-Agrees rk ip peer changed moved e)
                  (count_reg-SameOwner now peer peer' d) g h n)
        ]
      ]

  register_allowed-Keeps :
      (now : ℕ) (rk : RegisterPk) (addr : SocketAddr) (ip : Text) (ws : Bool)
      → (r : Registry ext) (j : Text) (p : Peer) → Map.get j r.peers.map ≡ some p
      → is_empty p.uuid ≡ false
      → Keeps rk ip j p (register_allowed ext now rk addr ip ws r).1
  unfolding register_allowed
  register_allowed-Keeps now rk addr ip ws r j p h n =
      let (peer, pm) = get_or ext now rk.id r.peers in
      register_peer-Keeps now rk addr ip ws (get_or ext now rk.id r.peers).0
        (record r { peers = (get_or ext now rk.id r.peers).1 }) j p
        (get_or_self ext now rk.id r.peers) (get_or-keeps ext now rk.id j r.peers p h) n

  -- Whatever registers, an id that is in memory with a uuid stays there with that uuid; its key
  -- stays too, unless the registration is for the id, gives the same uuid, and comes from the
  -- address of the record, whose key is then the one registered.
  pub handle_register_pk-Keeps :
      (now : ℕ) (rk : RegisterPk) (addr : SocketAddr) (ip : Text) (ws : Bool)
      → (r : Registry ext) (j : Text) (p : Peer) → Map.get j r.peers.map ≡ some p
      → is_empty p.uuid ≡ false
      → Keeps rk ip j p (handle_register_pk ext now rk addr ip ws r).1
  unfolding handle_register_pk
  handle_register_pk-Keeps now rk addr ip ws r j p h n =
      elim (Bool-cases (is_empty rk.uuid || is_empty rk.pk)) [
        | inl e ↦ rw e (Keeps-same rk ip j p r h)
        | inr e ↦ elim (Bool-cases (ltb (length rk.id) 6 || ltb max_peer_id_len (length rk.id))) [
          | inl d ↦ rw (e, d) (Keeps-same rk ip j p r h)
          | inr d ↦ elim (Bool-cases (check_ip_blocker now ip rk.id r.ip_blocker).0) [
            | inl a ↦ rw (e, d, a) (register_allowed-Keeps now rk addr ip ws _ j p h n)
            | inr a ↦ rw (e, d, a) (Keeps-same rk ip j p _ h)
          ]
        ]
      ]

  register_peer-Holds :
      (now : ℕ) (rk : RegisterPk) (addr : SocketAddr) (ip : Text) (ws : Bool)
      → (peer : Peer) (r : Registry ext) → (register_peer ext now rk addr ip ws peer r).0 ≡ reg_ok
      → (p : Peer) × (Map.get rk.id (register_peer ext now rk addr ip ws peer r).1.peers.map
          ≡ some p)
        × Holds rk ip p
  unfolding register_peer
  register_peer-Holds now rk addr ip ws peer r h = elim (Option-cases (compare_peer rk ip peer)) [
    | inl e ↦ ground (arith, e, h)
    | inr ((changed, moved), e) ↦ elim (Option-cases (count_reg now peer)) [
      | inl d ↦ ground (arith, e, d, h)
      | inr (peer', d) ↦
          rw (register_peer, e, d)
            (finish-Holds ext now rk addr ip ws changed moved peer peer' r
              (compare_peer-Agrees rk ip peer changed moved e)
              (count_reg-SameOwner now peer peer' d))
    ]
  ]

  -- A registration that is answered with OK leaves in memory, at its id, a peer with its uuid, its
  -- key and the address it came from.
  pub handle_register_pk-Holds :
      (now : ℕ) (rk : RegisterPk) (addr : SocketAddr) (ip : Text) (ws : Bool) (r : Registry ext)
      → (handle_register_pk ext now rk addr ip ws r).0 ≡ some reg_ok
      → (p : Peer) × (Map.get rk.id (handle_register_pk ext now rk addr ip ws r).1.peers.map
          ≡ some p)
        × Holds rk ip p
  unfolding handle_register_pk register_allowed
  handle_register_pk-Holds now rk addr ip ws r h =
      elim (Bool-cases (is_empty rk.uuid || is_empty rk.pk)) [
        | inl e ↦ ground (arith, e, h)
        | inr e ↦ elim (Bool-cases (ltb (length rk.id) 6 || ltb max_peer_id_len (length rk.id))) [
          | inl d ↦ ground (arith, e, d, h)
          | inr d ↦ elim (Bool-cases (check_ip_blocker now ip rk.id r.ip_blocker).0) [
            | inl a ↦
                rw (e, d, a)
                  (register_peer-Holds now rk addr ip ws (get_or ext now rk.id r.peers).0
                    (record r {
                      peers = (get_or ext now rk.id r.peers).1;
                      ip_blocker = (check_ip_blocker now ip rk.id r.ip_blocker).1;
                    })
                    (ground (arith, e, d, a, h)))
            | inr a ↦ ground (arith, e, d, a, h)
          ]
        ]
      ]
