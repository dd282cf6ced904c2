-- ===== src/Hbbs/Register/Finishing.antt =====
-- What `handle_register_pk` of src/rendezvous_server.rs compares and records, step by step.
use rustdesk_server.Prelude.{
  ℕ, ◌≡◌, ◌⊎◌, inl, inr, Bool, true, false, ◌||◌, some, arith, ◌==◌, text_eq, list_beq_iff,
  Bool-cases, ◌∙◌,
}
use rustdesk_server.Prelude.Map
use rustdesk_server.Prelude.Text.{Text, is_empty}
use rustdesk_server.Net.{SocketAddr}
use rustdesk_server.Hbbs.Peers.{Database, Peer, put_peer}
use rustdesk_server.Hbbs.Peers.Laws.{
  put_peer_self, put_peer-other, update_pk-Registered, update_pk-other,
}
use rustdesk_server.Hbbs.Register.{RegisterPk, Registry, compare_peer, count_reg, finish}

-- What a comparison that is no mismatch says of the peer.
pub record Agrees (rk : RegisterPk) (ip : Text) (peer : Peer) (changed : Bool) : Type 0 where
  pub owner : (is_empty peer.uuid ≡ true) ⊎ (peer.uuid ≡ rk.uuid)
  pub key : (is_empty peer.uuid ≡ true) ⊎ ((peer.pk ≡ rk.pk) ⊎ (peer.info_ip ≡ ip))
  pub unchanged : changed ≡ false → (peer.uuid ≡ rk.uuid) × (peer.pk ≡ rk.pk) × (peer.info_ip ≡ ip)

pub compare_peer-Agrees :
    (rk : RegisterPk) (ip : Text) (peer : Peer) (changed moved : Bool)
    → compare_peer rk ip peer ≡ some (changed, moved)
    → Agrees rk ip peer changed
unfolding compare_peer
compare_peer-Agrees rk ip peer changed moved h =
    let u = list_beq_iff peer.uuid rk.uuid in
    let k = list_beq_iff peer.pk rk.pk in
    let i = list_beq_iff peer.info_ip ip in
    record {
      owner = ground (arith, u, k, i);
      key = ground (arith, u, k, i);
      unchanged = λ e. ground (arith, u, k, i);
    }

pub record SameOwner (p q : Peer) : Type 0 where
  pub uuid : q.uuid ≡ p.uuid
  pub pk : q.pk ≡ p.pk
  pub info_ip : q.info_ip ≡ p.info_ip

pub count_reg-SameOwner : (now : ℕ) (p q : Peer) → count_reg now p ≡ some q → SameOwner p q
unfolding count_reg
count_reg-SameOwner now p q h = ground arith

-- The record holds what was registered, from that address.
pub record Holds (rk : RegisterPk) (ip : Text) (p : Peer) : Type 0 where
  pub uuid : p.uuid ≡ rk.uuid
  pub pk : p.pk ≡ rk.pk
  pub info_ip : p.info_ip ≡ ip

module _ (ext : Database) where
  pub finish-Holds :
      (now : ℕ) (rk : RegisterPk) (addr : SocketAddr) (ip : Text) (ws changed moved : Bool)
      → (peer peer' : Peer) (r : Registry ext) → Agrees rk ip peer changed
      → SameOwner peer peer'
      → (p : Peer) × (Map.get rk.id
            (finish ext now rk addr ip ws (changed, moved) peer' r).1.peers.map
          ≡ some p)
        × Holds rk ip p
  unfolding finish
  finish-Holds now rk addr ip ws changed moved peer peer' r a o =
      let pm = put_peer ext rk.id peer' r.peers in
      elim (Bool-cases (changed || ws)) [
        | inl e ↦
            let (p, g, t) = update_pk-Registered ext now rk.id peer' addr rk.uuid rk.pk ip pm in
            (
              p,
              ground (arith, e, g),
              record { uuid = t.same_uuid; pk = t.same_pk; info_ip = t.same_info_ip },
            )
        | inr e ↦
            let same = a.unchanged (ground (arith, e)) in
            (
              peer',
              ground (arith, e, put_peer_self ext rk.id peer' r.peers),
              record { uuid = o.uuid ∙ same.0; pk = o.pk ∙ same.1; info_ip = o.info_ip ∙ same.2 },
            )
      ]

  pub finish-other :
      (now : ℕ) (rk : RegisterPk) (addr : SocketAddr) (ip : Text) (ws changed moved : Bool)
      → (peer : Peer) (r : Registry ext) (j : Text) → (rk.id == j) ≡ false
      → Map.get j (finish ext now rk addr ip ws (changed, moved) peer r).1.peers.map
        ≡ Map.get j r.peers.map
  unfolding finish
  finish-other now rk addr ip ws changed moved peer r j h =
      let pm = put_peer ext rk.id peer r.peers in
      let p = put_peer-other ext rk.id j peer r.peers h in
      let q = update_pk-other ext now rk.id j peer addr rk.uuid rk.pk ip pm h in
      ground (arith, p, q)
