-- ===== src/Hbbs/PunchHole/Answers.antt =====
-- What `handle_punch_hole_request` of src/rendezvous_server.rs lets through, and the relay it names.
use rustdesk_server.Prelude.{
  ℕ, ◌≡◌, refl, ◌≢◌, ◌⊎◌, inl, inr, Bool, true, ◌&&◌, not, Option, none, some, [], arith, ltb, leb,
  ◌==◌, text_eq, list_beq_iff, contains, Bool-cases, Option-cases, if◌then◌else◌, subst,
}
use rustdesk_server.Prelude.Text.{Text, is_empty}
use rustdesk_server.Net.{SocketAddr}
use rustdesk_server.Clock.{elapsed_ms}
use rustdesk_server.Numbers.{Float}
use rustdesk_server.Routes.{Networks}
use rustdesk_server.Selector.{pick}
use rustdesk_server.Selector.Picking.{pick-contains}
use rustdesk_server.Hbbs.Peers.{Database, Peer, get}
use rustdesk_server.Hbbs.Login.{login_failure}
use rustdesk_server.Hbbs.PunchHole.{
  Externals, PunchHoleRequest, Answer, failure, other_failure, fetch_local_addr, punch_hole,
  Settings, Rendezvous, is_lan, forces_relay, introduce, answer_online, answer_peer,
  handle_punch_hole_request, reg_timeout,
}

-- The relay that an answer names.
unfoldable pub relay_of : {ext : Externals} → Answer ext → Option Text
relay_of (failure f) = none
relay_of (other_failure m) = none
relay_of (fetch_local_addr a relay) = some relay
relay_of (punch_hole a nat relay) = some relay

module _ (ext : Externals) (db : Database) (fl : Float) (nets : Networks) where
  -- Why a request is let through to the address `to`.
  pub record LetThrough (now epoch : ℕ) (cfg : Settings ext) (ph : PunchHoleRequest ext)
      (r : Rendezvous ext db fl nets) (to : SocketAddr) : Type 0 where
    pub licence : (is_empty cfg.key ≡ true) ⊎ (ph.licence_key ≡ cfg.key)
    pub login : login_failure ext.decode_token cfg.must_login cfg.jwt_secret epoch ph.token ≡ none
    pub peer : Peer
    pub found : (get db now ph.id r.peers).0 ≡ some peer
    pub alive : ltb (elapsed_ms now peer.last_reg_time) reg_timeout ≡ true
    pub address : to ≡ peer.socket_addr

  -- A request is passed on to an address only if its licence key fits, its login is in order, and
  -- its id is a peer that was seen within 30 seconds, at that address.
  pub handle_punch_hole_request-LetThrough :
      (now epoch : ℕ) (cfg : Settings ext) (addr : SocketAddr) (ph : PunchHoleRequest ext)
      (ws : Bool)
      → (r : Rendezvous ext db fl nets) (to : SocketAddr)
      → (handle_punch_hole_request ext db fl nets now epoch cfg addr ph ws r).0.1 ≡ some to
      → LetThrough now epoch cfg ph r to
  unfolding handle_punch_hole_request answer_peer answer_online
  handle_punch_hole_request-LetThrough now epoch cfg addr ph ws r to h =
      let beq = list_beq_iff ph.licence_key cfg.key in
      let fail = login_failure ext.decode_token cfg.must_login cfg.jwt_secret epoch ph.token in
      elim (Bool-cases (not (is_empty cfg.key) && not (ph.licence_key == cfg.key))) [
        | inl e ↦ ground (arith, e, h)
        | inr e ↦ elim (Option-cases fail) [
          | inr (m, l) ↦ ground (arith, e, l, h)
          | inl l ↦ elim (Option-cases (get db now ph.id r.peers).0) [
            | inl g ↦ ground (arith, e, l, g, h)
            | inr (p, g) ↦ elim (Bool-cases (leb reg_timeout (elapsed_ms now p.last_reg_time))) [
              | inl t ↦ ground (arith, e, l, g, t, h)
              | inr t ↦ record {
                licence = ground (arith, beq, e);
                login = l;
                peer = p;
                found = g;
                alive = ground (arith, t);
                address = ground (arith, e, l, g, t, h);
              }
            ]
          ]
        ]
      ]

  -- A request that is not passed on leaves the relay selector and the log of requests as they were.
  pub handle_punch_hole_request_refused :
      (now epoch : ℕ) (cfg : Settings ext) (addr : SocketAddr) (ph : PunchHoleRequest ext)
      (ws : Bool)
      → (r : Rendezvous ext db fl nets)
      → (handle_punch_hole_request ext db fl nets now epoch cfg addr ph ws r).0.1 ≡ none
      → let res = handle_punch_hole_request ext db fl nets now epoch cfg addr ph ws r in
        (res.1.relay_servers ≡ r.relay_servers) × (res.1.punch_reqs ≡ r.punch_reqs)
  unfolding handle_punch_hole_request answer_peer answer_online
  handle_punch_hole_request_refused now epoch cfg addr ph ws r h =
      let fail = login_failure ext.decode_token cfg.must_login cfg.jwt_secret epoch ph.token in
      elim (Bool-cases (not (is_empty cfg.key) && not (ph.licence_key == cfg.key))) [
        | inl e ↦ rw e (refl, refl)
        | inr e ↦ elim (Option-cases fail) [
          | inr (m, l) ↦ rw (e, l) (refl, refl)
          | inl l ↦ elim (Option-cases (get db now ph.id r.peers).0) [
            | inl g ↦ rw (e, l, g) (refl, refl)
            | inr (p, g) ↦ elim (Bool-cases (leb reg_timeout (elapsed_ms now p.last_reg_time))) [
              | inl t ↦ rw (e, l, g, t) (refl, refl)
              | inr t ↦ ground (arith, e, l, g, t, h)
            ]
          ]
        ]
      ]

  introduce-relay :
      (cfg : Settings ext) (peer addr : SocketAddr) (ph : PunchHoleRequest ext) (ws : Bool)
      → (picked : Text)
      → relay_of (introduce ext cfg peer addr ph ws picked)
        ≡ some (
            if forces_relay ext cfg peer addr && is_lan ext cfg peer.ip
            then cfg.local_ip
            else picked)
  unfolding introduce relay_of
  introduce-relay cfg peer addr ph ws picked = ground arith

  -- Where relays are live, the relay that an answer names is one of these, or it is the server's
  -- local address, for a peer in the intranet.
  pub handle_punch_hole_request-contains :
      (now epoch : ℕ) (cfg : Settings ext) (addr : SocketAddr) (ph : PunchHoleRequest ext)
      (ws : Bool)
      → (r : Rendezvous ext db fl nets) (relay : Text) → r.relay_servers.live ≢ []
      → relay_of (handle_punch_hole_request ext db fl nets now epoch cfg addr ph ws r).0.0
        ≡ some relay
      → let res = handle_punch_hole_request ext db fl nets now epoch cfg addr ph ws r in
        (contains relay r.relay_servers.live ≡ true)
        ⊎ ((relay ≡ cfg.local_ip)
            × (to : SocketAddr) × (res.0.1 ≡ some to)
            × (is_lan ext cfg to.ip ≡ true))
  unfolding handle_punch_hole_request answer_peer answer_online relay_of
  handle_punch_hole_request-contains now epoch cfg addr ph ws r relay live h =
      let fail = login_failure ext.decode_token cfg.must_login cfg.jwt_secret epoch ph.token in
      elim (Bool-cases (not (is_empty cfg.key) && not (ph.licence_key == cfg.key))) [
        | inl e ↦ ground (arith, e, h)
        | inr e ↦ elim (Option-cases fail) [
          | inr (m, l) ↦ ground (arith, e, l, h)
          | inl l ↦ elim (Option-cases (get db now ph.id r.peers).0) [
            | inl g ↦ ground (arith, e, l, g, h)
            | inr (p, g) ↦ elim (Bool-cases (leb reg_timeout (elapsed_ms now p.last_reg_time))) [
              | inl t ↦ ground (arith, e, l, g, t, h)
              | inr t ↦
                  let to = p.socket_addr in
                  let picked = (pick fl nets now addr.ip to.ip true r.relay_servers).0.relay in
                  let named = introduce-relay cfg to addr ph ws picked in
                  let c = pick-contains fl nets now addr.ip to.ip true r.relay_servers live in
                  elim (Bool-cases (forces_relay ext cfg to addr && is_lan ext cfg to.ip)) [
                    | inl f ↦ inr (
                      ground (arith, e, l, g, t, h, named, f),
                      to,
                      ground (arith, e, l, g, t),
                      ground (arith, f),
                    )
                    | inr f ↦ inl (
                        subst (λ x. contains x r.relay_servers.live ≡ true)
                          (ground (arith, e, l, g, t, h, named, f)) c)
                  ]
            ]
          ]
        ]
      ]
