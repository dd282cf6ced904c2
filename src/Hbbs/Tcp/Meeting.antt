-- ===== src/Hbbs/Tcp/Meeting.antt =====
-- How two peers meet in src/rendezvous_server.rs: the one that asks over TCP is reached again, and the
-- relay that a RelayResponse names.
use rustdesk_server.Prelude.{
  ℕ, ◌≡◌, ◌≢◌, inl, inr, Bool, true, false, Option, none, some, List, [], ◌∷◌, arith, ap, sym,
  subst, Bool-cases, ◌==◌, text_eq, contains, beq_refl, list_beq_iff,
}
use rustdesk_server.Prelude.Map
use rustdesk_server.Prelude.Map.{get-insert, get-remove}
use rustdesk_server.Prelude.Text.{Text}
use rustdesk_server.Net.{SocketAddr, addr_eq}
use rustdesk_server.Numbers.{Float}
use rustdesk_server.Routes.{Networks}
use rustdesk_server.Selector.{pick}
use rustdesk_server.Selector.Picking.{pick-contains}
use rustdesk_server.Hbbs.WsPeers.{push_to_ws_peer}
use rustdesk_server.Hbbs.Peers.{Database}
use rustdesk_server.Hbbs.PunchHole.{Externals, PunchHoleRequest, is_lan, handle_punch_hole_request}
use rustdesk_server.Hbbs.Replies.{
  Delivery, over_tcp, over_sink, Links, send_to_tcp, send_to_peer, keep_route, answer_punch_hole,
}
use rustdesk_server.Hbbs.Tcp.{
  Config, Hub, Origin, with_peers, get_pk, deliver, sign_whom, relay_for, handle_hole_sent,
  pass_relay_response,
}
use rustdesk_server.Hbbs.Tcp.Messages.{
  Codec, id_of, RelayResponse, PunchHoleSent, TcpReply, punch_hole_request, relay_response,
  punch_hole_sent, relayed,
}
use rustdesk_server.Hbbs.Tcp.Handler.{handle_tcp}

module _ (ext : Externals) (codec : Codec ext) (db : Database) (fl : Float) (nets : Networks) where
  open ext use {encode_addr, try_into_v4}
  open codec use {decode_addr, decode-encode, try_into_v4_again}

  abbrev State : Type 0
  State = Hub ext codec db fl nets

  abbrev Fixed : Type 0
  Fixed = Config ext codec db fl nets

  abbrev Here : Type 0
  Here = Origin ext codec db fl nets

  -- Where the first message goes.
  unfoldable pub went : List (Delivery × TcpReply ext) → Option Delivery
  went [] = none
  went ((d, m) ∷ rest) = some d

  -- The relay that a RelayResponse which is passed on names.
  unfoldable pub relay_named : List (Delivery × TcpReply ext) → Option Text
  relay_named ((d, relayed rr) ∷ rest) = some rr.relay_server
  relay_named _ = none

  -- No websocket at the key, and a sink there.
  Waits : SocketAddr → ℕ → Links → Type 0
  Waits key sink l = (Map.get key l.ws_peers ≡ none) × (Map.get key l.tcp_punch ≡ some sink)

  send_to_peer-Waits :
      (is_open : ℕ → Bool) (to key : SocketAddr) (sink : ℕ) (l : Links)
      → Waits key sink l
      → Waits key sink (send_to_peer try_into_v4 is_open to l).1
  unfolding Waits send_to_peer push_to_ws_peer
  send_to_peer-Waits is_open to key sink l w =
      ground (arith, w, get-remove (try_into_v4 to) key l.ws_peers)

  send_to_tcp-Waits :
      (is_open : ℕ → Bool) (addr : SocketAddr) (sink : ℕ) (l : Links)
      → Waits (try_into_v4 addr) sink l
      → let r = send_to_tcp try_into_v4 is_open addr l in
        (r.0 ≡ over_tcp sink) × (Map.get (try_into_v4 addr) r.1.tcp_punch ≡ none)
  unfolding Waits send_to_tcp push_to_ws_peer over_sink
  send_to_tcp-Waits is_open addr sink l w =
      let key = try_into_v4 addr in ground (arith, w, get-remove key key l.tcp_punch, beq_refl key)

  get_pk-links :
      (now : ℕ) (c : Fixed) (version id : Text) (h : State)
      → (get_pk ext codec db fl nets now c version id h).1.links ≡ h.links
  unfolding get_pk with_peers
  get_pk-links now c version id h = ground arith

  keep_route-Waits :
      (addr : SocketAddr) (sink : ℕ) (l : Links)
      → Map.get (try_into_v4 addr) l.ws_peers ≡ none
      → Waits (try_into_v4 addr) sink (keep_route try_into_v4 addr none (some sink) l)
  unfolding Waits keep_route
  keep_route-Waits addr sink l w =
      let key = try_into_v4 addr in
      ground (arith, w, get-insert key key sink l.tcp_punch, beq_refl key)

  -- A request that is passed on leaves the connection waiting.
  handle_tcp-Waits :
      (now epoch : ℕ) (is_open : ℕ → Bool) (c : Fixed) (a : Here) (ph : PunchHoleRequest ext)
      (sink : ℕ) (h : State) (to : SocketAddr)
      → a.ws_conn ≡ none
      → Map.get (try_into_v4 a.addr) h.links.ws_peers ≡ none
      → (handle_punch_hole_request ext db fl nets now epoch c.settings a.addr ph a.ws
          h.rendezvous).0.1
        ≡ some to
      → Waits
          (try_into_v4 a.addr)
          sink
          (handle_tcp ext codec db fl nets now epoch is_open c a
            (punch_hole_request ph)
            (some sink)
            h).hub.links
  unfolding handle_tcp answer_punch_hole
  handle_tcp-Waits now epoch is_open c a ph sink h to n w t =
      let kept = keep_route try_into_v4 a.addr none (some sink) h.links in
      rw (handle_tcp, n, t)
        (send_to_peer-Waits is_open to (try_into_v4 a.addr) sink kept
          (keep_route-Waits a.addr sink h.links w))

  -- A client asks over TCP for a peer, and the request is passed on; no websocket has the client's
  -- address. If the next message is a peer's readiness for that client, over whatever connection, the
  -- client's own connection gets the answer, and its sink does not wait any more.
  pub handle_tcp_meets :
      (now epoch later epoch' : ℕ) (is_open : ℕ → Bool) (c : Fixed) (a b : Here)
      (ph : PunchHoleRequest ext) (sink : ℕ) (h : State) (to : SocketAddr) (phs : PunchHoleSent ext)
      (sink' : Option ℕ)
      → a.ws_conn ≡ none
      → Map.get (try_into_v4 a.addr) h.links.ws_peers ≡ none
      → (handle_punch_hole_request ext db fl nets now epoch c.settings a.addr ph a.ws
          h.rendezvous).0.1
        ≡ some to
      → phs.socket_addr ≡ encode_addr a.addr
      → let asked =
          (handle_tcp ext codec db fl nets now epoch is_open c a
            (punch_hole_request ph)
            (some sink)
            h).hub in
        let told =
          handle_tcp ext codec db fl nets later epoch' is_open c b
            (punch_hole_sent phs)
            sink'
            asked in
        (went told.sent ≡ some (over_tcp sink))
        × (Map.get (try_into_v4 a.addr) told.hub.links.tcp_punch ≡ none)
  unfolding handle_tcp handle_hole_sent deliver went
  handle_tcp_meets now epoch later epoch' is_open c a b ph sink h to phs sink' n w t e =
      let asked =
        (handle_tcp ext codec db fl nets now epoch is_open c a (punch_hole_request ph) (some sink)
          h).hub in
      let signed = (get_pk ext codec db fl nets later c phs.version phs.id asked).1 in
      let waits = handle_tcp-Waits now epoch is_open c a ph sink h to n w t in
      let same = get_pk-links later c phs.version phs.id asked in
      let found : decode_addr phs.socket_addr ≡ try_into_v4 a.addr = rw e (decode-encode a.addr) in
      let again = try_into_v4_again a.addr in
      let (d, gone) =
        send_to_tcp-Waits is_open (try_into_v4 a.addr) sink signed.links (rw (again, same) waits) in
      (
        rw (found) (ap some d),
        rw (found) (
            subst
              (λ k.
                Map.get k
                  (send_to_tcp try_into_v4 is_open (try_into_v4 a.addr) signed.links).1.tcp_punch
                ≡ none)
              again gone),
      )

  get_pk-live :
      (now : ℕ) (c : Fixed) (version id : Text) (h : State)
      → (get_pk ext codec db fl nets now c version id h).1.rendezvous.relay_servers
        ≡ h.rendezvous.relay_servers
  unfolding get_pk with_peers
  get_pk-live now c version id h = ground arith

  sign_whom-live :
      (now : ℕ) (c : Fixed) (rr : RelayResponse) (h : State)
      → (sign_whom ext codec db fl nets now c rr h).1.rendezvous.relay_servers
        ≡ h.rendezvous.relay_servers
  unfolding sign_whom
  sign_whom-live now c rr h = ground (arith, get_pk-live now c rr.version (id_of rr.whom) h)

  relay_for_outside :
      (now : ℕ) (c : Fixed) (addr to : SocketAddr) (relay : Text) (h : State)
      → h.rendezvous.relay_servers.live ≢ []
      → c.settings.local_ip ≢ []
      → is_lan ext c.settings to.ip ≡ false
      → (relay_for ext codec db fl nets now c addr to relay h).0 ≡ c.settings.local_ip
      → contains c.settings.local_ip h.rendezvous.relay_servers.live ≡ true
  unfolding relay_for
  relay_for_outside now c addr to [] h live own out e = absurd (own (sym e))
  relay_for_outside now c addr to (x ∷ xs) h live own out e =
      let relay = x ∷ xs in
      elim (Bool-cases (relay == c.settings.local_ip)) [
        | inl s ↦
            let pc = pick-contains fl nets now addr.ip to.ip true h.rendezvous.relay_servers live in
            let e' : (pick fl nets now addr.ip to.ip true h.rendezvous.relay_servers).0.relay
                ≡ c.settings.local_ip =
              ground (arith, out, s, e) in
            subst (λ r. contains r h.rendezvous.relay_servers.live ≡ true) e' pc
        | inr s ↦ ground (arith, out, s, e, list_beq_iff relay c.settings.local_ip)
      ]

  -- A RelayResponse that is passed on to an address outside the intranet names the server's own
  -- address in the intranet only if that is one of the healthy relays. There is a healthy relay, and
  -- the server has such an address.
  pub handle_tcp_relay_outside :
      (now epoch : ℕ) (is_open : ℕ → Bool) (c : Fixed) (o : Here) (rr : RelayResponse)
      (sink : Option ℕ) (h : State)
      → h.rendezvous.relay_servers.live ≢ []
      → c.settings.local_ip ≢ []
      → is_lan ext c.settings (decode_addr rr.socket_addr).ip ≡ false
      → relay_named
          (handle_tcp ext codec db fl nets now epoch is_open c o (relay_response rr) sink h).sent
        ≡ some c.settings.local_ip
      → contains c.settings.local_ip h.rendezvous.relay_servers.live ≡ true
  unfolding handle_tcp pass_relay_response deliver relay_named
  handle_tcp_relay_outside now epoch is_open c o rr sink h live own out e =
      let signed = (sign_whom ext codec db fl nets now c rr h).1 in
      let same = sign_whom-live now c rr h in
      let named : (relay_for ext codec db fl nets now c o.addr (decode_addr rr.socket_addr)
            rr.relay_server signed).0
          ≡ c.settings.local_ip =
        ground (arith, e) in
      rw (← same) (
        relay_for_outside now c o.addr (decode_addr rr.socket_addr) rr.relay_server signed
          (rw same live) own out named)
