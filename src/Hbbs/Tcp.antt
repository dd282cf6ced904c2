-- ===== src/Hbbs/Tcp.antt =====
-- `handle_tcp` of src/rendezvous_server.rs, with `get_pk`, `handle_hole_sent` and `handle_local_addr`:
-- what the server does with a message that comes over TCP or a websocket.
pub mod Messages
pub mod Handler
pub mod Answers
pub mod Meeting
use rustdesk_server.Prelude.{
  ℕ, Bool, true, false, ◌&&◌, not, Option, none, some, List, [], ◌∷◌, ltb, if◌then◌else◌, ◌==◌,
  text_eq, length,
}
use rustdesk_server.Prelude.Text.{Text, is_empty}
use rustdesk_server.Net.{SocketAddr}
use rustdesk_server.Clock.{elapsed_ms}
use rustdesk_server.Numbers.{Float}
use rustdesk_server.Routes.{Networks}
use rustdesk_server.Selector.{pick}
use rustdesk_server.Hbbs.Blocker.{IpBlockMap}
use rustdesk_server.Hbbs.WsPeers.{register_ws_peer}
use rustdesk_server.Hbbs.Online.{peers_online_state}
use rustdesk_server.Hbbs.Peers.{Database, Peer, PeerMap, RegResult, reg_ok, get, get_in_memory}
use rustdesk_server.Hbbs.Register.{
  IpChanges, RegisterPk, Registry, handle_register_pk, update_addr, max_peer_id_len,
}
use rustdesk_server.Hbbs.PunchHole.{
  Externals, PunchHoleRequest, Settings, Rendezvous, is_lan, handle_punch_hole_request, reg_timeout,
}
use rustdesk_server.Hbbs.Replies.{
  Links, Delivery, over_sink, send_to_tcp, send_to_peer, keep_route, answer_punch_hole,
}
use rustdesk_server.Hbbs.Tcp.Messages.*

module _ (ext : Externals) (codec : Codec ext) (db : Database) (fl : Float) (nets : Networks) where
  open ext use {encode_addr, try_into_v4, ip_text}
  open codec use {Secret, decode_addr, sign_id_pk}

  -- What the handler reads and never changes.
  pub record Config : Type 0 where
    pub settings : Settings ext
    pub sk : Option Secret
    pub serial : ℕ
    pub rendezvous_servers : List Text

  -- What it may change: the peers, the relay selector and the log of requests; the two statics of the
  -- registration; and the ways back to a peer.
  pub record Hub : Type 0 where
    pub rendezvous : Rendezvous ext db fl nets
    pub ip_blocker : IpBlockMap
    pub ip_changes : IpChanges
    pub links : Links

  -- Where a message comes from; `ws_conn` is there for a websocket.
  pub record Origin : Type 0 where
    pub addr : SocketAddr
    pub ws : Bool
    pub ws_conn : Option ℕ

  -- The messages that were sent, whether the connection stays open, and its sink, unless it was taken.
  pub record Outcome : Type 0 where
    pub sent : List (Delivery × TcpReply ext)
    pub keep_open : Bool
    pub sink : Option ℕ
    pub hub : Hub

  unfoldable pub with_peers : PeerMap db → Hub → Hub
  with_peers pm h = record h { rendezvous = record h.rendezvous { peers = pm } }

  -- The key of a peer, signed; empty if nothing can or need be signed.
  unfoldable pub get_pk : ℕ → Config → Text → Text → Hub → Text × Hub
  unfolding with_peers
  get_pk now c version id h = elim c.sk [
    | none ↦ ([], h)
    | some sk ↦
        if is_empty version
        then ([], h)
        else (let (peer, pm) = get db now id h.rendezvous.peers in
            elim peer [
              | none ↦ ([], with_peers pm h)
              | some p ↦ (sign_id_pk sk id p.pk, with_peers pm h)
            ])
  ]

  -- Deliver to the connection that waits at an address.
  unfoldable pub deliver :
      (ℕ → Bool) → SocketAddr → TcpReply ext → Hub → (Delivery × TcpReply ext) × Hub
  deliver is_open to msg h =
      let (d, l) = send_to_tcp try_into_v4 is_open to h.links in ((d, msg), record h { links = l })

  -- The peer says that it is ready: tell the one that asked.
  unfoldable pub handle_hole_sent :
      ℕ
      → (ℕ → Bool)
      → Config
      → SocketAddr
      → PunchHoleSent ext
      → Hub
      → (Delivery × TcpReply ext) × Hub
  unfolding deliver
  handle_hole_sent now is_open c addr phs h =
      let (pk, h') = get_pk now c phs.version phs.id h in
      deliver is_open (decode_addr phs.socket_addr)
        (punch_hole_response (record {
          socket_addr = encode_addr addr;
          pk = pk;
          relay_server = phs.relay_server;
          nature = elim phs.nat_type [ none ↦ unset | some t ↦ nat t ];
        }))
        h'

  unfoldable pub handle_local_addr :
      ℕ → (ℕ → Bool) → Config → LocalAddr ext → Hub → (Delivery × TcpReply ext) × Hub
  unfolding deliver
  handle_local_addr now is_open c la h =
      let (pk, h') = get_pk now c la.version la.id h in
      deliver is_open (decode_addr la.socket_addr)
        (punch_hole_response (record {
          socket_addr = la.local_addr;
          pk = pk;
          relay_server = la.relay_server;
          nature = is_local;
        }))
        h'

  -- The key of the peer that a RelayResponse names by its id, in the place of the id.
  unfoldable pub sign_whom : ℕ → Config → RelayResponse → Hub → Whom × Hub
  sign_whom now c rr h =
      if is_empty (id_of rr.whom)
      then (rr.whom, h)
      else (let (pk, h') = get_pk now c rr.version (id_of rr.whom) h in (by_pk pk, h'))

  -- The relay to name to the other side, `to`.
  unfoldable pub relay_for : ℕ → Config → SocketAddr → SocketAddr → Text → Hub → Text × Hub
  relay_for now c addr to relay h =
      if is_empty relay
      then (relay, h)
      else if is_lan ext c.settings to.ip
      then (c.settings.local_ip, h)
      else if relay == c.settings.local_ip
      then (let (picked, s) = pick fl nets now addr.ip to.ip true h.rendezvous.relay_servers in
          (picked.relay, record h { rendezvous = record h.rendezvous { relay_servers = s } }))
      else (relay, h)

  unfoldable pub pass_relay_response :
      ℕ → (ℕ → Bool) → Config → SocketAddr → RelayResponse → Hub → (Delivery × TcpReply ext) × Hub
  unfolding deliver sign_whom relay_for
  pass_relay_response now is_open c addr rr h =
      let to = decode_addr rr.socket_addr in
      let (whom, h1) = sign_whom now c rr h in
      let (relay, h2) = relay_for now c addr to rr.relay_server h1 in
      deliver is_open to
        (relayed (record rr { socket_addr = []; whom = whom; relay_server = relay })) h2
