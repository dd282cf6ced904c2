-- ===== src/Hbbs/PunchHole.antt =====
-- `handle_punch_hole_request` of src/rendezvous_server.rs, with `is_lan` and `get_relay_server`.
pub mod Answers
use rustdesk_server.Prelude.{
  ℕ, ◌+◌, ◌≡◌, Bool, true, false, ◌&&◌, ◌||◌, not, Option, none, some, List, [], ◌∷◌, arith, ltb,
  leb, if◌then◌else◌, ◌==◌, text_eq, nat_beq,
}
use rustdesk_server.Prelude.Text.{Text, text, is_empty}
use rustdesk_server.Net.{IpAddr, v4, v6, SocketAddr, to_ipv4, ip_beq}
use rustdesk_server.Clock.{elapsed_ms}
use rustdesk_server.Numbers.{Float}
use rustdesk_server.Routes.{Networks}
use rustdesk_server.Selector.{Selector, pick}
use rustdesk_server.Hbbs.Peers.{Database, Peer, PeerMap, get}
use rustdesk_server.Hbbs.PunchLog.{PunchReqEntry, record_punch_req}
use rustdesk_server.Hbbs.Login.{Claims, login_failure}

abbrev pub reg_timeout : ℕ
reg_timeout = 30000

-- The crates behind the handler: `Ipv4Network`, the types of the protocol and the address codec of
-- the `hbb_common` submodule, the text of an address, and `jsonwebtoken`.
pub record Externals : Type 1 where
  pub Mask : Type 0
  pub mask_contains : Mask → ℕ → Bool
  pub NatType : Type 0
  pub symmetric : NatType
  pub encode_addr : SocketAddr → Text
  pub try_into_v4 : SocketAddr → SocketAddr
  pub ip_text : IpAddr → Text
  pub decode_token : Text → Text → Option Claims

-- `punch_hole_response::Failure`, as far as the handler answers with it.
pub data Failure : Type 0 where
  license_mismatch offline id_not_exist : Failure

module _ (ext : Externals) where
  open ext use {Mask, NatType, symmetric, encode_addr, try_into_v4, ip_text}

  pub record PunchHoleRequest : Type 0 where
    pub id : Text
    pub nat_type : NatType
    pub licence_key : Text
    pub token : Text

  -- The messages of the answer, with the fields the handler sets.
  pub data Answer : Type 0 where
    failure : Failure → Answer
    other_failure : Text → Answer
    fetch_local_addr : (socket_addr relay_server : Text) → Answer
    punch_hole : (socket_addr : Text) → NatType → (relay_server : Text) → Answer

  -- `Inner` and the flags of the process, as far as the handler reads them.
  pub record Settings : Type 0 where
    pub mask : Option Mask
    pub local_ip : Text
    pub key : Text
    pub must_login : Bool
    pub jwt_secret : Text
    pub always_use_relay : Bool
    pub max_punch_requests : ℕ

  in_mask : Option Mask → ℕ → Bool
  in_mask none a = false
  in_mask (some m) a = ext.mask_contains m a

  -- An IPv6 address that is no IPv4 one is not in the network.
  unfoldable pub is_lan : Settings → IpAddr → Bool
  unfolding in_mask
  is_lan cfg (v4 a) = in_mask cfg.mask a
  is_lan cfg (v6 a) = elim (to_ipv4 a) [ none ↦ false | some b ↦ in_mask cfg.mask b ]

  -- `||` of two sides in the intranet and the same address; a websocket is never there.
  unfoldable pub same_intranet : Settings → Bool → SocketAddr → SocketAddr → Bool
  same_intranet cfg ws peer addr =
      not ws && (is_lan cfg peer.ip && is_lan cfg addr.ip || ip_beq peer.ip addr.ip)

  -- The relay is forced: by the flag, or since one side alone is in the intranet.
  unfoldable pub forces_relay : Settings → SocketAddr → SocketAddr → Bool
  forces_relay cfg peer addr =
      cfg.always_use_relay
      || (is_lan cfg peer.ip && not (is_lan cfg addr.ip)
          || not (is_lan cfg peer.ip) && is_lan cfg addr.ip)

  -- The message to the peer, given the relay that was picked.
  unfoldable pub introduce :
      Settings → SocketAddr → SocketAddr → PunchHoleRequest → Bool → Text → Answer
  introduce cfg peer addr ph ws picked =
      let forced = forces_relay cfg peer addr in
      let relay = if forced && is_lan cfg peer.ip then cfg.local_ip else picked in
      let nat_type = if forced then symmetric else ph.nat_type in
      if same_intranet cfg ws peer addr
      then fetch_local_addr (encode_addr addr) relay
      else punch_hole (encode_addr addr) nat_type relay

  module _ (db : Database) (fl : Float) (nets : Networks) where
    -- What the handler changes.
    pub record Rendezvous : Type 0 where
      pub peers : PeerMap db
      pub relay_servers : Selector fl nets
      pub punch_reqs : List PunchReqEntry

    -- The peer is online: log the request, pick the relay, introduce.
    answer_online :
        ℕ
        → Settings
        → SocketAddr
        → PunchHoleRequest
        → Bool
        → SocketAddr
        → Rendezvous
        → (Answer × Option SocketAddr) × Rendezvous
    unfolding introduce
    answer_online now cfg addr ph ws peer r =
        let log =
          record_punch_req cfg.max_punch_requests now (ip_text (try_into_v4 addr).ip)
            (ip_text (try_into_v4 peer).ip) ph.id r.punch_reqs in
        let (picked, s) = pick fl nets now addr.ip peer.ip true r.relay_servers in
        (
          (introduce cfg peer addr ph ws picked.relay, some peer),
          record r { punch_reqs = log; relay_servers = s },
        )

    answer_peer :
        ℕ
        → Settings
        → SocketAddr
        → PunchHoleRequest
        → Bool
        → Option Peer
        → Rendezvous
        → (Answer × Option SocketAddr) × Rendezvous
    unfolding answer_online
    answer_peer now cfg addr ph ws none r = ((failure id_not_exist, none), r)
    answer_peer now cfg addr ph ws (some p) r =
        if leb reg_timeout (elapsed_ms now p.last_reg_time)
        then ((failure offline, none), r)
        else answer_online now cfg addr ph ws p.socket_addr r

    -- The answer, and the peer to send it to; `none` sends it back. `now` is the clock in
    -- milliseconds, `epoch` the wall clock in seconds.
    unfoldable pub handle_punch_hole_request :
        ℕ
        → ℕ
        → Settings
        → SocketAddr
        → PunchHoleRequest
        → Bool
        → Rendezvous
        → (Answer × Option SocketAddr) × Rendezvous
    unfolding answer_peer
    handle_punch_hole_request now epoch cfg addr ph ws r =
        if not (is_empty cfg.key) && not (ph.licence_key == cfg.key)
        then ((failure license_mismatch, none), r)
        else elim (login_failure ext.decode_token cfg.must_login cfg.jwt_secret epoch ph.token) [
          | some message ↦ ((other_failure message, none), r)
          | none ↦
              let (peer, pm) = get db now ph.id r.peers in
              answer_peer now cfg addr ph ws peer (record r { peers = pm })
        ]
