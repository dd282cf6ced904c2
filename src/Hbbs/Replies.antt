-- ===== src/Hbbs/Replies.antt =====
-- How src/rendezvous_server.rs reaches a peer: `send_to_tcp`, `send_to_tcp_sync`, the route back that
-- `handle_tcp` keeps, and `handle_tcp_punch_hole_request`. A sink is named by its connection.
use rustdesk_server.Prelude.{ℕ, ◌≡◌, Bool, true, Option, none, some, arith, beq_refl}
use rustdesk_server.Prelude.Map
use rustdesk_server.Prelude.Map.{Map, get-insert, get-remove}
use rustdesk_server.Net.{SocketAddr, addr_eq}
use rustdesk_server.Hbbs.WsPeers.{WsPeers, register_ws_peer, push_to_ws_peer}

-- The websocket peers, and the sinks that wait in `tcp_punch`.
pub record Links : Type 0 where
  pub ws_peers : WsPeers
  pub tcp_punch : Map SocketAddr ℕ

-- Where a message went.
pub data Delivery : Type 0 where
  over_ws over_tcp : ℕ → Delivery
  over_udp : SocketAddr → Delivery
  undelivered : Delivery

module _ (try_into_v4 : SocketAddr → SocketAddr) where
  unfoldable pub over_sink : Option ℕ → Delivery
  over_sink none = undelivered
  over_sink (some sink) = over_tcp sink

  -- The task of a websocket, else the sink that waits, which is used up.
  unfoldable pub send_to_tcp : (ℕ → Bool) → SocketAddr → Links → Delivery × Links
  unfolding over_sink
  send_to_tcp is_open addr l =
      let (pushed, ws) = push_to_ws_peer try_into_v4 is_open addr l.ws_peers in
      elim pushed [
        | some conn ↦ (over_ws conn, record l { ws_peers = ws })
        | none ↦ (
          over_sink (Map.get (try_into_v4 addr) l.tcp_punch),
          record { ws_peers = ws; tcp_punch = Map.remove (try_into_v4 addr) l.tcp_punch },
        )
      ]

  -- The task of a websocket, else a UDP packet.
  unfoldable pub send_to_peer : (ℕ → Bool) → SocketAddr → Links → Delivery × Links
  send_to_peer is_open addr l =
      let (pushed, ws) = push_to_ws_peer try_into_v4 is_open addr l.ws_peers in
      elim pushed [
        | some conn ↦ (over_ws conn, record l { ws_peers = ws })
        | none ↦ (over_udp addr, record l { ws_peers = ws })
      ]

  -- The route back to a connection that asks: its websocket, or its sink, unless that is gone.
  unfoldable pub keep_route : SocketAddr → Option ℕ → Option ℕ → Links → Links
  keep_route addr (some conn) sink l = record l {
    ws_peers = register_ws_peer try_into_v4 addr conn l.ws_peers;
  }
  keep_route addr none none l = l
  keep_route addr none (some sink) l = record l {
    tcp_punch = Map.insert (try_into_v4 addr) sink l.tcp_punch;
  }

  -- Where the answer of `handle_punch_hole_request` goes: to the peer that it names, or back.
  unfoldable pub answer_punch_hole :
      (ℕ → Bool) → SocketAddr → Option SocketAddr → Links → Delivery × Links
  answer_punch_hole is_open addr (some to) l = send_to_peer is_open to l
  answer_punch_hole is_open addr none l = send_to_tcp is_open addr l

  -- A refused request is answered over the TCP connection that it came by, if no websocket has its
  -- address; the connection's sink is then used up.
  pub answer_punch_hole_refusal :
      (is_open : ℕ → Bool) (addr : SocketAddr) (sink : ℕ) (l : Links)
      → Map.get (try_into_v4 addr) l.ws_peers ≡ none
      → let r = answer_punch_hole is_open addr none (keep_route addr none (some sink) l) in
        (r.0 ≡ over_tcp sink) × (Map.get (try_into_v4 addr) r.1.tcp_punch ≡ none)
  unfolding answer_punch_hole send_to_tcp keep_route push_to_ws_peer
  answer_punch_hole_refusal is_open addr sink l h =
      let key = try_into_v4 addr in
      let same = beq_refl key in
      let kept = get-insert key key sink l.tcp_punch in
      let used = get-remove key key (Map.insert key sink l.tcp_punch) in
      ground (arith, h, kept, used, same)

  -- While the task of a websocket runs, what is sent to its address goes to it, whether it is an
  -- answer or for the peer.
  pub answer_punch_hole_over_ws :
      (is_open : ℕ → Bool) (addr : SocketAddr) (conn : ℕ) (l : Links)
      → is_open conn ≡ true
      → let l' = keep_route addr (some conn) none l in
        ((answer_punch_hole is_open addr none l').0 ≡ over_ws conn)
        × ((answer_punch_hole is_open addr (some addr) l').0 ≡ over_ws conn)
  unfolding answer_punch_hole send_to_tcp send_to_peer keep_route push_to_ws_peer register_ws_peer
  answer_punch_hole_over_ws is_open addr conn l o =
      let key = try_into_v4 addr in
      ground (arith, o, get-insert key key conn l.ws_peers, beq_refl key)
