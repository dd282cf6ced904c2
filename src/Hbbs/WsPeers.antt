-- ===== src/Hbbs/WsPeers.antt =====
-- The registry of websocket peers in src/rendezvous_server.rs. A channel is named by the serial of
-- the connection whose task owns it; a task that has ended has dropped its receiver.
use rustdesk_server.Prelude.{
  ℕ, ◌≡◌, ◌≢◌, Bool, true, false, Option, none, some, arith, if◌then◌else◌, ◌==◌, nat_eq, beq_refl,
}
use rustdesk_server.Prelude.Map
use rustdesk_server.Prelude.Map.{Map, get-insert, get-remove}
use rustdesk_server.Net.{SocketAddr, addr_eq}

-- The serials of the connections, by address.
abbrev pub WsPeers : Type 0
WsPeers = Map SocketAddr ℕ

module _ (try_into_v4 : SocketAddr → SocketAddr) where
  unfoldable pub register_ws_peer : SocketAddr → ℕ → WsPeers → WsPeers
  register_ws_peer addr conn peers = Map.insert (try_into_v4 addr) conn peers

  -- Hand a message to the task that owns this peer's websocket. `open` says whose tasks run. The
  -- result names the connection that got the message; a stale entry is dropped.
  unfoldable pub push_to_ws_peer : (ℕ → Bool) → SocketAddr → WsPeers → Option ℕ × WsPeers
  push_to_ws_peer is_open addr peers =
      let key = try_into_v4 addr in
      elim (Map.get key peers) [
        | none ↦ (none, peers)
        | some conn ↦ if is_open conn then (some conn, peers) else (none, Map.remove key peers)
      ]

  -- `WsPeerGuard::drop`, when a connection's task ends.
  unfoldable pub drop_guard : SocketAddr → ℕ → WsPeers → WsPeers
  drop_guard addr conn peers =
      let key = try_into_v4 addr in
      elim (Map.get key peers) [
        | none ↦ peers
        | some other ↦ if other == conn then Map.remove key peers else peers
      ]

  pub push-register :
      (is_open : ℕ → Bool) (addr : SocketAddr) (conn : ℕ) (peers : WsPeers)
      → is_open conn ≡ true
      → (push_to_ws_peer is_open addr (register_ws_peer addr conn peers)).0 ≡ some conn
  unfolding push_to_ws_peer register_ws_peer
  push-register is_open addr conn peers h = ground (
    arith,
    get-insert (try_into_v4 addr) (try_into_v4 addr) conn peers,
    beq_refl (try_into_v4 addr),
    h,
  )

  -- When an older connection of an address ends after a newer one has registered there, the newer
  -- one, if its task runs, still gets the messages.
  pub push-drop_guard :
      (is_open : ℕ → Bool) (addr : SocketAddr) (old new : ℕ) (peers : WsPeers)
      → old ≢ new
      → is_open new ≡ true
      → (push_to_ws_peer is_open addr
          (drop_guard addr old (register_ws_peer addr new (register_ws_peer addr old peers)))).0
        ≡ some new
  unfolding drop_guard register_ws_peer push_to_ws_peer
  push-drop_guard is_open addr old new peers n h =
      let key = try_into_v4 addr in
      let p : Map.get key (Map.insert key new (Map.insert key old peers)) ≡ some new =
        ground (arith, get-insert key key new (Map.insert key old peers), beq_refl key) in
      ground (arith, p, h)

  -- Once the task of a connection has ended, its guard leaves nobody to push to at its address; and a
  -- push before the guard runs reports that no websocket took the message and drops the stale entry.
  pub push_after_end :
      (is_open : ℕ → Bool) (addr : SocketAddr) (conn : ℕ) (peers : WsPeers)
      → is_open conn ≡ false
      → ((push_to_ws_peer is_open addr (drop_guard addr conn (register_ws_peer addr conn peers))).0
          ≡ none)
        × (push_to_ws_peer is_open addr (register_ws_peer addr conn peers)
            ≡ (none, Map.remove (try_into_v4 addr) (register_ws_peer addr conn peers)))
  unfolding drop_guard register_ws_peer push_to_ws_peer
  push_after_end is_open addr conn peers h =
      let key = try_into_v4 addr in
      let m = Map.insert key conn peers in
      let p : Map.get key m ≡ some conn =
        ground (arith, get-insert key key conn peers, beq_refl key) in
      let q : Map.get key (Map.remove key m) ≡ none =
        ground (arith, get-remove key key m, beq_refl key) in
      (ground (arith, p, q), ground (arith, p, h))
