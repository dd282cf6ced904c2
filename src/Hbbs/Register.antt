-- ===== src/Hbbs/Register.antt =====
-- `handle_register_pk` and `update_addr` of src/rendezvous_server.rs. A call is one step, in which no other
-- task runs, although the source awaits between the test of the uuid and the change.
pub mod Ownership
pub mod Finishing
use rustdesk_server.Prelude.{
  ℕ, ◌+◌, ◌≡◌, Bool, true, false, ◌&&◌, ◌||◌, not, Option, none, some, List, [], ◌∷◌, arith, ltb,
  if◌then◌else◌, ◌==◌, text_eq, nat_beq, length,
}
use rustdesk_server.Prelude.Map
use rustdesk_server.Prelude.Map.{Map}
use rustdesk_server.Prelude.Text.{Text, is_empty}
use rustdesk_server.Net.{IpAddr, ip_beq, SocketAddr, is_loopback}
use rustdesk_server.Clock.{elapsed_secs}
use rustdesk_server.Hbbs.Blocker.{IpBlockMap, check_ip_blocker}
use rustdesk_server.Hbbs.Peers.{
  Database, Peer, PeerMap, RegResult, reg_ok, uuid_mismatch, too_frequent, get_in_memory, get_or,
  put_peer, update_pk,
}

abbrev pub max_peer_id_len : ℕ
max_peer_id_len = 253

abbrev pub ip_change_dur : ℕ
ip_change_dur = 180

-- Since when, and how often each address was seen.
abbrev pub IpChanges : Type 0
IpChanges = Map Text (ℕ × Map Text ℕ)

-- The message RegisterPk.
pub record RegisterPk : Type 0 where
  pub id : Text
  pub uuid : Text
  pub pk : Text

count_ip : Text → Map Text ℕ → Map Text ℕ
count_ip ip ips = elim (Map.get ip ips) [
  | some v ↦ Map.insert ip (v + 1) ips
  | none ↦ Map.insert ip 1 ips
]

unfoldable pub note_ip_change : ℕ → Text → Text → IpChanges → IpChanges
unfolding count_ip
note_ip_change now id ip m = elim (Map.get id m) [
  | none ↦ Map.insert id (now, (ip, 1) ∷ []) m
  | some (tm, ips) ↦
      if ltb ip_change_dur (elapsed_secs now tm)
      then Map.insert id (now, (ip, 1) ∷ []) m
      else Map.insert id (tm, count_ip ip ips) m
]

-- How a registration compares with the peer that has the id; `none` is a mismatch. The two flags
-- say whether the record changes and whether the address does.
unfoldable pub compare_peer : RegisterPk → Text → Peer → Option (Bool × Bool)
compare_peer rk ip peer =
    if is_empty peer.uuid
    then some (true, false)
    else if peer.uuid == rk.uuid
    then (if not (peer.info_ip == ip) && not (peer.pk == rk.pk)
        then none
        else some (
          not (peer.uuid == rk.uuid) || not (peer.pk == rk.pk) || not (peer.info_ip == ip),
          not (peer.info_ip == ip),
        ))
    else none

-- The peer's counter of registrations; `none` refuses.
unfoldable pub count_reg : ℕ → Peer → Option Peer
count_reg now peer =
    let old = ltb 6 (elapsed_secs now peer.reg_time) in
    if not old && ltb 2 peer.reg_count
    then none
    else some (record peer { reg_count = (if old then 0 else peer.reg_count) + 1; reg_time = now })

module _ (ext : Database) where
  -- The peers, and the statics IP_BLOCKER and IP_CHANGES.
  pub record Registry : Type 0 where
    pub peers : PeerMap ext
    pub ip_blocker : IpBlockMap
    pub ip_changes : IpChanges

  -- Record a registration that was counted. The result of `update_pk` is not looked at.
  pub finish :
      ℕ
      → RegisterPk
      → SocketAddr
      → Text
      → Bool
      → Bool × Bool
      → Peer
      → Registry
      → RegResult × Registry
  finish now rk addr ip ws (changed, ip_changed) peer r =
      let pm = put_peer ext rk.id peer r.peers in
      let changes = if ip_changed then note_ip_change now rk.id ip r.ip_changes else r.ip_changes in
      let updated = (update_pk ext now rk.id peer addr rk.uuid rk.pk ip pm).1 in
      (reg_ok, record r { peers = if changed || ws then updated else pm; ip_changes = changes })

  register_peer : ℕ → RegisterPk → SocketAddr → Text → Bool → Peer → Registry → RegResult × Registry
  unfolding finish
  register_peer now rk addr ip ws peer r = elim (compare_peer rk ip peer) [
    | none ↦ (uuid_mismatch, r)
    | some flags ↦ elim (count_reg now peer) [
      | none ↦ (too_frequent, r)
      | some peer' ↦ finish now rk addr ip ws flags peer' r
    ]
  ]

  register_allowed : ℕ → RegisterPk → SocketAddr → Text → Bool → Registry → RegResult × Registry
  unfolding register_peer
  register_allowed now rk addr ip ws r =
      let (peer, pm) = get_or ext now rk.id r.peers in
      register_peer now rk addr ip ws peer (record r { peers = pm })

  -- Validate and record a RegisterPk; `ip` is the address as text. `none`: do not answer.
  unfoldable pub handle_register_pk :
      ℕ → RegisterPk → SocketAddr → Text → Bool → Registry → Option RegResult × Registry
  unfolding register_allowed
  handle_register_pk now rk addr ip ws r =
      if is_empty rk.uuid || is_empty rk.pk
      then (none, r)
      else if ltb (length rk.id) 6 || ltb max_peer_id_len (length rk.id)
      then (some uuid_mismatch, r)
      else (let (allowed, blocker) = check_ip_blocker now ip rk.id r.ip_blocker in
          let r' = record r { ip_blocker = blocker } in
          if allowed
          then (let (res, r'') = register_allowed now rk addr ip ws r' in (some res, r''))
          else (some too_frequent, r'))

  -- `ip_change` of `update_addr`, given the address as text.
  unfoldable pub moved : SocketAddr → Text → Peer → Bool
  moved addr ip old =
      (if nat_beq old.socket_addr.port 0
        then not (ip == old.info_ip)
        else not (ip_beq addr.ip old.socket_addr.ip))
      && not (is_loopback addr.ip)

  -- Refresh a peer's address and last-seen time, unless the key is wanted: the result.
  unfoldable pub update_addr : ℕ → Text → SocketAddr → Text → PeerMap ext → Bool × PeerMap ext
  unfolding moved
  update_addr now id addr ip pm = elim (get_in_memory ext id pm) [
    | none ↦ (true, pm)
    | some old ↦
        let request_pk = is_empty old.pk || moved addr ip old in
        (
          request_pk,
          if request_pk
              then pm
              else put_peer ext id (record old { socket_addr = addr; last_reg_time = now }) pm,
        )
  ]
