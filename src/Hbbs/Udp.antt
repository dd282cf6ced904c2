-- ===== src/Hbbs/Udp.antt =====
-- `handle_udp` of src/rendezvous_server.rs: what the server does with a message that comes over UDP.
-- Sending a reply works; when it fails the source leaves the handler and opens the socket anew.
use rustdesk_server.Prelude.{
  ℕ, ◌≤◌, ◌≡◌, refl, ◌⊎◌, inl, inr, Bool, true, false, ◌&&◌, not, Option, none, some, List, [], ◌∷◌,
  arith, ltb, if◌then◌else◌, ◌==◌, text_eq, length, filterb, All, Bool-cases, Option-cases,
}
use rustdesk_server.Prelude.Text.{Text, is_empty}
use rustdesk_server.Net.{IpAddr, SocketAddr, is_loopback}
use rustdesk_server.Hbbs.Peers.{Database, RegResult}
use rustdesk_server.Hbbs.Register.{
  RegisterPk, Registry, handle_register_pk, update_addr, max_peer_id_len,
}

-- The messages that the handler tells apart. A serial is an `i32`, of which only the order is read: it
-- is given as its distance from the least one.
pub data Message : Type 0 where
  register_peer : (id : Text) (serial : ℕ) → Message
  register_pk : RegisterPk → Message
  configure_update : (serial : ℕ) → List Text → Message
  software_update : (url : Text) → Message
  -- PunchHoleRequest, PunchHoleSent, LocalAddr, and whatever else there is.
  unsupported : Message

pub data Reply : Type 0 where
  register_peer_response : (request_pk : Bool) → Reply
  configure : (serial : ℕ) → List Text → Reply
  register_pk_response : RegResult → Reply
  software : (url : Text) → Reply

-- A reply and whom it is sent to.
abbrev pub Sent : Type 0
Sent = SocketAddr × Reply

-- `try_into_v4` and the validity of a server's name, which is a DNS query, and the text of an address.
module _ (ext : Database) (try_into_v4 : SocketAddr → SocketAddr) (is_valid : Text → Bool)
    (ip_text : IpAddr → Text) where
  -- The registry with `inner.serial`, `inner.version`, `inner.software_url`, `rendezvous_servers`.
  pub record Server : Type 0 where
    pub registry : Registry ext
    pub serial : ℕ
    pub version : Text
    pub software_url : Text
    pub rendezvous_servers : List Text

  update_if_newer : SocketAddr → ℕ → Server → List Sent
  update_if_newer addr serial s =
      if ltb serial s.serial then (addr, configure s.serial s.rendezvous_servers) ∷ [] else []

  register : ℕ → Text → ℕ → SocketAddr → Server → List Sent × Server
  unfolding update_if_newer
  register now id serial addr s =
      if not (is_empty id) && not (ltb max_peer_id_len (length id))
      then (let (request_pk, pm) = update_addr ext now id addr (ip_text addr.ip) s.registry.peers in
          (
            (addr, register_peer_response request_pk) ∷ update_if_newer addr serial s,
            record s { registry = record s.registry { peers = pm } },
          ))
      else ([], s)

  reply_to : SocketAddr → Option RegResult → List Sent
  reply_to addr none = []
  reply_to addr (some res) = (addr, register_pk_response res) ∷ []

  unfoldable pub handle_udp : ℕ → Message → SocketAddr → Server → List Sent × Server
  unfolding register reply_to
  handle_udp now (register_peer id serial) addr s = register now id serial addr s
  handle_udp now (register_pk rk) addr s =
      let (res, r) = handle_register_pk ext now rk addr (ip_text addr.ip) false s.registry in
      (reply_to addr res, record s { registry = r })
  handle_udp now (configure_update serial servers) addr s =
      if is_loopback (try_into_v4 addr).ip && ltb s.serial serial
      then (
        [],
        record s {
          serial = serial;
          rendezvous_servers = filterb (λ x. not (is_empty x) && is_valid x) servers;
        },
      )
      else ([], s)
  handle_udp now (software_update url) addr s =
      if not (is_empty s.version) && not (url == s.version)
      then ((addr, software s.software_url) ∷ [], s)
      else ([], s)
  handle_udp now unsupported addr s = ([], s)

  -- Whatever comes over UDP, the server sends at most two replies, all to the sender.
  pub handle_udp_replies :
      (now : ℕ) (m : Message) (addr : SocketAddr) (s : Server)
      → let sent = (handle_udp now m addr s).0 in
        (length sent ≤ 2) × All (λ (x : Sent). x.0 ≡ addr) sent
  unfolding handle_udp
  handle_udp_replies now (register_peer id serial) addr s =
      elim (Bool-cases (not (is_empty id) && not (ltb max_peer_id_len (length id)))) [
        | inr e ↦ rw e (omega arith, tt)
        | inl e ↦ elim (Bool-cases (ltb serial s.serial)) [
          | inl l ↦ rw (e, l) (omega arith, (refl, (refl, tt)))
          | inr l ↦ rw (e, l) (omega arith, (refl, tt))
        ]
      ]
  handle_udp_replies now (register_pk rk) addr s =
      elim (Option-cases
        (handle_register_pk ext now rk addr (ip_text addr.ip) false s.registry).0) [
          | inl e ↦ rw e (omega arith, tt)
          | inr (res, e) ↦ rw e (omega arith, (refl, tt))
        ]
  handle_udp_replies now (configure_update serial servers) addr s =
      elim (Bool-cases (is_loopback (try_into_v4 addr).ip && ltb s.serial serial)) [
        | inl e ↦ rw e (omega arith, tt)
        | inr e ↦ rw e (omega arith, tt)
      ]
  handle_udp_replies now (software_update url) addr s =
      elim (Bool-cases (not (is_empty s.version) && not (url == s.version))) [
        | inl e ↦ rw e (omega arith, (refl, tt))
        | inr e ↦ rw e (omega arith, tt)
      ]
  handle_udp_replies now unsupported addr s = (omega arith, tt)

  -- Whatever comes over UDP, the serial of the configuration does not fall, and the list of rendezvous
  -- servers stays, unless the message comes from a loopback address.
  pub handle_udp-serial :
      (now : ℕ) (m : Message) (addr : SocketAddr) (s : Server)
      → let s' = (handle_udp now m addr s).1 in
        (s.serial ≤ s'.serial)
        × ((s'.rendezvous_servers ≡ s.rendezvous_servers)
            ⊎ (is_loopback (try_into_v4 addr).ip ≡ true))
  unfolding handle_udp
  handle_udp-serial now (register_peer id serial) addr s =
      elim (Bool-cases (not (is_empty id) && not (ltb max_peer_id_len (length id)))) [
        | inl e ↦ rw e (omega arith, inl refl)
        | inr e ↦ rw e (omega arith, inl refl)
      ]
  handle_udp-serial now (register_pk rk) addr s = (omega arith, inl refl)
  handle_udp-serial now (configure_update serial servers) addr s = ground arith
  handle_udp-serial now (software_update url) addr s =
      elim (Bool-cases (not (is_empty s.version) && not (url == s.version))) [
        | inl e ↦ rw e (omega arith, inl refl)
        | inr e ↦ rw e (omega arith, inl refl)
      ]
  handle_udp-serial now unsupported addr s = (omega arith, inl refl)
