-- ===== src/Hbbs/Tcp/Answers.antt =====
-- What `handle_tcp` of src/rendezvous_server.rs does over several messages: who is told what, and
-- which connections it closes.
use rustdesk_server.Prelude.{
  ℕ, ◌≡◌, refl, Bool, true, false, Option, none, some, List, ◌∷◌, arith, ap, ◌∙◌, text_eq,
}
use rustdesk_server.Prelude.Map
use rustdesk_server.Prelude.Map.{get-insert, get-remove}
use rustdesk_server.Prelude.Text.{Text, is_empty}
use rustdesk_server.Net.{addr_eq}
use rustdesk_server.Numbers.{Float}
use rustdesk_server.Routes.{Networks}
use rustdesk_server.Hbbs.Peers.{
  Database, Peer, RegResult, reg_ok, uuid_mismatch, too_frequent, server_error, get,
}
use rustdesk_server.Hbbs.Register.{RegisterPk, handle_register_pk}
use rustdesk_server.Hbbs.Register.Ownership.{handle_register_pk-Holds}
use rustdesk_server.Hbbs.PunchHole.{Externals}
use rustdesk_server.Hbbs.Replies.{Delivery}
use rustdesk_server.Hbbs.Tcp.{Config, Hub, Origin, with_peers, deliver, get_pk, handle_hole_sent}
use rustdesk_server.Hbbs.Tcp.Messages.{
  Codec, PunchHoleSent, TcpMessage, TcpReply, punch_hole_request, request_relay, relay_response,
  punch_hole_sent, local_addr, test_nat_request, online_request, register_peer, register_pk,
  unsupported, punch_hole_response,
}
use rustdesk_server.Hbbs.Tcp.Handler.{
  handle_tcp, is_ok, registry_of, with_registry, answer_register_pk, claim,
}

module _ (ext : Externals) (codec : Codec ext) (db : Database) (fl : Float) (nets : Networks) where
  open ext use {encode_addr, try_into_v4, ip_text}
  open codec use {Secret, sign_id_pk}

  abbrev State : Type 0
  State = Hub ext codec db fl nets

  abbrev Fixed : Type 0
  Fixed = Config ext codec db fl nets

  abbrev Here : Type 0
  Here = Origin ext codec db fl nets

  answer_register_pk_closes :
      (o : Here) (sink : Option ℕ) (result : Option RegResult) (h : State)
      → (answer_register_pk ext codec db fl nets o sink result h).keep_open ≡ false
      → (answer_register_pk ext codec db fl nets o sink result h).hub.links ≡ h.links
  unfolding answer_register_pk claim
  answer_register_pk_closes o sink none h k = refl
  answer_register_pk_closes o sink (some res) h k = ground (arith, k)

  -- A message closes the websocket that it comes by only if it is a RegisterPk; and the ways to reach
  -- a peer are then as they were: a registration that fails gets no entry.
  pub handle_tcp_closes :
      (now epoch : ℕ) (is_open : ℕ → Bool) (c : Fixed) (o : Here) (m : TcpMessage ext)
      (sink : Option ℕ) (h : State)
      → o.ws ≡ true
      → (handle_tcp ext codec db fl nets now epoch is_open c o m sink h).keep_open ≡ false
      → ((rk : RegisterPk) × (m ≡ register_pk rk))
        × ((handle_tcp ext codec db fl nets now epoch is_open c o m sink h).hub.links ≡ h.links)
  unfolding handle_tcp with_peers registry_of with_registry
  handle_tcp_closes now epoch is_open c o (punch_hole_request ph) sink h w k = ground (arith, k)
  handle_tcp_closes now epoch is_open c o (request_relay rf) sink h w k = ground (arith, k)
  handle_tcp_closes now epoch is_open c o (relay_response rr) sink h w k = ground (arith, w, k)
  handle_tcp_closes now epoch is_open c o (punch_hole_sent phs) sink h w k = ground (arith, w, k)
  handle_tcp_closes now epoch is_open c o (local_addr la) sink h w k = ground (arith, w, k)
  handle_tcp_closes now epoch is_open c o (test_nat_request n) sink h w k = ground (arith, w, k)
  handle_tcp_closes now epoch is_open c o (online_request ids) sink h w k = ground (arith, w, k)
  handle_tcp_closes now epoch is_open c o (register_peer id n) sink h w k = ground (arith, w, k)
  handle_tcp_closes now epoch is_open c o (register_pk rk) sink h w k =
      let (result, r) =
        handle_register_pk db now rk o.addr (ip_text o.addr.ip) o.ws
          (registry_of ext codec db fl nets h) in
      (
        (rk, refl),
        answer_register_pk_closes o sink result (with_registry ext codec db fl nets r h) k,
      )
  handle_tcp_closes now epoch is_open c o unsupported sink h w k = ground (arith, w, k)

  -- The key in an answer that introduces a peer.
  unfoldable pub pk_told : List (Delivery × TcpReply ext) → Option Text
  pk_told ((d, punch_hole_response p) ∷ rest) = some p.pk
  pk_told _ = none

  get_pk_known :
      (now : ℕ) (c : Fixed) (version id : Text) (h : State) (sk : Secret) (p : Peer)
      → c.sk ≡ some sk
      → is_empty version ≡ false
      → Map.get id h.rendezvous.peers.map ≡ some p
      → (get_pk ext codec db fl nets now c version id h).0 ≡ sign_id_pk sk id p.pk
  unfolding get_pk get
  get_pk_known now c version id h sk p k v m = rw (get_pk, k) (rw (v) (rw (m) refl))

  keep_open-is_ok :
      (o : Here) (sink : Option ℕ) (result : Option RegResult) (h : State)
      → (answer_register_pk ext codec db fl nets o sink result h).keep_open ≡ true
      → result ≡ some reg_ok
  unfolding answer_register_pk is_ok
  keep_open-is_ok o sink none h k = ground (arith, k)
  keep_open-is_ok o sink (some reg_ok) h k = refl
  keep_open-is_ok o sink (some uuid_mismatch) h k = ground (arith, k)
  keep_open-is_ok o sink (some too_frequent) h k = ground (arith, k)
  keep_open-is_ok o sink (some server_error) h k = ground (arith, k)

  answer_register_pk-rendezvous :
      (o : Here) (sink : Option ℕ) (result : Option RegResult) (h : State)
      → (answer_register_pk ext codec db fl nets o sink result h).hub.rendezvous ≡ h.rendezvous
  unfolding answer_register_pk claim
  answer_register_pk-rendezvous o sink none h = refl
  answer_register_pk-rendezvous o sink (some res) h = ground arith

  -- A peer registers its key and the connection stays open. The server has a secret key. Then, if that
  -- peer's readiness for a connection is the next message, over whatever connection, and says a
  -- version, the one that asked for the peer is told the key that was registered, signed with its id.
  pub handle_tcp_registered_key :
      (now epoch later epoch' : ℕ) (is_open : ℕ → Bool) (c : Fixed) (sk : Secret) (o : Here)
      (rk : RegisterPk) (sink : Option ℕ) (h : State) (o' : Here) (phs : PunchHoleSent ext)
      (sink' : Option ℕ)
      → c.sk ≡ some sk
      → (handle_tcp ext codec db fl nets now epoch is_open c o (register_pk rk) sink h).keep_open
        ≡ true
      → phs.id ≡ rk.id
      → is_empty phs.version ≡ false
      → pk_told
          (handle_tcp ext codec db fl nets later epoch' is_open c o'
            (punch_hole_sent phs)
            sink'
            (handle_tcp ext codec db fl nets now epoch is_open c o
              (register_pk rk)
              sink
              h).hub).sent
        ≡ some (sign_id_pk sk rk.id rk.pk)
  unfolding handle_tcp handle_hole_sent deliver pk_told with_registry registry_of with_peers
  handle_tcp_registered_key now epoch later epoch' is_open c sk o rk sink h o' phs sink' s k i v =
      let reg = registry_of ext codec db fl nets h in
      let ip = ip_text o.addr.ip in
      let (result, r) = handle_register_pk db now rk o.addr ip o.ws reg in
      let good = keep_open-is_ok o sink result (with_registry ext codec db fl nets r h) k in
      let (p, at, holds) = handle_register_pk-Holds db now rk o.addr ip o.ws reg good in
      let h' = with_registry ext codec db fl nets r h in
      let hub = (answer_register_pk ext codec db fl nets o sink result h').hub in
      let at' : Map.get phs.id hub.rendezvous.peers.map ≡ some p =
        rw (i, answer_register_pk-rendezvous o sink result h') at in
      ap some (get_pk_known later c phs.version phs.id hub sk p s v at' ∙ (rw (i, holds.pk) refl))
