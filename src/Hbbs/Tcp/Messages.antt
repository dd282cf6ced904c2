-- ===== src/Hbbs/Tcp/Messages.antt =====
-- The messages that `handle_tcp` of src/rendezvous_server.rs tells apart and those it sends, with the
-- fields that it reads or sets; and what the `hbb_common` submodule and sodiumoxide do for it.
use rustdesk_server.Prelude.{ℕ, ◌≡◌, Bool, Option, List, []}
use rustdesk_server.Prelude.Text.{Text}
use rustdesk_server.Net.{SocketAddr}
use rustdesk_server.Hbbs.Peers.{RegResult}
use rustdesk_server.Hbbs.Register.{RegisterPk}
use rustdesk_server.Hbbs.PunchHole.{Externals, PunchHoleRequest, Answer}

-- `AddrMangle::decode` and `sign::sign` of an `IdPk`. An address that is encoded is read back in the
-- form that `try_into_v4` gives it, so that an IPv4 address that came mapped is read back as IPv4.
pub record Codec (ext : Externals) : Type 1 where
  pub Secret : Type 0
  pub decode_addr : Text → SocketAddr
  pub sign_id_pk : Secret → Text → Text → Text
  pub decode-encode :
      (addr : SocketAddr) → decode_addr (ext.encode_addr addr) ≡ ext.try_into_v4 addr
  pub try_into_v4_again :
      (addr : SocketAddr) → ext.try_into_v4 (ext.try_into_v4 addr) ≡ ext.try_into_v4 addr

-- The fields of RequestRelay that are passed on as they came are one text.
pub record RequestRelay : Type 0 where
  pub id : Text
  pub socket_addr : Text
  pub others : Text

-- The union of a RelayResponse: the accessor `id` of another variant is empty.
pub data Whom : Type 0 where
  by_id by_pk : Text → Whom
  nobody : Whom

unfoldable pub id_of : Whom → Text
id_of (by_id id) = id
id_of (by_pk pk) = []
id_of nobody = []

pub record RelayResponse : Type 0 where
  pub socket_addr : Text
  pub whom : Whom
  pub relay_server : Text
  pub version : Text
  pub others : Text

pub record ConfigUpdate : Type 0 where
  pub serial : ℕ
  pub rendezvous_servers : List Text

module _ (ext : Externals) where
  open ext use {NatType}

  -- `nat_type` is none if the number in the message is not one of the enumeration.
  pub record PunchHoleSent : Type 0 where
    pub id : Text
    pub socket_addr : Text
    pub relay_server : Text
    pub nat_type : Option NatType
    pub version : Text

  pub record LocalAddr : Type 0 where
    pub id : Text
    pub socket_addr : Text
    pub local_addr : Text
    pub relay_server : Text
    pub version : Text

  -- The union of a PunchHoleResponse.
  pub data Nature : Type 0 where
    nat : NatType → Nature
    is_local unset : Nature

  pub record PunchHoleResponse : Type 0 where
    pub socket_addr : Text
    pub pk : Text
    pub relay_server : Text
    pub nature : Nature

  -- What comes in. A serial is given as its distance from the least one.
  pub data TcpMessage : Type 0 where
    punch_hole_request : PunchHoleRequest ext → TcpMessage
    request_relay : RequestRelay → TcpMessage
    relay_response : RelayResponse → TcpMessage
    punch_hole_sent : PunchHoleSent → TcpMessage
    local_addr : LocalAddr → TcpMessage
    test_nat_request : (serial : ℕ) → TcpMessage
    online_request : (peers : List Text) → TcpMessage
    register_peer : (id : Text) (serial : ℕ) → TcpMessage
    register_pk : RegisterPk → TcpMessage
    -- Any other message, and bytes that are none.
    unsupported : TcpMessage

  -- What goes out.
  pub data TcpReply : Type 0 where
    punch_hole_answer : Answer ext → TcpReply
    asked_relay : RequestRelay → TcpReply
    relayed : RelayResponse → TcpReply
    punch_hole_response : PunchHoleResponse → TcpReply
    test_nat_response : (port : ℕ) → Option ConfigUpdate → TcpReply
    online_response : (states : List ℕ) → TcpReply
    register_peer_response : (request_pk : Bool) → TcpReply
    configure : ConfigUpdate → TcpReply
    register_pk_response : RegResult → TcpReply
