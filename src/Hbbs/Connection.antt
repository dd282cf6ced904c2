-- ===== src/Hbbs/Connection.antt =====
-- A TCP connection in `handle_listener_inner` of src/rendezvous_server.rs, with
-- `key_exchange_phase1`: the handshake that its first frame may finish, and what it leaves behind; and
-- the address that a websocket's headers give.
pub mod Keys
use rustdesk_server.Prelude.{
  ℕ, ◌≡◌, Bool, true, false, Option, none, some, List, [], ◌∷◌, ◌++◌, if◌then◌else◌, unwrap_or,
}
use rustdesk_server.Prelude.Map
use rustdesk_server.Prelude.Text.{Text, text, is_empty, contains_char}
use rustdesk_server.Net.{SocketAddr, addr_eq}
use rustdesk_server.Hbbs.Replies.{Links}

-- `headers.get("X-Real-IP").or_else(...)`: the first of the two headers that is there; its value is
-- none if it is no text. `parse` is that of a `SocketAddr`.
unfoldable pub client_addr :
    (Text → Option SocketAddr)
    → Option (Option Text)
    → Option (Option Text)
    → SocketAddr
    → SocketAddr
client_addr parse real_ip forwarded addr =
    let value : Option Text = elim real_ip [ some v ↦ v | none ↦ unwrap_or forwarded none ] in
    elim value [
      | none ↦ addr
      | some ip ↦
          if contains_char b'.' ip
          then unwrap_or (parse (ip ++ text ":0")) addr
          else unwrap_or (parse (text "[" ++ ip ++ text "]:0")) addr
    ]

-- sodiumoxide and the `Encrypt` of the `hbb_common` submodule: the state that deciphers, and the key
-- that the two keys of a client and the secret of the server give. `keys_of` are the keys of bytes
-- that parse as a KeyExchange.
pub record Crypto : Type 1 where
  pub SecretKey : Type 0
  pub Key : Type 0
  pub Encrypt : Type 0
  pub new : Key → Encrypt
  pub dec : Encrypt → Text → Option (Text × Encrypt)
  pub decode : Text → Text → SecretKey → Option Key
  pub keys_of : Text → Option (List Text)

-- `handle` is `handle_tcp` on the bytes of a frame; it says whether the connection stays open.
module _ (crypto : Crypto) (World : Type 0) (handle : Text → World → Bool × World) where
  open crypto use {SecretKey, Key, Encrypt, new, dec, decode, keys_of}

  -- The locals of the loop, and the key of the sink, which is there while the first frame is read.
  pub record Link : Type 0 where
    pub handshake_sk : Option SecretKey
    pub recv_encrypt : Option Encrypt
    pub sink_key : Option Key
    pub world : World

  pub data After : Type 0 where
    stays closed : Link → After

  -- Before the loop: the signed key that is sent, if the server has a secret key `sk` and this is no
  -- port that answers unauthenticated; the fresh pair of keys is given.
  unfoldable pub start_tcp :
      {Secret : Type 0}
      → (Secret → Text → Text)
      → Text
      → Option Secret
      → Text × SecretKey
      → World
      → Option Text × Link
  start_tcp sign key none pair w =
      (none, record { handshake_sk = none; recv_encrypt = none; sink_key = none; world = w })
  start_tcp sign key (some sk) (pk_b, sk_b) w =
      if is_empty key
      then (none, record { handshake_sk = none; recv_encrypt = none; sink_key = none; world = w })
      else (
        some (sign sk pk_b),
        record { handshake_sk = some sk_b; recv_encrypt = none; sink_key = none; world = w },
      )

  -- `handle_tcp`, and leave the loop unless it wants to go on.
  unfoldable pub handled : Text → Link → After
  handled bytes l =
      let (go_on, w) = handle bytes l.world in
      if go_on then stays (record l { world = w }) else closed (record l { world = w })

  -- The keys of a KeyExchange must be two, and give a key for both directions.
  unfoldable pub exchanged : List Text → SecretKey → Link → After
  exchanged (k0 ∷ k1 ∷ []) sk l = elim (decode k1 k0 sk) [
    | some key ↦ stays (record l { recv_encrypt = some (new key); sink_key = some key })
    | none ↦ closed l
  ]
  exchanged _ sk l = closed l

  -- The secret is spent on the first frame, whatever that is.
  unfoldable pub in_clear : Text → Link → After
  unfolding handled exchanged
  in_clear bytes l = elim l.handshake_sk [
    | none ↦ handled bytes l
    | some sk ↦ elim (keys_of bytes) [
      | none ↦ handled bytes (record l { handshake_sk = none })
      | some keys ↦ exchanged keys sk (record l { handshake_sk = none })
    ]
  ]

  unfoldable pub on_frame : Text → Link → After
  unfolding in_clear
  on_frame bytes l = elim l.recv_encrypt [
    | none ↦ in_clear bytes l
    | some e ↦ elim (dec e bytes) [
      | none ↦ closed l
      | some (plain, e') ↦ in_clear plain (record l { recv_encrypt = some e' })
    ]
  ]

  unfoldable pub and_then : After → (Link → Link) → Link
  and_then (stays l) loop = loop l
  and_then (closed l) loop = l

  -- The loop: none is a wait of 30 seconds in vain, or the end of the stream.
  unfoldable pub run_tcp : List (Option Text) → Link → Link
  unfolding on_frame and_then
  run_tcp [] l = l
  run_tcp (none ∷ frames) l = l
  run_tcp (some bytes ∷ frames) l = and_then (on_frame bytes l) (run_tcp frames)

-- After the loop: if the sink was taken to answer by it later, nobody waits any more.
unfoldable pub end_tcp : (SocketAddr → SocketAddr) → SocketAddr → Option ℕ → Links → Links
end_tcp try_into_v4 addr (some sink) l = l
end_tcp try_into_v4 addr none l = record l { tcp_punch = Map.remove (try_into_v4 addr) l.tcp_punch }
