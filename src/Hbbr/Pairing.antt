-- ===== src/Hbbr/Pairing.antt =====
-- `make_pair_` of src/relay_server.rs: two connections that ask for the same uuid are paired. Between
-- any two locks of the statics other tasks run: to look who waits and to wait are two steps, and so are
-- the end of the 30 seconds that a connection waits, and the begin and the end of a session.
use rustdesk_server.Prelude.{
  ℕ, ◌≡◌, refl, inl, inr, Bool, true, false, ◌&&◌, not, none, some, List, [], ◌∷◌, arith,
  if◌then◌else◌, ◌==◌, text_eq, list_beq_iff, beq_refl, All, Option-cases, ◌∙◌,
}
use rustdesk_server.Prelude.Map
use rustdesk_server.Prelude.Map.{Map, get-insert, get-remove}
use rustdesk_server.Prelude.Text.{Text, is_empty}

-- A connection, of which the pairing asks whether it is a websocket.
pub record Conn : Type 0 where
  pub serial : ℕ
  pub is_ws : Bool

-- `Usage`: elapsed, total, highest speed, speed.
pub record Usage : Type 0 where
  pub elapsed : ℕ
  pub total : ℕ
  pub highest : ℕ
  pub speed : ℕ

pub record RequestRelay : Type 0 where
  pub licence_key : Text
  pub uuid : Text

-- The statics PEERS and USAGE.
pub record Relays : Type 0 where
  pub peers : Map Text Conn
  pub usage : Map Text Usage

-- What a request finds in the map, from which it takes it: it is refused, finds nobody, or finds the
-- connection that waits; `raw` says that both are plain TCP and go raw.
pub data Pairing : Type 0 where
  refused alone : Pairing
  paired : Conn → (raw : Bool) → Pairing

-- The tests of a request, and `PEERS.lock().await.remove`.
unfoldable pub look_up : Text → RequestRelay → Conn → Relays → Pairing × Relays
look_up key rf conn r =
    if not (is_empty key) && not (rf.licence_key == key)
    then (refused, r)
    else if is_empty rf.uuid
    then (refused, r)
    else elim (Map.get rf.uuid r.peers) [
      | some peer ↦ (
        paired peer (not conn.is_ws && not peer.is_ws),
        record r { peers = Map.remove rf.uuid r.peers },
      )
      | none ↦ (alone, record r { peers = Map.remove rf.uuid r.peers })
    ]

-- `PEERS.lock().await.insert`: who found nobody waits.
unfoldable pub start_waiting : Text → Conn → Relays → Relays
start_waiting uuid conn r = record r { peers = Map.insert uuid conn r.peers }

-- The row of a session that begins.
unfoldable pub begin_session : Text → Relays → Relays
begin_session id r = record r {
  usage = Map.insert id (record { elapsed = 0; total = 0; highest = 0; speed = 0 }) r.usage;
}

-- The 30 seconds are over: whoever waits for the uuid is dropped.
unfoldable pub expire : Text → Relays → Relays
expire uuid r = record r { peers = Map.remove uuid r.peers }

unfoldable pub end_session : Text → Relays → Relays
end_session id r = record r { usage = Map.remove id r.usage }

-- The steps of all the tasks, in the order in which they run: each is what a task does at one lock.
pub data Event : Type 0 where
  looked_up : RequestRelay → Conn → Event
  waits : (uuid : Text) → Conn → Event
  expired began ended : Text → Event

unfoldable pub step : Text → Event → Relays → Relays
step key (looked_up rf conn) r = (look_up key rf conn r).1
step key (waits uuid conn) r = start_waiting uuid conn r
step key (expired uuid) r = expire uuid r
step key (began id) r = begin_session id r
step key (ended id) r = end_session id r

unfoldable pub run : Text → List Event → Relays → Relays
run key [] r = r
run key (e ∷ es) r = run key es (step key e r)

-- The event is about another uuid.
unfoldable pub Elsewhere : Text → Event → Type 0
Elsewhere uuid (looked_up rf conn) = (rf.uuid == uuid) ≡ false
Elsewhere uuid (waits u conn) = (u == uuid) ≡ false
Elsewhere uuid (expired u) = (u == uuid) ≡ false
Elsewhere uuid (began id) = Unit
Elsewhere uuid (ended id) = Unit

step-Elsewhere :
    (key uuid : Text) (e : Event) (r : Relays)
    → Elsewhere uuid e
    → Map.get uuid (step key e r).peers ≡ Map.get uuid r.peers
unfolding step Elsewhere look_up start_waiting expire begin_session end_session
step-Elsewhere key uuid (looked_up rf conn) r h =
    let d = get-remove rf.uuid uuid r.peers in
    elim (Option-cases (Map.get rf.uuid r.peers)) [
      | inl e ↦ ground (arith, e, h, d)
      | inr (p, e) ↦ ground (arith, e, h, d)
    ]
step-Elsewhere key uuid (waits u conn) r h = ground (arith, h, get-insert u uuid conn r.peers)
step-Elsewhere key uuid (expired u) r h = ground (arith, h, get-remove u uuid r.peers)
step-Elsewhere key uuid (began id) r h = refl
step-Elsewhere key uuid (ended id) r h = refl

run-Elsewhere :
    (key uuid : Text) (es : List Event) (r : Relays)
    → All (Elsewhere uuid) es
    → Map.get uuid (run key es r).peers ≡ Map.get uuid r.peers
unfolding run
run-Elsewhere key uuid [] r h = refl
run-Elsewhere key uuid (e ∷ es) r (h, hs) =
    run-Elsewhere key uuid es (step key e r) hs ∙ step-Elsewhere key uuid e r h

look_up_alone :
    (key : Text) (rf : RequestRelay) (conn : Conn) (r : Relays)
    → (look_up key rf conn r).0 ≡ alone
    → is_empty rf.uuid ≡ false
unfolding look_up
look_up_alone key rf conn r h = ground (arith, h)

-- A request finds nobody, and then waits, whatever happens between the two steps. Once it waits, the
-- next request of its uuid is paired with it, if the key of that request is the server's, whatever
-- happens to other uuids in between; they go raw unless one is a websocket, and then nobody waits for
-- the uuid.
pub request_pairs :
    (key : Text) (rf rf' : RequestRelay) (conn conn' : Conn) (r : Relays) (between es : List Event)
    → (look_up key rf conn r).0 ≡ alone
    → All (Elsewhere rf.uuid) es
    → rf'.uuid ≡ rf.uuid
    → rf'.licence_key ≡ key
    → let r' =
        run key es (start_waiting rf.uuid conn (run key between (look_up key rf conn r).1)) in
      ((look_up key rf' conn' r').0 ≡ paired conn (not conn'.is_ws && not conn.is_ws))
      × (Map.get rf.uuid (look_up key rf' conn' r').1.peers ≡ none)
unfolding look_up start_waiting
request_pairs key rf rf' conn conn' r between es w h u k =
    let r0 = run key between (look_up key rf conn r).1 in
    let r1 = start_waiting rf.uuid conn r0 in
    let r' = run key es r1 in
    let n = look_up_alone key rf conn r w in
    let g : Map.get rf.uuid r1.peers ≡ some conn =
      ground (arith, get-insert rf.uuid rf.uuid conn r0.peers, beq_refl rf.uuid) in
    let found : Map.get rf.uuid r'.peers ≡ some conn = run-Elsewhere key rf.uuid es r1 h ∙ g in
    let found' : Map.get rf'.uuid r'.peers ≡ some conn = rw u found in
    let fits : (rf'.licence_key == key) ≡ true =
      ground (arith, list_beq_iff rf'.licence_key key, k) in
    let some_uuid : is_empty rf'.uuid ≡ false = rw u n in
    let d = get-remove rf'.uuid rf.uuid r'.peers in
    let same : (rf'.uuid == rf.uuid) ≡ true = ground (arith, list_beq_iff rf'.uuid rf.uuid, u) in
    (ground (arith, fits, some_uuid, found'), ground (arith, fits, some_uuid, found', d, same))

-- Two requests of a uuid, for which nobody waits, that both look before either waits: both find
-- nobody, and in the end only the second one waits, so they are not paired with each other.
pub requests_cross :
    (key : Text) (rf : RequestRelay) (conn conn' : Conn) (r : Relays)
    → rf.licence_key ≡ key
    → is_empty rf.uuid ≡ false
    → Map.get rf.uuid r.peers ≡ none
    → let second = look_up key rf conn' (look_up key rf conn r).1 in
      ((look_up key rf conn r).0 ≡ alone)
      × (second.0 ≡ alone)
      × (Map.get rf.uuid (start_waiting rf.uuid conn' (start_waiting rf.uuid conn second.1)).peers
          ≡ some conn')
unfolding look_up start_waiting
requests_cross key rf conn conn' r k n h =
    let fits : (rf.licence_key == key) ≡ true =
      ground (arith, list_beq_iff rf.licence_key key, k) in
    let gone = get-remove rf.uuid rf.uuid r.peers in
    let still : Map.get rf.uuid (Map.remove rf.uuid r.peers) ≡ none =
      ground (arith, gone, h, beq_refl rf.uuid) in
    let s = (look_up key rf conn' (look_up key rf conn r).1).1.peers in
    let i = get-insert rf.uuid rf.uuid conn' (Map.insert rf.uuid conn s) in
    (
      ground (arith, fits, n, h),
      ground (arith, fits, n, h, still),
      ground (arith, i, beq_refl rf.uuid),
    )
