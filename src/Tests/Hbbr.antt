-- ===== src/Tests/Hbbr.antt =====
-- Runs of the relay server.
use rustdesk_server.Prelude.{
  ℕ, ◌≡◌, refl, inl, inr, arith, true, false, ◌||◌, none, some, List, [], ◌∷◌, ◌++◌, text_eq,
  contains, if◌then◌else◌,
}
use rustdesk_server.Prelude.Map
use rustdesk_server.Prelude.Text.{Text, text, trim, split}
use rustdesk_server.Net.{IpAddr, v4, SocketAddr, is_loopback}
use rustdesk_server.Hbbr.Access.{
  AccessLists, has, check_cmd, handle_connection, admitted, blocked, handle_connection-check_cmd,
}
use rustdesk_server.Hbbr.Pairing.{
  Conn, RequestRelay, Relays, Usage, paired, look_up, start_waiting, looked_up, run, Elsewhere,
  request_pairs,
}
use rustdesk_server.Hbbr.Session.{
  Side, stream, peer, other, Meter, Limits, received, tick, start, account, turn, Round, relay,
}
use rustdesk_server.Hbbr.Session.Delivery.{
  received_from, sent_to, IsAlive, sent_to-relay, sent_to-relay_flowing,
}
use rustdesk_server.Hbbr.Session.Accounting.{Follows, turn-Follows}

abbrev lists : AccessLists
lists = record { blacklist = []; blocklist = (text "10.0.0.9", tt) ∷ [] }

abbrev add_two : Text
add_two = text "Ba 10.0.0.1|10.0.0.2\n"

abbrev remove_nine : Text
remove_nine = text "Br 10.0.0.9"

abbrev client : SocketAddr
client = record { ip = v4 167772161; port = 5 }

abbrev as_text : IpAddr → Text
as_text a = text "10.0.0.1"

abbrev same_addr : SocketAddr → SocketAddr
same_addr a = a

handle_connection-check_cmd_example :
    handle_connection same_addr as_text client false (check_cmd add_two lists).1 ≡ (
      if contains (text "10.0.0.1") (split b'|' (text "10.0.0.1|10.0.0.2"))
        || has (text "10.0.0.1") lists.blocklist
      then blocked
      else admitted)
unfolding split trim is_loopback
handle_connection-check_cmd_example =
    handle_connection-check_cmd same_addr as_text client false add_two (text "Ba")
      (text "10.0.0.1|10.0.0.2") [] lists refl refl refl

abbrev ask : Text → RequestRelay
ask uuid = record { licence_key = text "key"; uuid = uuid }

abbrev first : Conn
first = record { serial = 1; is_ws = false }

abbrev second : Conn
second = record { serial = 2; is_ws = false }

abbrev no_relays : Relays
no_relays = record { peers = []; usage = [] }

-- A request of another uuid, before the first one waits and after.
request_pairs_example :
    let other_uuid = looked_up (ask (text "v")) second in
    let r' = run (text "key") (other_uuid ∷ []) (
      start_waiting (text "u") first (
        run
          (text "key")
          (other_uuid ∷ [])
          (look_up (text "key") (ask (text "u")) first no_relays).1)) in
    ((look_up (text "key") (ask (text "u")) second r').0 ≡ paired first true)
    × (Map.get (text "u") (look_up (text "key") (ask (text "u")) second r').1.peers ≡ none)
unfolding look_up Map.get Elsewhere
request_pairs_example =
    request_pairs (text "key") (ask (text "u")) (ask (text "u")) first second no_relays
      (looked_up (ask (text "v")) second ∷ []) (looked_up (ask (text "v")) second ∷ []) refl
      (refl, tt) refl refl

abbrev limits : Limits
limits = record { start_check = 1000; downgrade_threshold = 1 }

abbrev bring : ℕ → Side → List ℕ → Round
bring now from bytes = record {
  now = now;
  is_blocked = false;
  is_blacked = false;
  input = received from bytes true;
}

abbrev rounds : List Round
rounds = bring 10 stream (1 ∷ 2 ∷ []) ∷ bring 2000 peer (3 ∷ []) ∷ bring 2010 stream (4 ∷ []) ∷ []

sent_to-relay_example :
    (rest : List ℕ) × (received_from (other peer) rounds
      ≡ sent_to peer (relay limits rounds (start 0)) ++ rest)
sent_to-relay_example = sent_to-relay peer limits rounds (start 0)

-- A side is silent for a time, in which the timer ticks, later than 30 seconds after the start.
abbrev ticks_at : ℕ → Round
ticks_at now = record { now = now; is_blocked = false; is_blacked = false; input = tick }

abbrev with_ticks : List Round
with_ticks =
    ticks_at 1
    ∷ bring 20000 stream (1 ∷ 2 ∷ [])
    ∷ ticks_at 45000
    ∷ bring 46000 peer (3 ∷ [])
    ∷ ticks_at 70000
    ∷ bring 71000 stream (4 ∷ [])
    ∷ []

sent_to-relay_flowing_example :
    sent_to peer (relay limits with_ticks (start 0)) ≡ received_from (other peer) with_ticks
unfolding IsAlive start
sent_to-relay_flowing_example = sent_to-relay_flowing peer limits with_ticks (start 0) (
  refl,
  inr (
    refl,
    omega arith,
    (
      refl,
      inl (
        stream,
        1 ∷ 2 ∷ [],
        refl,
        (
          refl,
          inr (
            refl,
            omega arith,
            (
              refl,
              inl (
                peer,
                3 ∷ [],
                refl,
                (refl, inr (refl, omega arith, (refl, inl (stream, 4 ∷ [], refl, tt)))),
              ),
            ),
          ),
        ),
      ),
    ),
  ),
)

abbrev meter : Meter
meter = record {
  tm = 0;
  elapsed = 5000;
  total = 90000;
  total_s = 16000;
  highest_s = 3;
  downgrade = false;
  blacked = false;
  last_recv_time = 0;
}

abbrev next_meter : Meter
next_meter = record {
  tm = 2000;
  elapsed = 7000;
  total = 90000;
  total_s = 0;
  highest_s = 8;
  downgrade = true;
  blacked = false;
  last_recv_time = 0;
}

abbrev row : Usage
row = record { elapsed = 7000; total = 90000; highest = 8; speed = 8 }

turn-Follows_example : Follows meter next_meter (some row)
unfolding turn account
turn-Follows_example = turn-Follows 2000 limits false false tick meter next_meter (some row) refl
