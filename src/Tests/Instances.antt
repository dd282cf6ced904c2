-- ===== src/Tests/Instances.antt =====
-- Concrete functions in the place of what the model takes as parameters.
use rustdesk_server.Prelude.{
  ◌%◌, Bool-cases, inl, inr, ℕ, ◌+◌, ◌-◌, ◌*◌, ◌/◌, ◌^◌, ◌≡◌, refl, Bool, true, false, Option, none,
  some, [], ◌∷◌, ◌++◌, zero, suc, arith, ltb, leb, nat_beq, min, ◌==◌, text_eq, if◌then◌else◌,
}
use rustdesk_server.Prelude.Map
use rustdesk_server.Prelude.Map.{Map, get-insert}
use rustdesk_server.Prelude.Text.{Text, text, parse_unsigned, split_once}
use rustdesk_server.Net.{IpAddr, v4, v6, SocketAddr}
use rustdesk_server.Numbers.{Float}
use rustdesk_server.Routes.{Networks}
use rustdesk_server.Disk.{Disk}
use rustdesk_server.Hbbs.Peers.{Database, DbPeer}
use rustdesk_server.Hbbs.PunchHole.{Externals}
use rustdesk_server.Hbbs.Tcp.Messages.{Codec}

-- Whole numbers of milliseconds.
abbrev pub whole : Float
whole = record {
  F = ℕ;
  lit = λ n. n;
  neg = λ a. a;
  add = λ a b. a + b;
  sub = λ a b. a - b;
  mul = λ a b. a * b;
  div = λ a b. a / b;
  least = λ a b. min a b;
  sqrt = λ a. a;
  sin = λ a. a;
  cos = λ a. a;
  asin = λ a. a;
  to_radians = λ a. a;
  lt = ltb;
  le = leb;
  is_finite = λ a. true;
  parse = λ t. parse_unsigned (2 ^ 64) t;
  lit_cost = λ n. ground arith;
  add_cost = λ a b h k. ground arith;
  finite_cost = λ a h k. ground arith;
  lt_asym = λ a b h. ground arith;
  lt_trans_false = λ a b c x y z h k. ground arith;
  sum_comm = λ a b h k. omega arith;
}

-- An IPv4 network, written as two numbers.
abbrev pub parse_net : Text → Option (ℕ × ℕ)
parse_net t = elim (split_once b'/' t) [
  | none ↦ none
  | some (a, p) ↦ elim (parse_unsigned (2 ^ 32) a) [
    | none ↦ none
    | some n ↦ elim (parse_unsigned 33 p) [ none ↦ none | some k ↦ some (n, k) ]
  ]
]

abbrev pub in_net : ℕ × ℕ → IpAddr → Bool
in_net (n, k) (v4 a) = nat_beq (a / 2 ^ (32 - k)) (n / 2 ^ (32 - k))
in_net net (v6 a) = false

abbrev pub ipv4_nets : Networks
ipv4_nets = record {
  Net = ℕ × ℕ;
  parse = parse_net;
  network = λ n. v4 n.0;
  prefix = λ n. n.1;
  contains = in_net;
}

abbrev pub insert_row :
    Text → Text → Text → Text → Map Text DbPeer → Option (Text × Map Text DbPeer)
insert_row id uuid pk info db =
    let row : DbPeer = record { guid = text "guid"; uuid = uuid; pk = pk; info = info } in
    some (text "guid", Map.insert id row db)

-- A table of rows, with one guid for all.
abbrev pub rows : Database
rows = record {
  Db = Map Text DbPeer;
  get_peer = λ id db. Map.get id db;
  insert_peer = insert_row;
  update_pk = λ guid id pk info db. some db;
  to_json = λ t. t;
  from_json = λ t. some t;
}

abbrev pub written : SocketAddr → Text
written a = elim a.ip [ v4 n ↦ 4 ∷ n ∷ a.port ∷ [] | v6 n ↦ 6 ∷ n ∷ a.port ∷ [] ]

abbrev pub read_addr : Text → SocketAddr
read_addr (zero ∷ r) = record { ip = v4 0; port = 0 }
read_addr (suc k ∷ n ∷ p ∷ []) = record { ip = if nat_beq k 3 then v4 n else v6 n; port = p }
read_addr _ = record { ip = v4 0; port = 0 }

read_written_ip :
    (ip : IpAddr) (port : ℕ)
    → read_addr (written (record { ip = ip; port = port })) ≡ record { ip = ip; port = port }
read_written_ip (v4 n) port = refl
read_written_ip (v6 n) port = refl

pub read_written : (a : SocketAddr) → read_addr (written a) ≡ a
read_written a = read_written_ip a.ip a.port

-- An IPv4 address that is mapped to IPv6 is unwrapped.
abbrev pub unmapped : IpAddr → IpAddr
unmapped (v4 n) = v4 n
unmapped (v6 n) = if nat_beq (n / 2 ^ 32) 0xffff then v4 (n % 2 ^ 32) else v6 n

unmapped_again : (a : IpAddr) → unmapped (unmapped a) ≡ unmapped a
unmapped_again (v4 n) = refl
unmapped_again (v6 n) = elim (Bool-cases (nat_beq (n / 2 ^ 32) 0xffff)) [
  | inl e ↦ rw e refl
  | inr e ↦ rw (e, e) refl
]

abbrev pub into_v4 : SocketAddr → SocketAddr
into_v4 a = record { ip = unmapped a.ip; port = a.port }

pub into_v4_again : (a : SocketAddr) → into_v4 (into_v4 a) ≡ into_v4 a
into_v4_again a = rw (unmapped_again a.ip) refl

abbrev pub plain : Externals
plain = record {
  Mask = ℕ;
  mask_contains = λ m a. nat_beq (a / 2 ^ 8) m;
  NatType = ℕ;
  symmetric = 2;
  encode_addr = λ a. written (into_v4 a);
  try_into_v4 = into_v4;
  ip_text = λ a. elim a [ v4 n ↦ n ∷ [] | v6 n ↦ 6 ∷ n ∷ [] ];
  decode_token =
      λ secret t. if t == secret then some (record { user_id = 1; exp = 1000 }) else none;
}

-- A disk with one file, on which nothing fails.
abbrev pub one_file : Text → Text → Disk
one_file path content = record {
  contents = λ p. if p == path then some content else none;
  stamp = λ p. if p == path then some (1, 2) else none;
  can_write = λ p. true;
  can_remove = λ p. true;
}

abbrev pub codec : Codec plain
codec = record {
  Secret = ℕ;
  decode_addr = read_addr;
  sign_id_pk = λ s id pk. s ∷ id ++ pk;
  decode-encode = λ a. read_written (into_v4 a);
  try_into_v4_again = into_v4_again;
}
