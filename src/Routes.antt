-- ===== src/Routes.antt =====
-- src/relay_routes.rs: the routing table and the choice by cost.
pub mod Choosing
mod BestSoFar
mod Order
pub mod Table
pub mod Session
use rustdesk_server.Prelude.{
  ℕ, zero, suc, ◌+◌, ◌≡◌, refl, ◌⊎◌, inl, inr, Bool, true, false, ◌&&◌, ◌||◌, not, Option, none,
  some, List, [], ◌∷◌, ◌++◌, map, arith, leb, if◌then◌else◌, is_some, is_empty_list, unwrap_or,
  ◌==◌, nat_eq, text_eq, any, find, filter_map, get_elem?, length,
}
use rustdesk_server.Prelude.Map
use rustdesk_server.Prelude.Map.{Map}
use rustdesk_server.Prelude.Text.{
  Text, text, trim, rsplit_once, split, split_whitespace, nonempty, is_empty, lines,
}
use rustdesk_server.Prelude.Result.{Result, ok, err, ◌>>=◌, ◌>>◌, ensure, ok_or}
use rustdesk_server.Net.{IpAddr, ip_eq, to_canonical}
use rustdesk_server.Numbers.{Float}
use rustdesk_server.Relay.Name.{normalize}

-- The crate `ipnetwork`: a network with its prefix length.
pub record Networks : Type 1 where
  pub Net : Type 0
  pub parse : Text → Option Net
  pub network : Net → IpAddr
  pub prefix : Net → ℕ
  pub contains : Net → IpAddr → Bool

-- The messages of `RouteTable::parse`, each with the line number and the text that it quotes.
pub data ParseError : Type 0 where
  not_a_network appears_twice not_relay_ms not_a_number bad_time no_relay_name :
      ℕ → Text → ParseError
  relay_twice lists_no_relays : ℕ → Text → ParseError
  no_routes : ParseError

module _ (fl : Float) (nets : Networks) where
  open fl use {F, lt, is_finite, parse as parse_float}
  open nets use {Net, parse as parse_net, network, prefix}

  pub record Rule : Type 0 where
    pub net : Net
    -- Normalised relay -> milliseconds.
    pub costs : Map Text F

  -- The table is its list of rules.
  abbrev pub RouteTable : Type 0
  RouteTable = List Rule

  parse_entry : ℕ → Map Text F → Text → Result ParseError (Map Text F)
  parse_entry n costs entry = do
    (relay, ms_text) ← ok_or (rsplit_once b'=' entry) (not_relay_ms n entry)
    ms ← ok_or (parse_float ms_text) (not_a_number n ms_text)
    ensure (not (not (is_finite ms) || lt ms (fl.lit 0))) (bad_time n entry)
    ensure (not (is_empty (trim relay))) (no_relay_name n entry)
    ensure (not (is_some (Map.get (normalize relay) costs))) (relay_twice n relay)
    ok (Map.insert (normalize relay) ms costs)

  parse_entries : ℕ → Map Text F → List Text → Result ParseError (Map Text F)
  parse_entries n costs [] = ok costs
  parse_entries n costs (e ∷ es) = parse_entry n costs e >>= λ costs'. parse_entries n costs' es

  -- Entries may be separated by commas, spaces, or both.
  entries_of : List Text → List Text
  entries_of [] = []
  entries_of (t ∷ ts) = nonempty (split b',' t) ++ entries_of ts

  unfoldable pub same_net : Net → Rule → Bool
  same_net net r = network r.net == network net && prefix r.net == prefix net

  -- A line whose comment and blanks are gone, cut at white space: its network and its entries.
  parse_tokens : ℕ → List Rule → List Text → Result ParseError (List Rule)
  unfolding parse_entries parse_entry entries_of same_net
  parse_tokens n rules [] = ok rules
  parse_tokens n rules (net_text ∷ tokens) = do
    net ← ok_or (parse_net net_text) (not_a_network n net_text)
    ensure (not (any (same_net net) rules)) (appears_twice n net_text)
    costs ← parse_entries n [] (entries_of tokens)
    ensure (not (is_empty_list costs)) (lists_no_relays n net_text)
    ok (rules ++ record { net = net; costs = costs } ∷ [])

  parse_line : ℕ → List Rule → Text → Result ParseError (List Rule)
  unfolding parse_tokens
  parse_line n rules raw =
      let line = trim (elim (split b'#' raw) [ [] ↦ [] | first ∷ _ ↦ first ]) in
      if is_empty line then ok rules else parse_tokens n rules (split_whitespace line)

  parse_lines : ℕ → List Rule → List Text → Result ParseError (List Rule)
  unfolding parse_line
  parse_lines n rules [] = ok rules
  parse_lines n rules (raw ∷ rest) =
      parse_line n rules raw >>= λ rules'. parse_lines (n + 1) rules' rest

  -- Longest prefix first; a rule goes before those of an equal prefix that follow it in the file.
  insert_rule : Rule → List Rule → List Rule
  insert_rule r [] = r ∷ []
  insert_rule r (s ∷ rest) =
      if leb (prefix s.net) (prefix r.net) then r ∷ s ∷ rest else s ∷ insert_rule r rest

  -- The stable `sort_by_key` of the standard library.
  pub sort_rules : List Rule → List Rule
  unfolding insert_rule
  sort_rules [] = []
  sort_rules (r ∷ rest) = insert_rule r (sort_rules rest)

  unfoldable pub parse : Text → Result ParseError RouteTable
  unfolding parse_lines sort_rules
  parse t = do
    rules ← parse_lines 1 [] (lines t)
    ensure (not (is_empty_list rules)) no_routes
    ok (sort_rules rules)

  unfoldable pub rule_count : RouteTable → ℕ
  rule_count t = length t

  unfoldable pub lookup : RouteTable → IpAddr → Option Rule
  lookup t ip = find (λ r. nets.contains r.net (to_canonical ip)) t

  unfoldable pub costs_for : RouteTable → IpAddr → Option (Map Text F)
  unfolding lookup
  costs_for t ip = elim (lookup t ip) [ none ↦ none | some r ↦ some r.costs ]

-- `UNLISTED_COST_MS`
abbrev pub unlisted_cost_ms : ℕ
unlisted_cost_ms = 1000

-- What the choice reads of the floats alone.
module _ (fl : Float) where
  open fl use {F, lt}

  pub record Choice : Type 0 where
    pub relay : Text
    pub cost_ms : F
    pub costs : List (Text × F)

  unfoldable pub cost_or_unlisted : Text → Map Text F → F
  cost_or_unlisted key side = unwrap_or (Map.get key side) (fl.lit unlisted_cost_ms)

  -- `.sum()` adds from the left, from zero.
  sum_costs : Text → F → List (Map Text F) → F
  unfolding cost_or_unlisted
  sum_costs key acc [] = acc
  sum_costs key acc (s ∷ sides) = sum_costs key (fl.add acc (cost_or_unlisted key s)) sides

  unfoldable pub total_cost : List (Map Text F) → Text → Text × F
  unfolding sum_costs
  total_cost sides relay = (relay, sum_costs (normalize relay) (fl.lit 0) sides)

  -- `*cost < costs[best].1`
  beats : List (Text × F) → F → ℕ → Bool
  beats costs cost best = elim (get_elem? costs best) [ none ↦ false | some m ↦ lt cost m.1 ]

  -- The loop over `costs.iter().enumerate()`, at its index.
  pub best_from : List (Text × F) → ℕ → List (Text × F) → ℕ → ℕ
  unfolding beats
  best_from costs i [] best = best
  best_from costs i ((_, cost) ∷ rest) best =
      best_from costs (i + 1) rest (if beats costs cost best then i else best)

  choice_at : List (Text × F) → ℕ → Option Choice
  choice_at costs best = elim (get_elem? costs best) [
    | none ↦ none
    | some m ↦ some (record { relay = m.0; cost_ms = m.1; costs = costs })
  ]

  unfoldable pub choose_from : List Text → List (Map Text F) → Option Choice
  unfolding total_cost best_from choice_at
  choose_from healthy sides =
      if is_empty_list healthy || is_empty_list sides
      then none
      else let costs = map (total_cost sides) healthy in choice_at costs (best_from costs 0 costs 0)

module _ (fl : Float) (nets : Networks) where
  unfoldable pub choose : RouteTable fl nets → List Text → IpAddr → IpAddr → Option (Choice fl)
  choose t healthy a b = choose_from fl healthy (filter_map (costs_for fl nets t) (a ∷ b ∷ []))
