-- ===== src/Routes/Table.antt =====
-- The routing table that src/relay_routes.rs parses: every table is well formed, and a lookup in
-- it finds the most specific network.
use rustdesk_server.Prelude.{
  ℕ, ◌+◌, ◌≤◌, ◌≡◌, refl, ◌⊎◌, inl, inr, ◌≢◌, true, false, Option, none, some, List, [], ◌∷◌, ◌++◌,
  arith, Bool-cases, Option-cases, All, All-append, any, find, ◌==◌, text_eq, subst,
}
use rustdesk_server.Prelude.Map
use rustdesk_server.Prelude.Map.{Map}
use rustdesk_server.Prelude.Text.{Text, rsplit_once, lines, is_empty, trim, split, split_whitespace}
use rustdesk_server.Relay.Name.{normalize}
use rustdesk_server.Net.{IpAddr, to_canonical}
use rustdesk_server.Prelude.Result.{ok, Result-cases}
use rustdesk_server.Numbers.{Float}
use rustdesk_server.Routes.{
  Networks, Rule, RouteTable, parse_entry, parse_entries, parse_tokens, parse_line, parse_lines,
  same_net, entries_of, sort_rules, parse, lookup,
}
use rustdesk_server.Routes.Order.{
  AllDistinct, IsSorted, AllDistinct-append, sort_rules-All, All-mono, sort_rules-IsSorted,
  sort_rules-AllDistinct, sort_rules-nonempty,
}

module _ (fl : Float) (nets : Networks) where
  open fl use {F, lt, is_finite}
  open nets use {Net, prefix, network}

  abbrev Rule' : Type 0
  Rule' = Rule fl nets

  -- A finite, non-negative number of milliseconds.
  abbrev pub IsMillis : Text × F → Type 0
  IsMillis kv = (is_finite kv.1 ≡ true) × (lt kv.1 (fl.lit 0) ≡ false)

  abbrev pub IsValidRule : Rule fl nets → Type 0
  IsValidRule r = (r.costs ≢ []) × All IsMillis r.costs

  pub record IsValidTable (t : RouteTable fl nets) : Type 0 where
    pub routed : t ≢ []
    pub rules : All IsValidRule t
    pub distinct : AllDistinct fl nets t
    pub sorted : IsSorted fl nets t

  insert-IsMillis :
      (k : Text) (v : F) (m : Map Text F)
      → IsMillis (k, v)
      → All IsMillis m
      → All IsMillis (Map.insert k v m)
  unfolding Map.insert
  insert-IsMillis k v [] h a = (h, tt)
  insert-IsMillis k v ((j, w) ∷ m) h a = elim (Bool-cases (j == k)) [
    | inl e ↦ rw e (h, a.1)
    | inr e ↦ rw e (a.0, insert-IsMillis k v m h a.1)
  ]

  parse_entry-IsMillis :
      (n : ℕ) (costs : Map Text F) (e : Text) (costs' : Map Text F)
      → All IsMillis costs
      → parse_entry fl nets n costs e ≡ ok costs'
      → All IsMillis costs'
  unfolding parse_entry
  parse_entry-IsMillis n costs e costs' a h = elim (Option-cases (rsplit_once b'=' e)) [
    | inl p ↦ ground (arith, p)
    | inr (kv, p) ↦ elim (Option-cases (fl.parse kv.1)) [
      | inl q ↦ ground (arith, p, q)
      | inr (ms, q) ↦
          let fits : (is_finite ms ≡ true) × (lt ms (fl.lit 0) ≡ false) = ground (arith, p, q) in
          let e' : Map.insert (normalize kv.0) ms costs ≡ costs' = ground (arith, p, q) in
          subst (All IsMillis) e' (insert-IsMillis (normalize kv.0) ms costs fits a)
    ]
  ]

  parse_entries-IsMillis :
      (n : ℕ) (costs : Map Text F) (es : List Text) (costs' : Map Text F)
      → All IsMillis costs
      → parse_entries fl nets n costs es ≡ ok costs'
      → All IsMillis costs'
  unfolding parse_entries
  parse_entries-IsMillis n costs [] costs' a h = ground arith
  parse_entries-IsMillis n costs (e ∷ es) costs' a h =
      elim (Result-cases (parse_entry fl nets n costs e)) [
        | inl (c, p) ↦
            parse_entries-IsMillis n c es costs' (parse_entry-IsMillis n costs e c a p)
              (ground (arith, p))
        | inr (x, p) ↦ ground (arith, p)
      ]

  -- One line adds at most one rule, valid and for a network that is not there yet.
  record IsBuilt (rules : List Rule') : Type 0 where
    valid : All IsValidRule rules
    apart : AllDistinct fl nets rules

  parse_tokens-IsBuilt :
      (n : ℕ) (rules : List Rule') (ts : List Text) (rules' : List Rule')
      → IsBuilt rules
      → parse_tokens fl nets n rules ts ≡ ok rules'
      → IsBuilt rules'
  unfolding parse_tokens
  parse_tokens-IsBuilt n rules [] rules' b h = ground arith
  parse_tokens-IsBuilt n rules (t ∷ ts) rules' b h = elim (Option-cases (nets.parse t)) [
    | inl p ↦ ground (arith, p)
    | inr (net, p) ↦ elim (Result-cases (parse_entries fl nets n [] (entries_of fl nets ts))) [
      | inr (x, q) ↦ ground (arith, p, q)
      | inl (costs, q) ↦
          let new : Rule' = record { net = net; costs = costs } in
          let e : rules ++ new ∷ [] ≡ rules' = ground (arith, p, q) in
          let fresh : any (same_net fl nets net) rules ≡ false = ground (arith, p, q) in
          let priced : costs ≢ [] = ground (arith, p, q) in
          let good : IsValidRule new =
            (priced, parse_entries-IsMillis n [] (entries_of fl nets ts) costs tt q) in
          subst IsBuilt e (record {
            valid = All-append _ rules (new ∷ []) b.valid (good, tt);
            apart = AllDistinct-append fl nets rules new b.apart fresh;
          })
    ]
  ]

  parse_line-IsBuilt :
      (n : ℕ) (rules : List Rule') (raw : Text) (rules' : List Rule')
      → IsBuilt rules
      → parse_line fl nets n rules raw ≡ ok rules'
      → IsBuilt rules'
  unfolding parse_line
  parse_line-IsBuilt n rules raw rules' b h =
      let line = trim (elim (split b'#' raw) [ [] ↦ [] | first ∷ _ ↦ first ]) in
      elim (Bool-cases (is_empty line)) [
        | inl e ↦ subst IsBuilt (ground arith) b
        | inr e ↦ parse_tokens-IsBuilt n rules (split_whitespace line) rules' b (ground arith)
      ]

  parse_lines-IsBuilt :
      (n : ℕ) (rules : List Rule') (raws : List Text) (rules' : List Rule')
      → IsBuilt rules
      → parse_lines fl nets n rules raws ≡ ok rules'
      → IsBuilt rules'
  unfolding parse_lines
  parse_lines-IsBuilt n rules [] rules' b h = subst IsBuilt (ground arith) b
  parse_lines-IsBuilt n rules (raw ∷ raws) rules' b h =
      elim (Result-cases (parse_line fl nets n rules raw)) [
        | inl (c, p) ↦
            parse_lines-IsBuilt (n + 1) c raws rules' (parse_line-IsBuilt n rules raw c b p)
              (ground (arith, p))
        | inr (x, p) ↦ ground (arith, p)
      ]

  -- A table that parses has a rule; each rule prices at least one relay, in finite, non-negative
  -- milliseconds; no two rules are for one network; and longer prefixes come first.
  pub parse-IsValidTable :
      (t : Text) (table : RouteTable fl nets) → parse fl nets t ≡ ok table → IsValidTable table
  unfolding parse
  parse-IsValidTable t table h = elim (Result-cases (parse_lines fl nets 1 [] (lines t))) [
    | inr (x, p) ↦ ground (arith, p)
    | inl (rules, p) ↦
        let built : IsBuilt rules =
          parse_lines-IsBuilt 1 [] (lines t) rules (record { valid = tt; apart = tt }) p in
        let some_rule : rules ≢ [] = ground (arith, p) in
        let e : sort_rules fl nets rules ≡ table = ground (arith, p) in
        subst IsValidTable e (record {
          routed = sort_rules-nonempty fl nets rules some_rule;
          rules = sort_rules-All fl nets _ rules built.valid;
          distinct = sort_rules-AllDistinct fl nets rules built.apart;
          sorted = sort_rules-IsSorted fl nets rules;
        })
  ]

  abbrev pub In : Rule fl nets → List (Rule fl nets) → Type 0
  In r [] = ⊥
  In r (s ∷ rs) = (r ≡ s) ⊎ In r rs

  -- The specification of a lookup: no rule contains the address, or the rule found does and no
  -- rule that contains it has a longer prefix.
  abbrev pub IsMostSpecific : RouteTable fl nets → IpAddr → Option (Rule fl nets) → Type 0
  IsMostSpecific t ip none = All (λ s. nets.contains s.net ip ≡ false) t
  IsMostSpecific t ip (some r) =
      In r t
      × (nets.contains r.net ip ≡ true)
      × All (λ s. nets.contains s.net ip ≡ true → prefix s.net ≤ prefix r.net) t

  lookup_sorted :
      (t : RouteTable fl nets) (ip : IpAddr)
      → IsSorted fl nets t
      → IsMostSpecific t ip (find (λ r. nets.contains r.net ip) t)
  lookup_sorted [] ip s = tt
  lookup_sorted (r ∷ rs) ip s = elim (Bool-cases (nets.contains r.net ip)) [
    | inl e ↦ rw e (inl refl, e, ((λ _. omega arith), All-mono fl nets rs (λ x h _. h) s.0))
    | inr e ↦ rw e (skip (find (λ x. nets.contains x.net ip) rs) e (lookup_sorted rs ip s.1))
  ]
    where
      skip :
          (o : Option Rule')
          → nets.contains r.net ip ≡ false
          → IsMostSpecific rs ip o
          → IsMostSpecific (r ∷ rs) ip o
      skip none e h = (e, h)
      skip (some x) e h = (inr h.0, h.1, ((λ p. ground arith), h.2))

  -- In a table that parses, a lookup finds the most specific network that contains the address,
  -- unwrapped if it is an IPv4 address inside an IPv6 one.
  pub lookup-parse-IsMostSpecific :
      (t : Text) (table : RouteTable fl nets) (ip : IpAddr)
      → parse fl nets t ≡ ok table
      → IsMostSpecific table (to_canonical ip) (lookup fl nets table ip)
  unfolding lookup
  lookup-parse-IsMostSpecific t table ip h =
      lookup_sorted table (to_canonical ip) (parse-IsValidTable t table h).sorted
