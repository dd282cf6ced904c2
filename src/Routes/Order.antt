-- ===== src/Routes/Order.antt =====
-- The order of the rules in src/relay_routes.rs: what sorting and appending keep.
use rustdesk_server.Prelude.{
  ◌≤◌, ◌≡◌, ◌≢◌, inl, inr, false, List, [], ◌∷◌, ◌++◌, arith, leb, Bool-cases, All, All-append, any,
}
use rustdesk_server.Net.{ip_beq_iff}
use rustdesk_server.Numbers.{Float}
use rustdesk_server.Routes.{Networks, Rule, same_net, insert_rule, sort_rules}

module _ (fl : Float) (nets : Networks) where
  open nets use {prefix, network}

  abbrev Rule' : Type 0
  Rule' = Rule fl nets

  -- No rule of the list has the network of `r`.
  abbrev pub Fresh : Rule fl nets → List (Rule fl nets) → Type 0
  Fresh r = All (λ s. same_net fl nets r.net s ≡ false)

  abbrev pub AllDistinct : List (Rule fl nets) → Type 0
  AllDistinct [] = Unit
  AllDistinct (r ∷ rs) = Fresh r rs × AllDistinct rs

  -- The prefixes do not grow along the list.
  abbrev pub IsSorted : List (Rule fl nets) → Type 0
  IsSorted [] = Unit
  IsSorted (r ∷ rs) = All (λ s. prefix s.net ≤ prefix r.net) rs × IsSorted rs

  same_net_comm : (r s : Rule') → same_net fl nets r.net s ≡ same_net fl nets s.net r
  unfolding same_net
  same_net_comm r s = ground (
    arith,
    ip_beq_iff (network s.net) (network r.net),
    ip_beq_iff (network r.net) (network s.net),
  )

  Fresh-append :
      (r s : Rule') (rs : List Rule')
      → Fresh r rs
      → same_net fl nets s.net r ≡ false
      → Fresh r (rs ++ s ∷ [])
  Fresh-append r s rs f e =
      All-append (λ x. same_net fl nets r.net x ≡ false) rs (s ∷ []) f
        (rw (same_net_comm r s) e, tt)

  pub AllDistinct-append :
      (rs : List Rule') (s : Rule')
      → AllDistinct rs
      → any (same_net fl nets s.net) rs ≡ false
      → AllDistinct (rs ++ s ∷ [])
  AllDistinct-append [] s d e = (tt, tt)
  AllDistinct-append (r ∷ rs) s d e =
      let here : same_net fl nets s.net r ≡ false = ground arith in
      let later : any (same_net fl nets s.net) rs ≡ false = ground arith in
      (Fresh-append r s rs d.0 here, AllDistinct-append rs s d.1 later)

  insert_rule-All {ℓ} :
      (P : Rule' → Type ℓ) (r : Rule') (rs : List Rule')
      → P r
      → All P rs
      → All P (insert_rule fl nets r rs)
  unfolding insert_rule
  insert_rule-All P r [] h a = (h, tt)
  insert_rule-All P r (s ∷ rs) h a = elim (Bool-cases (leb (prefix s.net) (prefix r.net))) [
    | inl e ↦ rw e (h, a)
    | inr e ↦ rw e (a.0, insert_rule-All P r rs h a.1)
  ]

  pub sort_rules-All {ℓ} :
      (P : Rule' → Type ℓ) (rs : List Rule') → All P rs → All P (sort_rules fl nets rs)
  unfolding sort_rules
  sort_rules-All P [] a = a
  sort_rules-All P (r ∷ rs) a = insert_rule-All P r _ a.0 (sort_rules-All P rs a.1)

  pub All-mono {ℓ κ} :
      {P : Rule' → Type ℓ} {Q : Rule' → Type κ} (rs : List Rule')
      → ((r : Rule') → P r → Q r)
      → All P rs
      → All Q rs
  All-mono [] f a = tt
  All-mono (r ∷ rs) f a = (f r a.0, All-mono rs f a.1)

  insert_rule-IsSorted :
      (r : Rule') (rs : List Rule') → IsSorted rs → IsSorted (insert_rule fl nets r rs)
  unfolding insert_rule
  insert_rule-IsSorted r [] s = (tt, tt)
  insert_rule-IsSorted r (x ∷ rs) s = elim (Bool-cases (leb (prefix x.net) (prefix r.net))) [
    | inl e ↦
        let le : prefix x.net ≤ prefix r.net = ground arith in
        rw e ((le, All-mono rs (λ y h. omega arith) s.0), s)
    | inr e ↦ rw e (insert_rule-All _ r rs (ground arith) s.0, insert_rule-IsSorted r rs s.1)
  ]

  pub sort_rules-IsSorted : (rs : List Rule') → IsSorted (sort_rules fl nets rs)
  unfolding sort_rules
  sort_rules-IsSorted [] = tt
  sort_rules-IsSorted (r ∷ rs) = insert_rule-IsSorted r _ (sort_rules-IsSorted rs)

  insert_rule-AllDistinct :
      (r : Rule') (rs : List Rule')
      → Fresh r rs
      → AllDistinct rs
      → AllDistinct (insert_rule fl nets r rs)
  unfolding insert_rule
  insert_rule-AllDistinct r [] f d = (tt, tt)
  insert_rule-AllDistinct r (x ∷ rs) f d = elim (Bool-cases (leb (prefix x.net) (prefix r.net))) [
    | inl e ↦ rw e (f, d)
    | inr e ↦ rw e (
      insert_rule-All _ r rs (rw (same_net_comm x r) f.0) d.0,
      insert_rule-AllDistinct r rs f.1 d.1,
    )
  ]

  pub sort_rules-AllDistinct :
      (rs : List Rule') → AllDistinct rs → AllDistinct (sort_rules fl nets rs)
  unfolding sort_rules
  sort_rules-AllDistinct [] d = d
  sort_rules-AllDistinct (r ∷ rs) d =
      insert_rule-AllDistinct r _ (sort_rules-All _ rs d.0) (sort_rules-AllDistinct rs d.1)

  insert_rule-nonempty : (r : Rule') (rs : List Rule') → insert_rule fl nets r rs ≢ []
  unfolding insert_rule
  insert_rule-nonempty r [] h = cc
  insert_rule-nonempty r (x ∷ rs) h = ground arith

  pub sort_rules-nonempty : (rs : List Rule') → rs ≢ [] → sort_rules fl nets rs ≢ []
  unfolding sort_rules
  sort_rules-nonempty [] h = h
  sort_rules-nonempty (r ∷ rs) h = insert_rule-nonempty r (sort_rules fl nets rs)
