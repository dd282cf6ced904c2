-- ===== src/Hbbs/Peers/Directory.antt =====
-- What src/peer.rs promises: a directory from ids to identities, in which it does not show whether a
-- peer is in memory or in the database only.
use rustdesk_server.Prelude.{
  ℕ, ◌≡◌, refl, inl, inr, Option, none, some, [], arith, ◌==◌, text_eq, list_beq_iff, Option-cases,
  Bool-cases, unwrap_or, subst,
}
use rustdesk_server.Prelude.Map
use rustdesk_server.Prelude.Map.{get-insert}
use rustdesk_server.Prelude.Text.{Text}
use rustdesk_server.Hbbs.Peers.{Database, DbPeer, Peer, PeerMap, get, from_row}

-- Who a peer is, apart from where and when it was seen.
pub record Identity : Type 0 where
  pub uuid : Text
  pub pk : Text
  pub ip : Text

abbrev pub Directory : Type 0
Directory = Text → Option Identity

abbrev pub identity : Peer → Identity
identity p = record { uuid = p.uuid; pk = p.pk; ip = p.info_ip }

module _ (ext : Database) where
  row_identity : DbPeer → Identity
  row_identity row = record {
    uuid = row.uuid;
    pk = row.pk;
    ip = unwrap_or (ext.from_json row.info) [];
  }

  -- The directory that a map of peers stands for.
  unfoldable pub directory : PeerMap ext → Directory
  unfolding row_identity
  directory pm id = elim (Map.get id pm.map) [
    | some p ↦ some (identity p)
    | none ↦ elim (ext.get_peer id pm.db) [ none ↦ none | some row ↦ some (row_identity row) ]
  ]

  unfoldable pub found : Option Peer → Option Identity
  found none = none
  found (some p) = some (identity p)

  get_keeps :
      (now : ℕ) (id j : Text) (pm : PeerMap ext)
      → directory (get ext now id pm).1 j ≡ directory pm j
  unfolding directory get from_row
  get_keeps now id j pm = elim (Option-cases (Map.get id pm.map)) [
    | inr (p, e) ↦ rw (get, e) refl
    | inl e ↦ elim (Option-cases (ext.get_peer id pm.db)) [
      | inl d ↦ rw (get, e, d) refl
      | inr (row, d) ↦ elim (Bool-cases (id == j)) [
        | inr n ↦
            let p = from_row ext now row in
            let other : Map.get j (Map.insert id p pm.map) ≡ Map.get j pm.map =
              ground (arith, n, get-insert id j p pm.map) in
            rw (get, e, d) (rw (directory, other) refl)
        | inl s ↦
            let p = from_row ext now row in
            let ij : id ≡ j = (list_beq_iff id j).0 s in
            let new : Map.get j (Map.insert id p pm.map) ≡ some p =
              ground (arith, s, get-insert id j p pm.map) in
            let e' : Map.get j pm.map ≡ none = subst (λ x. Map.get x pm.map ≡ none) ij e in
            let d' : ext.get_peer j pm.db ≡ some row =
              subst (λ x. ext.get_peer x pm.db ≡ some row) ij d in
            rw (get, e, d) (rw (directory, new, e', d') refl)
      ]
    ]
  ]

  get_found :
      (now : ℕ) (id : Text) (pm : PeerMap ext) → found (get ext now id pm).0 ≡ directory pm id
  unfolding directory get from_row found
  get_found now id pm = elim (Option-cases (Map.get id pm.map)) [
    | inr (p, e) ↦ rw (get, directory, e) refl
    | inl e ↦ elim (Option-cases (ext.get_peer id pm.db)) [
      | inl d ↦ rw (get, directory, e, d) refl
      | inr (row, d) ↦ rw (get, directory, e, d) refl
    ]
  ]

  -- Looking a peer up implements looking it up in the directory: it gives what the directory has, and
  -- it leaves the directory as it was, though it may move the peer from the database into memory.
  pub get_refines :
      (now : ℕ) (id j : Text) (pm : PeerMap ext)
      → (found (get ext now id pm).0 ≡ directory pm id)
        × (directory (get ext now id pm).1 j ≡ directory pm j)
  unfolding directory get from_row found
  get_refines now id j pm = (get_found now id pm, get_keeps now id j pm)
