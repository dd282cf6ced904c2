-- ===== src/Hbbs/Database.antt =====
-- src/database.rs: the statements on the table `peer`. SQLite runs a statement on all rows, keeps the
-- guids and the ids unique, and may refuse to write.
pub mod Restart
use rustdesk_server.Prelude.{
  ℕ, ◌+◌, ◌≡◌, Bool, true, false, ◌&&◌, ◌||◌, not, Option, none, some, List, [], ◌∷◌, map, any,
  arith, ◌==◌, text_eq, if◌then◌else◌, refl, ap, ◌∙◌, beq_refl, All, list_beq_iff, Bool-cases, inl,
  inr,
}
use rustdesk_server.Prelude.Text.{Text, is_empty}
use rustdesk_server.Hbbs.Peers.{DbPeer, Database}

pub record Row : Type 0 where
  pub id : Text
  pub peer : DbPeer

-- The rows of the table, the newest first, and how many statements wrote or tried to.
pub record Table : Type 0 where
  pub rows : List Row
  pub statements : ℕ

-- Which statements can write, the guids that `Uuid::new_v4` gives, of 16 bytes, and the JSON of a `PeerInfo`, which
-- serde reads back.
pub record Outside : Type 0 where
  pub can_write : ℕ → Bool
  pub new_guid : ℕ → Text
  pub new_guid_length : (n : ℕ) → is_empty (new_guid n) ≡ false
  pub to_json : Text → Text
  pub from_json : Text → Option Text
  pub from-to_json : (ip : Text) → from_json (to_json ip) ≡ some ip

find_id : Text → List Row → Option DbPeer
find_id id [] = none
find_id id (r ∷ rs) = let rest = find_id id rs in if r.id == id then some r.peer else rest

-- `select ... from peer where id = ?`
unfoldable pub get_peer : Text → Table → Option DbPeer
unfolding find_id
get_peer id t = find_id id t.rows

abbrev set_row : Text → Text → Text → Text → Row → Row
set_row guid id pk info r =
    if r.peer.guid == guid
    then record r { id = id; peer = record r.peer { pk = pk; info = info } }
    else r

module _ (os : Outside) where
  -- `insert into peer(guid, id, uuid, pk, info)`, with a new guid.
  unfoldable pub insert_peer : Text → Text → Text → Text → Table → Option (Text × Table)
  insert_peer id uuid pk info t =
      let guid = os.new_guid t.statements in
      let taken = any (λ (r : Row). r.peer.guid == guid || r.id == id) t.rows in
      if os.can_write t.statements && not taken
      then some (
        guid,
        record {
          rows =
              record { id = id; peer = record { guid = guid; uuid = uuid; pk = pk; info = info } }
              ∷ t.rows;
          statements = t.statements + 1;
        },
      )
      else none

  -- `update peer set id=?, pk=?, info=? where guid=?`, which may change no row.
  unfoldable pub update_peer_pk : Text → Text → Text → Text → Table → Option Table
  update_peer_pk guid id pk info t =
      let there = any (λ (r : Row). r.peer.guid == guid) t.rows in
      let taken = any (λ (r : Row). r.id == id && not (r.peer.guid == guid)) t.rows in
      if os.can_write t.statements && not (there && taken)
      then some
          (record { rows = map (set_row guid id pk info) t.rows; statements = t.statements + 1 })
      else none

  -- A row that was inserted is found.
  pub get_peer-insert_peer :
      (id uuid pk info : Text) (t : Table) (guid : Text) (t' : Table)
      → insert_peer id uuid pk info t ≡ some (guid, t')
      → get_peer id t' ≡ some (record { guid = guid; uuid = uuid; pk = pk; info = info })
  unfolding insert_peer get_peer
  get_peer-insert_peer id uuid pk info t guid t' h = ground (arith, h, beq_refl id)

  pub insert_peer_guid :
      (id uuid pk info : Text) (t : Table) (guid : Text) (t' : Table)
      → insert_peer id uuid pk info t ≡ some (guid, t')
      → is_empty guid ≡ false
  unfolding insert_peer
  insert_peer_guid id uuid pk info t guid t' h = ground (arith, h, os.new_guid_length t.statements)

  -- Only the row of the id has the guid.
  pub Owns : Text → Text → List Row → Type 0
  Owns guid id = All (λ r. (r.peer.guid == guid) ≡ true → (r.id == id) ≡ true)

  untaken-Owns :
      (guid id : Text) (rs : List Row)
      → any (λ (r : Row). r.peer.guid == guid || r.id == id) rs ≡ false
      → Owns guid id rs
  unfolding Owns
  untaken-Owns guid id [] h = tt
  untaken-Owns guid id (r ∷ rs) h =
      ((λ e. ground (arith, h, e)), untaken-Owns guid id rs (ground (arith, h)))

  pub insert_peer-Owns :
      (id uuid pk info : Text) (t : Table) (guid : Text) (t' : Table)
      → insert_peer id uuid pk info t ≡ some (guid, t')
      → Owns guid id t'.rows
  unfolding insert_peer Owns
  insert_peer-Owns id uuid pk info t guid t' h =
      let own : Row = record {
        id = id;
        peer = record { guid = guid; uuid = uuid; pk = pk; info = info };
      } in
      let free : any (λ (r : Row). r.peer.guid == guid || r.id == id) t.rows ≡ false =
        ground (arith, h) in
      let rows : t'.rows ≡ own ∷ t.rows = ground (arith, h) in
      rw rows ((λ e. beq_refl id), untaken-Owns guid id t.rows free)

  find_id-set_row :
      (guid id pk info : Text) (rs : List Row) (row : DbPeer)
      → Owns guid id rs
      → find_id id rs ≡ some row
      → row.guid ≡ guid
      → find_id id (map (set_row guid id pk info) rs) ≡ some (record row { pk = pk; info = info })
  unfolding find_id Owns
  find_id-set_row guid id pk info [] row o f g = ground (arith, f)
  find_id-set_row guid id pk info (r ∷ rs) row (o, os') f g = elim (Bool-cases (r.id == id)) [
    | inl e ↦
        let same : r.peer ≡ row = ground (arith, f, e) in
        let own : (r.peer.guid == guid) ≡ true =
          (list_beq_iff r.peer.guid guid).1 (ap (λ p. p.guid) same ∙ g) in
        ground (arith, own, same, beq_refl id)
    | inr e ↦
        let rest = find_id-set_row guid id pk info rs row os' (ground (arith, f, e)) g in
        elim (Bool-cases (r.peer.guid == guid)) [
          | inl own ↦ absurd (let found = o own in ground (arith, e, found))
          | inr own ↦ ground (arith, own, e, rest)
        ]
  ]

  -- The row of the id has its new key and info after an update by its guid.
  pub get_peer-update_peer_pk :
      (guid id pk info : Text) (t t' : Table) (row : DbPeer)
      → Owns guid id t.rows
      → get_peer id t ≡ some row
      → row.guid ≡ guid
      → update_peer_pk guid id pk info t ≡ some t'
      → get_peer id t' ≡ some (record row { pk = pk; info = info })
  unfolding get_peer update_peer_pk
  get_peer-update_peer_pk guid id pk info t t' row o f g h =
      let rows : t'.rows ≡ map (set_row guid id pk info) t.rows = ground (arith, h) in
      rw rows (find_id-set_row guid id pk info t.rows row o f g)

  -- The database that src/peer.rs uses.
  abbrev pub database : Database
  database = record {
    Db = Table;
    get_peer = get_peer;
    insert_peer = insert_peer;
    update_pk = update_peer_pk;
    to_json = os.to_json;
    from_json = os.from_json;
  }
