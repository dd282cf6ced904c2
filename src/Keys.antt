-- ===== src/Keys.antt =====
-- The key files of src/common.rs: the private key that is read or generated, and the public key
-- that is published beside it. Paths, links and modes are those of a Unix file system.
pub mod Fixed
pub mod Publishing
pub mod Kept
pub mod Links
pub mod Private
pub mod Guarded
pub mod Server
use rustdesk_server.Prelude.{
  ℕ, zero, suc, ◌+◌, ◌*◌, ◌/◌, ◌%◌, Bool, true, false, ◌&&◌, ◌||◌, not, Option, none, some, [],
  ◌==◌, nat_eq, text_eq, if◌then◌else◌,
}
use rustdesk_server.Prelude.Text.{Text, text, trim, contains_char}
use rustdesk_server.Prelude.Result.{Result, ok, err}

-- What stands at a path; metadata of `unreadable` cannot be read.
pub data Node : Type 0 where
  absent unreadable : Node
  link : (target : Text) → Node
  file : (mode : ℕ) (content : Text) → Node

abbrev pub Files : Type 0
Files = Text → Node

abbrev pub put : Text → Node → Files → Files
put p n s q = if q == p then n else s q

-- The path library, the system calls, base64, ed25519 and the names of uuid.
pub record Outside (Key : Type 0) : Type 0 where
  -- `path.pop(); path.push(target)`
  pub join : (path target : Text) → Text
  -- `.id_ed25519.pub.<uuid>` beside a path.
  pub beside : Text → Text
  pub can_open : Text → Bool
  pub can_read : Text → Bool
  pub can_create : Text → Bool
  pub can_write : Text → Bool
  pub can_sync : Text → Bool
  pub can_rename : Text → Bool
  pub can_remove : Text → Bool
  -- The mode of a new file, by the mode that is asked for.
  pub created_mode : ℕ → ℕ
  -- The mode that a change of a mode gives, if it does not fail.
  pub chmod : (old requested : ℕ) → Option ℕ
  -- The number of links that opening a file follows.
  pub max_links : ℕ
  pub decode : Text → Option Key
  pub encode : Key → Text
  pub encode_public : Key → Text
  -- The pairs that `sign::gen_keypair` gives, one after the other.
  pub gen_keypair : ℕ → Key

pub data Failure : Type 0 where
  too_many_symlinks no_metadata cannot_open cannot_read cannot_create cannot_write : Failure
  cannot_sync cannot_remove cannot_chmod cannot_publish unsafe_permissions : Failure
  wrong_permissions public_key_mismatch public_key_disappeared malformed_private_key : Failure

abbrev pub private_key_file_mode : ℕ
private_key_file_mode = 0o600

abbrev max_key_symlinks : ℕ
max_key_symlinks = 40

abbrev pub sk_file : Text
sk_file = text "id_ed25519"

abbrev pub pub_file : Text
pub_file = text "id_ed25519.pub"

-- `mode & !0o600`
unfoldable pub beyond_owner : ℕ → ℕ
beyond_owner mode = mode % 128 + 512 * (mode / 512)

-- `mode & 0o7777`
abbrev pub permission_bits : ℕ → ℕ
permission_bits mode = mode % 4096

abbrev pub filled : Node → Text → Node
filled (file mode old) content = file mode content
filled n content = n

-- The file stays open: its mode and content are known, and only its mode changes.
module _ {Key : Type 0} (os : Outside Key) where
  unfoldable pub resolve : ℕ → Text → Files → Result Failure Text
  resolve zero path s = err too_many_symlinks
  resolve (suc n) path s = elim (s path) [
    | link target ↦ resolve n (os.join path target) s
    | unreadable ↦ err no_metadata
    | absent ↦ ok path
    | file mode content ↦ ok path
  ]

  unfoldable pub resolve_key_path : Text → Files → Result Failure Text
  unfolding resolve
  resolve_key_path = resolve max_key_symlinks

  -- What opening a path finds: the links are followed, up to the limit of the system.
  unfoldable pub follow : ℕ → Text → Files → Text × Node
  follow zero path s = elim (s path) [
    | link target ↦ (path, unreadable)
    | unreadable ↦ (path, unreadable)
    | absent ↦ (path, absent)
    | file mode content ↦ (path, file mode content)
  ]
  follow (suc n) path s = elim (s path) [
    | link target ↦ follow n (os.join path target) s
    | unreadable ↦ (path, unreadable)
    | absent ↦ (path, absent)
    | file mode content ↦ (path, file mode content)
  ]

  -- `set_permissions` to 0600, and the check of what it gave.
  unfoldable pub restrict : Text → ℕ → Text → Files → Result Failure (Unit {0}) × Files
  restrict path mode content s = elim (os.chmod mode private_key_file_mode) [
    | none ↦ (err cannot_chmod, s)
    | some m ↦ (
      if permission_bits m == private_key_file_mode then ok tt else err wrong_permissions,
      put path (file m content) s,
    )
  ]

  unfoldable pub set_private_key_permissions :
      Bool → Text → ℕ → Text → Files → Result Failure (Unit {0}) × Files
  unfolding beyond_owner restrict
  set_private_key_permissions newly_created path mode content s =
      let bits = permission_bits mode in
      if not newly_created && beyond_owner bits == 0
      then (ok tt, s)
      else if newly_created && not (beyond_owner bits == 0)
      then (err unsafe_permissions, s)
      else if bits == private_key_file_mode
      then (ok tt, s)
      else restrict path mode content s

  -- The new file is removed when it could not be made private or written.
  unfoldable pub withdrawn : Text → Failure → Files → Result Failure (Unit {0}) × Files
  withdrawn path e s =
      if os.can_remove path then (err e, put path absent s) else (err cannot_remove, s)

  unfoldable pub fill :
      Text → Text → Result Failure (Unit {0}) × Files → Result Failure (Unit {0}) × Files
  unfolding withdrawn
  fill path contents (err e, s) = withdrawn path e s
  fill path contents (ok u, s) =
      if os.can_write path
      then (ok tt, put path (filled (s path) contents) s)
      else withdrawn path cannot_write s

  unfoldable pub create_new : Text → Text → Files → Result Failure (Unit {0}) × Files
  unfolding fill set_private_key_permissions
  create_new path contents s = elim (s path) [
    | absent ↦
        (let mode = os.created_mode private_key_file_mode in
          if os.can_create path
          then fill path contents
              (set_private_key_permissions true path mode [] (put path (file mode []) s))
          else (err cannot_create, s))
    | unreadable ↦ (err cannot_create, s)
    | link target ↦ (err cannot_create, s)
    | file mode content ↦ (err cannot_create, s)
  ]

  unfoldable pub create_private_key_file : Text → Text → Files → Result Failure (Unit {0}) × Files
  unfolding resolve_key_path create_new
  create_private_key_file path contents s = elim (resolve_key_path path s) [
    | err e ↦ (err e, s)
    | ok p ↦ create_new p contents s
  ]

  unfoldable pub missing_public_key_path : Text → Text → Files → Result Failure (Option Text)
  unfolding resolve_key_path trim
  missing_public_key_path path pk s = elim (resolve_key_path path s) [
    | err e ↦ err e
    | ok p ↦ elim (s p) [
      | absent ↦ ok (some p)
      | unreadable ↦ err cannot_read
      | link target ↦ err cannot_read
      | file mode content ↦
          if os.can_read p
          then if trim content == pk then ok none else err public_key_mismatch
          else err cannot_read
    ]
  ]

  -- `TempPath::drop`
  unfoldable pub dropped : Text → Files → Files
  dropped temporary s = if os.can_remove temporary then put temporary absent s else s

  -- The public key is there when its publication finds the place taken.
  abbrev still_there : Result Failure (Option Text) → Result Failure (Unit {0})
  still_there (err e) = err e
  still_there (ok none) = ok tt
  still_there (ok (some p)) = err public_key_disappeared

  unfoldable pub publish_public_key : Text → Text → Text → Files → Result Failure (Unit {0}) × Files
  unfolding missing_public_key_path dropped
  publish_public_key temporary path pk s =
      let taken : Result Failure (Unit {0}) × Files =
        (still_there (missing_public_key_path path pk s), dropped temporary s) in
      elim (s path) [
        | absent ↦
            if os.can_rename path
            then (ok tt, put path (s temporary) (put temporary absent s))
            else (err cannot_publish, dropped temporary s)
        | unreadable ↦ taken
        | link target ↦ taken
        | file mode content ↦ taken
      ]

  -- `mode | 0o600`, where the owner may not read and write.
  unfoldable pub owner_mode : ℕ → Option ℕ
  unfolding beyond_owner
  owner_mode mode =
      if (mode / 128) % 4 == 3 then some mode else os.chmod mode (beyond_owner mode + 384)

  unfoldable pub publish_new : Text → Text → Text → Files → Result Failure (Unit {0}) × Files
  unfolding owner_mode publish_public_key dropped
  publish_new temporary path pk s =
      let empty = put temporary (file (os.created_mode 0o666) []) s in
      elim (owner_mode (os.created_mode 0o666)) [
        | none ↦ (err cannot_chmod, dropped temporary empty)
        | some mode ↦
            if not (os.can_write temporary)
            then (err cannot_write, dropped temporary empty)
            else if not (os.can_sync temporary)
            then (err cannot_sync, dropped temporary empty)
            else publish_public_key temporary path pk (put temporary (file mode pk) s)
      ]

  not_created : Bool → Files → Result Failure (Unit {0}) × Files
  not_created required s = (if required then err cannot_create else ok tt, s)

  unfoldable pub create_temporary :
      Text → Text → Text → Bool → Files → Result Failure (Unit {0}) × Files
  unfolding publish_new not_created
  create_temporary temporary path pk required s = elim (s temporary) [
    | absent ↦
        if os.can_create temporary then publish_new temporary path pk s else not_created required s
    | unreadable ↦ not_created required s
    | link target ↦ not_created required s
    | file mode content ↦ not_created required s
  ]

  unfoldable pub write_public_key : Text → Text → Bool → Files → Result Failure (Unit {0}) × Files
  unfolding missing_public_key_path create_temporary
  write_public_key path pk required s = elim (missing_public_key_path path pk s) [
    | err e ↦ (err e, s)
    | ok none ↦ (ok tt, s)
    | ok (some p) ↦ create_temporary (os.beside p) p pk required s
  ]

  -- A key whose public part has no `/` and no `:`, if 300 tries find one.
  unfoldable pub find_key : ℕ → ℕ → Key
  find_key zero i = os.gen_keypair i
  find_key (suc n) i =
      let next = find_key n (i + 1) in
      let pk = os.encode_public (os.gen_keypair i) in
      if not (contains_char b'/' pk) && not (contains_char b':' pk) then os.gen_keypair i else next

  -- `write_public_key(..)?` before the keys are given.
  abbrev pub published :
      Key → Result Failure (Unit {0}) × Files → Result Failure (Text × Key) × Files
  published sk (err e, s) = (err e, s)
  published sk (ok u, s) = (ok (os.encode_public sk, sk), s)

  -- The private key is there.
  unfoldable pub read_key :
      Text → Text → Result Failure (Unit {0}) × Files → Result Failure (Text × Key) × Files
  unfolding trim write_public_key
  read_key path content (err e, s) = (err e, s)
  read_key path content (ok u, s) =
      if os.can_read path
      then elim (os.decode (trim content)) [
        | none ↦ (err malformed_private_key, s)
        | some sk ↦ published sk (write_public_key pub_file (os.encode_public sk) false s)
      ]
      else (err cannot_read, s)

  unfoldable pub after_private :
      Key → Result Failure (Unit {0}) × Files → Result Failure (Text × Key) × Files
  unfolding write_public_key
  after_private sk (err e, s) = (err e, s)
  after_private sk (ok u, s) = published sk (write_public_key pub_file (os.encode_public sk) true s)

  unfoldable pub new_key : Key → Files → Result Failure (Text × Key) × Files
  unfolding missing_public_key_path create_private_key_file after_private
  new_key sk s = elim (missing_public_key_path pub_file (os.encode_public sk) s) [
    | err e ↦ (err e, s)
    | ok missing ↦ after_private sk (create_private_key_file sk_file (os.encode sk) s)
  ]

  unfoldable pub opened : Text → Node → Files → Result Failure (Text × Key) × Files
  unfolding set_private_key_permissions read_key find_key new_key
  opened path absent s = new_key (find_key 300 0) s
  opened path unreadable s = (err cannot_open, s)
  opened path (link target) s = (err cannot_open, s)
  opened path (file mode content) s =
      if os.can_open path
      then read_key path content (set_private_key_permissions false path mode content s)
      else (err cannot_open, s)

  -- From the files as they are after the wait.
  unfoldable pub gen_sk : Files → Result Failure (Text × Key) × Files
  unfolding follow opened
  gen_sk s = let (path, found) = follow os.max_links sk_file s in opened path found s
