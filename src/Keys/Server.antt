-- ===== src/Keys/Server.antt =====
-- The keys of a server: get_server_sk of src/rendezvous_server.rs and of src/relay_server.rs.
use rustdesk_server.Prelude.{
  ◌≡◌, refl, ◌⊎◌, inl, inr, Bool, true, false, ◌||◌, Option, none, some, [], ◌∷◌, ◌==◌, text_eq,
  nat_eq, Bool-cases, Option-cases, if◌then◌else◌,
}
use rustdesk_server.Prelude.Text.{Text, text, trim, is_empty}
use rustdesk_server.Prelude.Result.{Result, ok, err}
use rustdesk_server.Keys.{
  Node, absent, unreadable, link, file, Files, Outside, Failure, follow, opened, new_key, gen_sk,
  pub_file, create_private_key_file, missing_public_key_path, sk_file, set_private_key_permissions,
  after_private, read_key, published, write_public_key, find_key,
}

module _ {Key : Type 0} (os : Outside Key) where
  -- `-` and `_` ask for the key of the file, and no key for its secret alone.
  unfoldable asks_for_file : Text → Bool
  asks_for_file key = is_empty key || key == text "-" || key == text "_"

  from_file :
      Text → Result Failure (Text × Key) × Files → Result Failure (Text × Option Key) × Files
  from_file key (err e, s) = (err e, s)
  from_file key (ok (pk, sk), s) = (ok (if is_empty key then key else pk, some sk), s)

  supplied : Text → Option Key → Files → Result Failure (Text × Option Key) × Files
  unfolding asks_for_file from_file gen_sk
  supplied key out_sk s =
      if asks_for_file key then from_file key (gen_sk os s) else (ok (key, out_sk), s)

  -- That of hbbs: the key that clients name, and the secret that signs.
  unfoldable get_server_sk : Text → Files → Result Failure (Text × Option Key) × Files
  unfolding supplied
  get_server_sk key s = elim (os.decode key) [
    | none ↦ supplied key none s
    | some sk ↦ supplied (os.encode_public sk) (some sk) s
  ]

  public_part : Result Failure (Text × Option Key) → Result Failure Text
  public_part (err e) = err e
  public_part (ok (key, out_sk)) = ok key

  read_public : Result Failure (Text × Key) × Files → Result Failure Text × Files
  read_public (err e, s) = (err e, s)
  read_public (ok (pk, sk), s) = (ok pk, s)

  -- That of hbbr, which signs nothing.
  unfoldable relay_key : Text → Files → Result Failure Text × Files
  unfolding gen_sk read_public
  relay_key given s =
      let key : Text = elim (os.decode given) [ none ↦ given | some sk ↦ os.encode_public sk ] in
      if key == text "-" || key == text "_" then read_public (gen_sk os s) else (ok key, s)

  from_file-public :
      (key : Text) (r : Result Failure (Text × Key) × Files)
      → is_empty key ≡ false
      → (read_public r).0 ≡ public_part (from_file key r).0
  unfolding read_public from_file public_part
  from_file-public key (err e, s) h = refl
  from_file-public key (ok (pk, sk), s) h = rw h refl

  -- From a setting that is not empty and no secret key, and from the same files, hbbr has the key that
  -- hbbs has, or fails as it does.
  relay_key_same :
      (given : Text) (s : Files)
      → is_empty given ≡ false
      → os.decode given ≡ none
      → (relay_key given s).0 ≡ public_part (get_server_sk given s).0
  unfolding relay_key get_server_sk supplied asks_for_file public_part
  relay_key_same given s h d = elim (Bool-cases (given == text "-" || given == text "_")) [
    | inl a ↦ rw (relay_key, get_server_sk, d, h, a) (from_file-public given (gen_sk os s) h)
    | inr a ↦ rw (relay_key, get_server_sk, d, h, a) refl
  ]

  -- The key belongs to the secret, if there is one.
  Fits : Result Failure (Text × Option Key) → Type 0
  Fits (err e) = Unit
  Fits (ok (key, none)) = Unit
  Fits (ok (key, some sk)) = (key ≡ []) ⊎ (key ≡ os.encode_public sk)

  abbrev Pairs : Result Failure (Text × Key) → Type 0
  Pairs (err e) = Unit
  Pairs (ok (pk, sk)) = pk ≡ os.encode_public sk

  published-Pairs : (sk : Key) (r : Result Failure (Unit {0}) × Files) → Pairs (published os sk r).0
  published-Pairs sk (err e, s) = tt
  published-Pairs sk (ok u, s) = refl

  after_private-Pairs :
      (sk : Key) (r : Result Failure (Unit {0}) × Files) → Pairs (after_private os sk r).0
  unfolding after_private
  after_private-Pairs sk (err e, s) = tt
  after_private-Pairs sk (ok u, s) =
      published-Pairs sk (write_public_key os pub_file (os.encode_public sk) true s)

  new_key-Pairs : (sk : Key) (s : Files) → Pairs (new_key os sk s).0
  unfolding new_key
  new_key-Pairs sk s = checked (missing_public_key_path os pub_file (os.encode_public sk) s) refl
    where
      checked :
          (r : Result Failure (Option Text))
          → missing_public_key_path os pub_file (os.encode_public sk) s ≡ r
          → Pairs (new_key os sk s).0
      checked (err e) q = rw (new_key, q) tt
      checked (ok missing) q =
          rw (new_key, q)
            (after_private-Pairs sk (create_private_key_file os sk_file (os.encode sk) s))

  read_key-Pairs :
      (path content : Text) (r : Result Failure (Unit {0}) × Files)
      → Pairs (read_key os path content r).0
  unfolding read_key
  read_key-Pairs path content (err e, s) = tt
  read_key-Pairs path content (ok u, s) = elim (Bool-cases (os.can_read path)) [
    | inr a ↦ rw a tt
    | inl a ↦ rw a (elim (Option-cases (os.decode (trim content))) [
      | inl b ↦ rw (read_key, b) tt
      | inr (sk, b) ↦
          rw (read_key, b)
            (published-Pairs sk (write_public_key os pub_file (os.encode_public sk) false s))
    ])
  ]

  opened-Pairs : (path : Text) (found : Node) (s : Files) → Pairs (opened os path found s).0
  unfolding opened
  opened-Pairs path absent s = new_key-Pairs (find_key os 300 0) s
  opened-Pairs path unreadable s = tt
  opened-Pairs path (link target) s = tt
  opened-Pairs path (file mode content) s = elim (Bool-cases (os.can_open path)) [
    | inr a ↦ rw a tt
    | inl a ↦
        rw a
          (read_key-Pairs path content (set_private_key_permissions os false path mode content s))
  ]

  from_file-Fits :
      (key : Text) (r : Result Failure (Text × Key) × Files) → Pairs r.0 → Fits (from_file key r).0
  unfolding from_file Fits
  from_file-Fits key (err e, s) h = tt
  from_file-Fits [] (ok (pk, sk), s) h = inl refl
  from_file-Fits (c ∷ key) (ok (pk, sk), s) h = inr h

  supplied-Fits :
      (key : Text) (out_sk : Option Key) (s : Files)
      → Fits (ok (key, out_sk))
      → Fits (supplied key out_sk s).0
  unfolding supplied gen_sk
  supplied-Fits key out_sk s h = elim (Bool-cases (asks_for_file key)) [
    | inr a ↦ rw a h
    | inl a ↦ rw a (
        let r = follow os os.max_links sk_file s in
        from_file-Fits key (opened os r.0 r.1 s) (opened-Pairs r.0 r.1 s))
  ]

  -- The key that hbbs gives its clients is none, or it is the public key of the secret that it signs
  -- with, whether the secret was given, read or generated.
  get_server_sk-Fits : (key : Text) (s : Files) → Fits (get_server_sk key s).0
  unfolding get_server_sk Fits
  get_server_sk-Fits key s = elim (Option-cases (os.decode key)) [
    | inl a ↦ rw (get_server_sk, a) (supplied-Fits key none s tt)
    | inr (sk, a) ↦
        rw (get_server_sk, a) (supplied-Fits (os.encode_public sk) (some sk) s (inr refl))
  ]
