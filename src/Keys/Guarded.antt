-- ===== src/Keys/Guarded.antt =====
-- The private key that src/common.rs gives stands in a file of the owner's alone.
use rustdesk_server.Prelude.{
  ◌≡◌, ◌≤◌, ◌∙◌, refl, sym, ap, subst, inl, inr, true, false, Option, arith, ℕ, Bool-cases,
}
use rustdesk_server.Prelude.Text.{Text}
use rustdesk_server.Prelude.Result.{Result, ok, err}
use rustdesk_server.Keys.{
  Node, absent, unreadable, link, file, Files, Outside, Failure, follow, opened, new_key, gen_sk,
  set_private_key_permissions, sk_file, pub_file, create_private_key_file, missing_public_key_path,
  after_private, read_key, find_key, resolve_key_path,
}
use rustdesk_server.Keys.Fixed.{Fixed, create_private_key_file-Fixed}
use rustdesk_server.Keys.Links.{follow-Fixed, follow-put, follow-resolve}
use rustdesk_server.Keys.Kept.{published-Fixed, read_key-Fixed, follow_found}
use rustdesk_server.Keys.Private.{
  IsPrivate, Guards, Restricts, set_private_key_permissions-Restricts,
  create_private_key_file-Guards,
}

module _ {Key : Type 0} (os : Outside Key) where
  -- Opening the private key finds a file that the owner alone may read and write.
  pub IsGuarded : Files → Type 0
  IsGuarded s =
      (p : Text) × (m : ℕ) × (content : Text) × (follow os os.max_links sk_file s
        ≡ (p, file m content))
      × IsPrivate m

  IsGuarded-Fixed : (s s' : Files) → IsGuarded s → Fixed s s' → IsGuarded s'
  unfolding IsGuarded
  IsGuarded-Fixed s s' (p, m, content, e, h) f =
      (p, m, content, follow-Fixed os os.max_links sk_file p content m s s' (s sk_file) refl f e, h)

  Restricts-IsGuarded :
      (path content : Text) (mode : ℕ) (s : Files) (r : Result Failure (Unit {0}) × Files)
      → follow os os.max_links sk_file s ≡ (path, file mode content)
      → Restricts os path content mode s r
      → r.0 ≡ ok tt
      → IsGuarded r.1
  unfolding Restricts IsGuarded
  Restricts-IsGuarded path content mode s (err e, s') h k q = ground (arith, q)
  Restricts-IsGuarded path content mode s (ok u, s') h (m, p, inl (same, e)) q = (
    path,
    m,
    content,
    ap (follow os os.max_links sk_file) same ∙ (h ∙ ap (λ n. (path, file n content)) (sym e)),
    p,
  )
  Restricts-IsGuarded path content mode s (ok u, s') h (m, p, inr same) q =
      let there = follow_found os os.max_links sk_file path content mode s h in
      (
        path,
        m,
        content,
        ap (follow os os.max_links sk_file) same
            ∙ follow-put os os.max_links sk_file path content mode m s (s sk_file) refl there h,
        p,
      )

  read_key_ok :
      (path content : Text) (r : Result Failure (Unit {0}) × Files) (keys : Text × Key)
      → (read_key os path content r).0 ≡ ok keys
      → r.0 ≡ ok tt
  unfolding read_key
  read_key_ok path content (err e, s) keys q = ground arith
  read_key_ok path content (ok u, s) keys q = refl

  after_private_ok :
      (sk : Key) (r : Result Failure (Unit {0}) × Files) (keys : Text × Key)
      → (after_private os sk r).0 ≡ ok keys
      → r.0 ≡ ok tt
  unfolding after_private
  after_private_ok sk (err e, s) keys q = ground arith
  after_private_ok sk (ok u, s) keys q = refl

  after_private-Fixed :
      (sk : Key) (r : Result Failure (Unit {0}) × Files) → Fixed r.1 (after_private os sk r).1
  unfolding after_private
  after_private-Fixed sk (err e, s) = λ p. inr refl
  after_private-Fixed sk (ok u, s) = published-Fixed os sk pub_file true s

  -- A key file that was created is found, where the system follows as many links.
  created-IsGuarded :
      (content : Text) (s : Files)
      → 39 ≤ os.max_links
      → (create_private_key_file os sk_file content s).0 ≡ ok tt
      → IsGuarded (create_private_key_file os sk_file content s).1
  unfolding IsGuarded resolve_key_path Guards
  created-IsGuarded content s links q =
      let (p, h, free, (m, e, private)) = create_private_key_file-Guards os sk_file content s q in
      let s' = (create_private_key_file os sk_file content s).1 in
      (
        p,
        m,
        content,
        follow-resolve os 39 os.max_links sk_file p content m s s' (s sk_file) refl
            (create_private_key_file-Fixed s os sk_file content) h free e links,
        private,
      )

  new_key-IsGuarded :
      (sk : Key) (s : Files) (keys : Text × Key)
      → 39 ≤ os.max_links
      → (new_key os sk s).0 ≡ ok keys
      → IsGuarded (new_key os sk s).1
  unfolding new_key
  new_key-IsGuarded sk s keys links q =
      checked (missing_public_key_path os pub_file (os.encode_public sk) s) refl
    where
      made : Result Failure (Unit {0}) × Files
      made = create_private_key_file os sk_file (os.encode sk) s

      checked :
          (r : Result Failure (Option Text))
          → missing_public_key_path os pub_file (os.encode_public sk) s ≡ r
          → IsGuarded (new_key os sk s).1
      checked (err e) h = ground arith
      checked (ok missing) h =
          let same : new_key os sk s ≡ after_private os sk made = rw (new_key, h) refl in
          let created = after_private_ok sk made keys (ap (λ x. x.0) (sym same) ∙ q) in
          subst (λ x. IsGuarded x.1) (sym same)
            (IsGuarded-Fixed made.1 (after_private os sk made).1
              (created-IsGuarded (os.encode sk) s links created) (after_private-Fixed sk made))

  opened-IsGuarded :
      (path : Text) (found : Node) (s : Files) (keys : Text × Key)
      → 39 ≤ os.max_links
      → follow os os.max_links sk_file s ≡ (path, found)
      → (opened os path found s).0 ≡ ok keys
      → IsGuarded (opened os path found s).1
  unfolding opened
  opened-IsGuarded path absent s keys links h q =
      new_key-IsGuarded (find_key os 300 0) s keys links q
  opened-IsGuarded path unreadable s keys links h q = ground arith
  opened-IsGuarded path (link target) s keys links h q = ground arith
  opened-IsGuarded path (file mode content) s keys links h q =
      elim (Bool-cases (os.can_open path)) [
        | inr a ↦ ground arith
        | inl a ↦
            let r = set_private_key_permissions os false path mode content s in
            let same : opened os path (file mode content) s ≡ read_key os path content r =
              rw (opened, a) refl in
            let private = read_key_ok path content r keys (ap (λ x. x.0) (sym same) ∙ q) in
            let guarded =
              Restricts-IsGuarded path content mode s r h
                (set_private_key_permissions-Restricts os false path content mode s) private in
            subst (λ x. IsGuarded x.1) (sym same)
              (IsGuarded-Fixed r.1 (read_key os path content r).1 guarded
                (read_key-Fixed os path content r))
      ]

  -- When gen_sk gives the keys, opening the private key finds a file whose permissions are the
  -- owner's to read and write at most, whether it was there or was created, where the system follows
  -- at least 39 links.
  pub gen_sk-IsGuarded :
      (s : Files) (keys : Text × Key)
      → 39 ≤ os.max_links
      → (gen_sk os s).0 ≡ ok keys
      → IsGuarded (gen_sk os s).1
  unfolding gen_sk
  gen_sk-IsGuarded s keys links q =
      let r = follow os os.max_links sk_file s in opened-IsGuarded r.0 r.1 s keys links refl q
