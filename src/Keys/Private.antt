-- ===== src/Keys/Private.antt =====
-- The mode of the private key of src/common.rs.
use rustdesk_server.Prelude.{
  ◌≡◌, ◌≢◌, ◌∙◌, refl, sym, ap, subst, ◌⊎◌, inl, inr, Bool, true, ◌&&◌, not, [], arith, ℕ, ◌==◌,
  text_eq, nat_eq, Bool-cases, Option-cases,
}
use rustdesk_server.Prelude.Text.{Text}
use rustdesk_server.Prelude.Result.{Result, ok, err}
use rustdesk_server.Keys.{
  Node, absent, unreadable, link, file, Files, put, Outside, Failure, resolve_key_path, restrict,
  set_private_key_permissions, beyond_owner, permission_bits, private_key_file_mode, fill,
  withdrawn, create_new, create_private_key_file, filled, cannot_write,
}
use rustdesk_server.Keys.Links.{put_self}

pub IsPrivate : ℕ → Type 0
IsPrivate mode = beyond_owner (permission_bits mode) ≡ 0

-- The file of a path has the content, and no permissions but the owner's to read and write.
unfoldable pub Guards : Files → Text → Text → Type 0
Guards s path content = (m : ℕ) × (s path ≡ file m content) × IsPrivate m

owner_only : (bits : ℕ) → (bits == private_key_file_mode) ≡ true → beyond_owner bits ≡ 0
unfolding beyond_owner
owner_only bits h = let same : bits ≡ 384 = ground arith in omega (arith, same)

module _ {Key : Type 0} (os : Outside Key) where
  -- What a change of the mode that succeeds gives.
  unfoldable pub Restricts : Text → Text → ℕ → Files → Result Failure (Unit {0}) × Files → Type 0
  Restricts path content mode s (err e, s') = Unit
  Restricts path content mode s (ok u, s') =
      (m : ℕ) × IsPrivate m × (((s' ≡ s) × (m ≡ mode)) ⊎ (s' ≡ put path (file m content) s))

  restrict-Restricts :
      (path content : Text) (mode : ℕ) (s : Files)
      → Restricts path content mode s (restrict os path mode content s)
  unfolding restrict Restricts IsPrivate beyond_owner
  restrict-Restricts path content mode s =
      elim (Option-cases (os.chmod mode private_key_file_mode)) [
        | inl c ↦ rw (restrict, c) tt
        | inr (m, c) ↦
            rw (restrict, c)
              (elim (Bool-cases (permission_bits m == private_key_file_mode)) [
                | inl a ↦ rw a (m, owner_only (permission_bits m) a, inr refl)
                | inr a ↦ rw a tt
              ])
      ]

  pub set_private_key_permissions-Restricts :
      (newly : Bool) (path content : Text) (mode : ℕ) (s : Files)
      → Restricts path content mode s (set_private_key_permissions os newly path mode content s)
  unfolding set_private_key_permissions Restricts IsPrivate
  set_private_key_permissions-Restricts newly path content mode s =
      let bits = permission_bits mode in
      elim (Bool-cases (not newly && beyond_owner bits == 0)) [
        | inl a ↦ rw a (mode, ground arith, inl (refl, refl))
        | inr a ↦ rw a (elim (Bool-cases (newly && not (beyond_owner bits == 0))) [
          | inl b ↦ rw b tt
          | inr b ↦ rw b (elim (Bool-cases (bits == private_key_file_mode)) [
            | inl c ↦ rw c (mode, owner_only bits c, inl (refl, refl))
            | inr c ↦ rw c (restrict-Restricts path content mode s)
          ])
        ])
      ]

  Restricts-Guards :
      (path content : Text) (mode : ℕ) (s : Files) (r : Result Failure (Unit {0}) × Files)
      → s path ≡ file mode content
      → Restricts path content mode s r
      → r.0 ≡ ok tt
      → Guards r.1 path content
  unfolding Restricts Guards
  Restricts-Guards path content mode s (err e, s') h k q = ground (arith, q)
  Restricts-Guards path content mode s (ok u, s') h (m, p, inl (same, e)) q =
      (m, ap (λ f. f path) same ∙ (h ∙ ap (λ n. file n content) (sym e)), p)
  Restricts-Guards path content mode s (ok u, s') h (m, p, inr same) q =
      (m, ap (λ f. f path) same ∙ put_self os s path (file m content), p)

  withdrawn_fails : (path : Text) (e : Failure) (s : Files) → (withdrawn os path e s).0 ≢ ok tt
  unfolding withdrawn
  withdrawn_fails path e s = λ q. ground arith

  fill-Guards :
      (path content old : Text) (r : Result Failure (Unit {0}) × Files)
      → (r.0 ≡ ok tt → Guards r.1 path old)
      → (fill os path content r).0 ≡ ok tt
      → Guards (fill os path content r).1 path content
  unfolding fill Guards
  fill-Guards path content old (err e, s) k q = absurd (withdrawn_fails path e s q)
  fill-Guards path content old (ok u, s) k q = elim (Bool-cases (os.can_write path)) [
    | inr a ↦ absurd (
        let same : fill os path content (ok u, s) ≡ withdrawn os path cannot_write s =
          rw (fill, a) refl in
        withdrawn_fails path cannot_write s (ap (λ r. r.0) (sym same) ∙ q))
    | inl a ↦ rw a (
        let (m, e, p) = k refl in
        (m, put_self os s path (filled (s path) content) ∙ ap (λ n. filled n content) e, p))
  ]

  create_new-Guards :
      (path content : Text) (s : Files) (a : Node)
      → s path ≡ a
      → (create_new os path content s).0 ≡ ok tt
      → (a ≡ absent) × Guards (create_new os path content s).1 path content
  unfolding create_new
  create_new-Guards path content s unreadable e q = ground arith
  create_new-Guards path content s (link target) e q = ground arith
  create_new-Guards path content s (file mode old) e q = ground arith
  create_new-Guards path content s absent e q = elim (Bool-cases (os.can_create path)) [
    | inr a ↦ ground arith
    | inl a ↦
        let mode = os.created_mode private_key_file_mode in
        let s1 = put path (file mode []) s in
        let r = set_private_key_permissions os true path mode [] s1 in
        let same : create_new os path content s ≡ fill os path content r =
          rw (create_new, e, a) refl in
        let made =
          Restricts-Guards path [] mode s1 r (put_self os s path (file mode []))
            (set_private_key_permissions-Restricts true path [] mode s1) in
        (
          refl,
          subst (λ x. Guards x.1 path content) (sym same)
              (fill-Guards path content [] r made (ap (λ x. x.0) (sym same) ∙ q)),
        )
  ]

  pub create_private_key_file-Guards :
      (path content : Text) (s : Files)
      → (create_private_key_file os path content s).0 ≡ ok tt
      → (p : Text) × (resolve_key_path os path s ≡ ok p)
        × (s p ≡ absent)
        × Guards (create_private_key_file os path content s).1 p content
  unfolding create_private_key_file
  create_private_key_file-Guards path content s q = made (resolve_key_path os path s) refl
    where
      made :
          (r : Result Failure Text)
          → resolve_key_path os path s ≡ r
          → (p : Text) × (resolve_key_path os path s ≡ ok p)
            × (s p ≡ absent)
            × Guards (create_private_key_file os path content s).1 p content
      made (err e) h = ground arith
      made (ok p) h =
          let same : create_private_key_file os path content s ≡ create_new os p content s =
            rw (create_private_key_file, h) refl in
          let (free, new) =
            create_new-Guards p content s (s p) refl (ap (λ x. x.0) (sym same) ∙ q) in
          (p, h, free, subst (λ x. Guards x.1 p content) (sym same) new)
