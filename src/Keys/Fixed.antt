-- ===== src/Keys/Fixed.antt =====
-- The files of src/common.rs that are only added: what was there before stays as it was.
use rustdesk_server.Prelude.{
  ◌≡◌, refl, ◌⊎◌, inl, inr, Bool, true, ◌&&◌, not, [], ℕ, ◌==◌, text_eq, nat_eq, list_beq_iff,
  Bool-cases, Option-cases,
}
use rustdesk_server.Prelude.Text.{Text}
use rustdesk_server.Prelude.Result.{Result, ok, err}
use rustdesk_server.Keys.{
  Node, absent, unreadable, link, file, Files, put, Outside, Failure, cannot_write,
  resolve_key_path, restrict, set_private_key_permissions, beyond_owner, withdrawn, fill, filled,
  create_new, create_private_key_file, dropped, private_key_file_mode, permission_bits,
}

abbrev pub Fixed : Files → Files → Type 0
Fixed s s' = (p : Text) → (s p ≡ absent) ⊎ (s' p ≡ s p)

pub Fixed_refl : (s : Files) → Fixed s s
Fixed_refl s = λ p. inr refl

module _ (s0 : Files) where
  pub put-Fixed :
      (path : Text) (n : Node) (s : Files) → s0 path ≡ absent → Fixed s0 s → Fixed s0 (put path n s)
  put-Fixed path n s h k = λ p. elim (Bool-cases (p == path)) [
    | inl e ↦ inl (rw ((list_beq_iff p path).0 e) h)
    | inr e ↦ rw e (k p)
  ]

  module _ {Key : Type 0} (os : Outside Key) where
    restrict-Fixed :
        (path content : Text) (mode : ℕ) (s : Files)
        → s0 path ≡ absent
        → Fixed s0 s
        → Fixed s0 (restrict os path mode content s).1
    unfolding restrict
    restrict-Fixed path content mode s h k =
        elim (Option-cases (os.chmod mode private_key_file_mode)) [
          | inl c ↦ rw (restrict, c) k
          | inr (m, c) ↦ rw (restrict, c) (put-Fixed path (file m content) s h k)
        ]

    set_private_key_permissions-Fixed :
        (newly : Bool) (path content : Text) (mode : ℕ) (s : Files)
        → s0 path ≡ absent
        → Fixed s0 s
        → Fixed s0 (set_private_key_permissions os newly path mode content s).1
    unfolding set_private_key_permissions
    set_private_key_permissions-Fixed newly path content mode s h k =
        let bits = permission_bits mode in
        elim (Bool-cases (not newly && beyond_owner bits == 0)) [
          | inl a ↦ rw a k
          | inr a ↦ rw a (elim (Bool-cases (newly && not (beyond_owner bits == 0))) [
            | inl b ↦ rw b k
            | inr b ↦ rw b (elim (Bool-cases (bits == private_key_file_mode)) [
              | inl c ↦ rw c k
              | inr c ↦ rw c (restrict-Fixed path content mode s h k)
            ])
          ])
        ]

    withdrawn-Fixed :
        (path : Text) (e : Failure) (s : Files)
        → s0 path ≡ absent
        → Fixed s0 s
        → Fixed s0 (withdrawn os path e s).1
    unfolding withdrawn
    withdrawn-Fixed path e s h k = elim (Bool-cases (os.can_remove path)) [
      | inl a ↦ rw a (put-Fixed path absent s h k)
      | inr a ↦ rw a k
    ]

    fill-Fixed :
        (path content : Text) (r : Result Failure (Unit {0}) × Files)
        → s0 path ≡ absent
        → Fixed s0 r.1
        → Fixed s0 (fill os path content r).1
    unfolding fill
    fill-Fixed path content (err e, s) h k = withdrawn-Fixed path e s h k
    fill-Fixed path content (ok u, s) h k = elim (Bool-cases (os.can_write path)) [
      | inl a ↦ rw a (put-Fixed path (filled (s path) content) s h k)
      | inr a ↦ rw a (withdrawn-Fixed path cannot_write s h k)
    ]

    pub dropped-Fixed :
        (path : Text) (s : Files) → s0 path ≡ absent → Fixed s0 s → Fixed s0 (dropped os path s)
    unfolding dropped
    dropped-Fixed path s h k = elim (Bool-cases (os.can_remove path)) [
      | inl a ↦ rw a (put-Fixed path absent s h k)
      | inr a ↦ rw a k
    ]

    create_new-Fixed : (path content : Text) → Fixed s0 (create_new os path content s0).1
    unfolding create_new
    create_new-Fixed path content = created (s0 path) refl
      where
        created : (n : Node) → s0 path ≡ n → Fixed s0 (create_new os path content s0).1
        created (file mode old) e = rw (create_new, e) (Fixed_refl s0)
        created unreadable e = rw (create_new, e) (Fixed_refl s0)
        created (link target) e = rw (create_new, e) (Fixed_refl s0)
        created absent e =
            rw (create_new, e)
              (elim (Bool-cases (os.can_create path)) [
                | inr a ↦ rw a (Fixed_refl s0)
                | inl a ↦ rw a (
                    let mode = os.created_mode private_key_file_mode in
                    let s = put path (file mode []) s0 in
                    let k = put-Fixed path (file mode []) s0 e (Fixed_refl s0) in
                    fill-Fixed path content (set_private_key_permissions os true path mode [] s) e
                      (set_private_key_permissions-Fixed true path [] mode s e k))
              ])

    pub create_private_key_file-Fixed :
        (path content : Text) → Fixed s0 (create_private_key_file os path content s0).1
    unfolding create_private_key_file
    create_private_key_file-Fixed path content = resolved (resolve_key_path os path s0) refl
      where
        resolved :
            (r : Result Failure Text)
            → resolve_key_path os path s0 ≡ r
            → Fixed s0 (create_private_key_file os path content s0).1
        resolved (err e) q = rw (create_private_key_file, q) (Fixed_refl s0)
        resolved (ok p) q = rw (create_private_key_file, q) (create_new-Fixed p content)
