-- ===== src/Keys/Publishing.antt =====
-- The publication of the public key, in src/common.rs.
use rustdesk_server.Prelude.{
  ◌≡◌, refl, inl, inr, Bool, not, Option, none, some, [], arith, text_eq, nat_eq, Bool-cases,
  Option-cases,
}
use rustdesk_server.Prelude.Text.{Text}
use rustdesk_server.Prelude.Result.{Result, ok, err}
use rustdesk_server.Keys.{
  Node, absent, unreadable, link, file, Files, put, Outside, Failure, resolve_key_path,
  missing_public_key_path, dropped, publish_public_key, publish_new, owner_mode, create_temporary,
  write_public_key,
}
use rustdesk_server.Keys.Fixed.{Fixed, Fixed_refl, put-Fixed, dropped-Fixed}

module _ {Key : Type 0} (os : Outside Key) where
  -- The place that a public key is missing from is free.
  missing_public_key_path_free :
      (path pk p : Text) (s : Files)
      → missing_public_key_path os path pk s ≡ ok (some p)
      → s p ≡ absent
  unfolding missing_public_key_path
  missing_public_key_path_free path pk p s h = resolved (resolve_key_path os path s) refl
    where
      found : (q : Text) → resolve_key_path os path s ≡ ok q → (n : Node) → s q ≡ n → s p ≡ absent
      found q r absent e = ground arith
      found q r unreadable e = ground arith
      found q r (link target) e = ground arith
      found q r (file mode content) e = ground arith

      resolved : (r : Result Failure Text) → resolve_key_path os path s ≡ r → s p ≡ absent
      resolved (err e) r = ground arith
      resolved (ok q) r = found q r (s q) refl

  module _ (s0 : Files) where
    publish_public_key-Fixed :
        (temporary path pk : Text) (s : Files)
        → s0 temporary ≡ absent
        → s0 path ≡ absent
        → Fixed s0 s
        → Fixed s0 (publish_public_key os temporary path pk s).1
    unfolding publish_public_key
    publish_public_key-Fixed temporary path pk s t h k = published (s path) refl
      where
        kept : Fixed s0 (dropped os temporary s)
        kept = dropped-Fixed s0 os temporary s t k

        published : (n : Node) → s path ≡ n → Fixed s0 (publish_public_key os temporary path pk s).1
        published unreadable e = rw (publish_public_key, e) kept
        published (link target) e = rw (publish_public_key, e) kept
        published (file mode content) e = rw (publish_public_key, e) kept
        published absent e =
            rw (publish_public_key, e)
              (elim (Bool-cases (os.can_rename path)) [
                | inr a ↦ rw a kept
                | inl a ↦ rw a (
                    put-Fixed s0 path (s temporary) (put temporary absent s) h
                      (put-Fixed s0 temporary absent s t k))
              ])

    publish_new-Fixed :
        (temporary path pk : Text)
        → s0 temporary ≡ absent
        → s0 path ≡ absent
        → Fixed s0 (publish_new os temporary path pk s0).1
    unfolding publish_new
    publish_new-Fixed temporary path pk t h =
        let new = os.created_mode 0o666 in
        let empty = put temporary (file new []) s0 in
        let kept = put-Fixed s0 temporary (file new []) s0 t (Fixed_refl s0) in
        let gone = dropped-Fixed s0 os temporary empty t kept in
        elim (Option-cases (owner_mode os new)) [
          | inl o ↦ rw (publish_new, o) gone
          | inr (mode, o) ↦
              rw (publish_new, o)
                (elim (Bool-cases (not (os.can_write temporary))) [
                  | inl a ↦ rw a gone
                  | inr a ↦ rw a (elim (Bool-cases (not (os.can_sync temporary))) [
                    | inl b ↦ rw b gone
                    | inr b ↦ rw b (
                        publish_public_key-Fixed temporary path pk (put temporary (file mode pk) s0)
                          t h (put-Fixed s0 temporary (file mode pk) s0 t (Fixed_refl s0)))
                  ])
                ])
        ]

    create_temporary-Fixed :
        (temporary path pk : Text) (required : Bool)
        → s0 path ≡ absent
        → Fixed s0 (create_temporary os temporary path pk required s0).1
    unfolding create_temporary
    create_temporary-Fixed temporary path pk required h = created (s0 temporary) refl
      where
        created :
            (n : Node)
            → s0 temporary ≡ n
            → Fixed s0 (create_temporary os temporary path pk required s0).1
        created unreadable e = rw (create_temporary, e) (Fixed_refl s0)
        created (link target) e = rw (create_temporary, e) (Fixed_refl s0)
        created (file mode content) e = rw (create_temporary, e) (Fixed_refl s0)
        created absent e =
            rw (create_temporary, e)
              (elim (Bool-cases (os.can_create temporary)) [
                | inr a ↦ rw a (Fixed_refl s0)
                | inl a ↦ rw a (publish_new-Fixed temporary path pk e h)
              ])

    pub write_public_key-Fixed :
        (path pk : Text) (required : Bool) → Fixed s0 (write_public_key os path pk required s0).1
    unfolding write_public_key
    write_public_key-Fixed path pk required = missing (missing_public_key_path os path pk s0) refl
      where
        missing :
            (r : Result Failure (Option Text))
            → missing_public_key_path os path pk s0 ≡ r
            → Fixed s0 (write_public_key os path pk required s0).1
        missing (err e) q = rw (write_public_key, q) (Fixed_refl s0)
        missing (ok none) q = rw (write_public_key, q) (Fixed_refl s0)
        missing (ok (some p)) q =
            rw (write_public_key, q)
              (create_temporary-Fixed (os.beside p) p pk required
                (missing_public_key_path_free path pk p s0 q))
