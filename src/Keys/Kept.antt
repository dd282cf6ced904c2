-- ===== src/Keys/Kept.antt =====
-- What src/common.rs does to the files that are there when it looks for the keys.
use rustdesk_server.Prelude.{
  ℕ, zero, suc, ◌≡◌, ◌≢◌, refl, sym, ap, ◌∙◌, inl, inr, Bool, true, false, ◌&&◌, not, Option, arith,
  ◌==◌, text_eq, nat_eq, list_beq_iff, Bool-cases, Option-cases, ◌⊎◌,
}
use rustdesk_server.Prelude.Text.{Text, trim}
use rustdesk_server.Prelude.Result.{Result, ok, err}
use rustdesk_server.Keys.Fixed.{Fixed, Fixed_refl, create_private_key_file-Fixed}
use rustdesk_server.Keys.Publishing.{write_public_key-Fixed}
use rustdesk_server.Keys.{
  Node, absent, unreadable, link, file, Files, put, Outside, Failure, follow, restrict, published,
  after_private, set_private_key_permissions, beyond_owner, opened, create_private_key_file,
  missing_public_key_path, write_public_key, read_key, new_key, gen_sk, private_key_file_mode,
  permission_bits, find_key, pub_file, sk_file,
}

-- What was there is there; of a file the mode alone may be another.
abbrev pub Stays : Node → Node → Type 0
Stays absent n = Unit
Stays unreadable n = n ≡ unreadable
Stays (link target) n = n ≡ link target
Stays (file mode content) n = (m : ℕ) × (n ≡ file m content)

pub Keeps : Files → Files → Type 0
Keeps s s' = (p : Text) → Stays (s p) (s' p)

Stays-refl : (n : Node) → Stays n n
Stays-refl absent = tt
Stays-refl unreadable = refl
Stays-refl (link target) = refl
Stays-refl (file mode content) = (mode, refl)

pub Keeps-refl : (s : Files) → Keeps s s
unfolding Keeps
Keeps-refl s = λ p. Stays-refl (s p)

file_there : (mode : ℕ) (content : Text) (a : Node) → Stays (file mode content) a → a ≢ absent
file_there mode content a (m, h) = λ e. ground arith

Stays-Fixed : (n a b : Node) → Stays n a → (a ≡ absent) ⊎ (b ≡ a) → Stays n b
Stays-Fixed n a b h (inr e) = rw e h
Stays-Fixed absent a b h (inl e) = tt
Stays-Fixed unreadable a b h (inl e) = ground arith
Stays-Fixed (link target) a b h (inl e) = ground arith
Stays-Fixed (file mode content) a b h (inl e) = absurd (file_there mode content a h e)

Keeps-Fixed : (s s1 s2 : Files) → Keeps s s1 → Fixed s1 s2 → Keeps s s2
unfolding Keeps
Keeps-Fixed s s1 s2 k f = λ p. Stays-Fixed (s p) (s1 p) (s2 p) (k p) (f p)

Fixed_trans : (s s1 s2 : Files) → Fixed s s1 → Fixed s1 s2 → Fixed s s2
Fixed_trans s s1 s2 f g = λ p. elim (f p) [
  | inl e ↦ inl e
  | inr e ↦ elim (g p) [ inl d ↦ inl (sym e ∙ d) | inr d ↦ inr (d ∙ e) ]
]

put-Keeps :
    (path content : Text) (mode m : ℕ) (s : Files)
    → s path ≡ file mode content
    → Keeps s (put path (file m content) s)
unfolding Keeps
put-Keeps path content mode m s h = λ p. elim (Bool-cases (p == path)) [
  | inl e ↦ rw (e, (list_beq_iff p path).0 e, h) (m, refl)
  | inr e ↦ rw e (Stays-refl (s p))
]

module _ {Key : Type 0} (os : Outside Key) where
  follow_found_at :
      (n : ℕ) (path : Text) (s : Files) (a : Node)
      → s path ≡ a
      → ((follow os n path s).1 ≡ unreadable) ⊎ (s (follow os n path s).0 ≡ (follow os n path s).1)
  unfolding follow
  follow_found_at zero path s absent e = rw (follow, e) (inr e)
  follow_found_at zero path s unreadable e = rw (follow, e) (inl refl)
  follow_found_at zero path s (link target) e = rw (follow, e) (inl refl)
  follow_found_at zero path s (file mode content) e = rw (follow, e) (inr e)
  follow_found_at (suc n) path s absent e = rw (follow, e) (inr e)
  follow_found_at (suc n) path s unreadable e = rw (follow, e) (inl refl)
  follow_found_at (suc n) path s (link target) e =
      let next = os.join path target in rw (follow, e) (follow_found_at n next s (s next) refl)
  follow_found_at (suc n) path s (file mode content) e = rw (follow, e) (inr e)

  -- A file that is found stands at the path that was reached.
  pub follow_found :
      (n : ℕ) (path p content : Text) (mode : ℕ) (s : Files)
      → follow os n path s ≡ (p, file mode content)
      → s p ≡ file mode content
  follow_found n path p content mode s h = elim (follow_found_at n path s (s path) refl) [
    | inl e ↦ absurd (ground (arith, h, e))
    | inr e ↦ sym (ap s (ap (λ r. r.0) h)) ∙ (e ∙ ap (λ r. r.1) h)
  ]

  restrict-Keeps :
      (path content : Text) (mode : ℕ) (s : Files)
      → s path ≡ file mode content
      → Keeps s (restrict os path mode content s).1
  unfolding restrict
  restrict-Keeps path content mode s h = elim (Option-cases (os.chmod mode private_key_file_mode)) [
    | inl c ↦ rw (restrict, c) (Keeps-refl s)
    | inr (m, c) ↦ rw (restrict, c) (put-Keeps path content mode m s h)
  ]

  pub set_private_key_permissions-Keeps :
      (newly : Bool) (path content : Text) (mode : ℕ) (s : Files)
      → s path ≡ file mode content
      → Keeps s (set_private_key_permissions os newly path mode content s).1
  unfolding set_private_key_permissions
  set_private_key_permissions-Keeps newly path content mode s h =
      let bits = permission_bits mode in
      elim (Bool-cases (not newly && beyond_owner bits == 0)) [
        | inl a ↦ rw a (Keeps-refl s)
        | inr a ↦ rw a (elim (Bool-cases (newly && not (beyond_owner bits == 0))) [
          | inl b ↦ rw b (Keeps-refl s)
          | inr b ↦ rw b (elim (Bool-cases (bits == private_key_file_mode)) [
            | inl c ↦ rw c (Keeps-refl s)
            | inr c ↦ rw c (restrict-Keeps path content mode s h)
          ])
        ])
      ]

  published_files : (sk : Key) (r : Result Failure (Unit {0}) × Files) → (published os sk r).1 ≡ r.1
  published_files sk (err e, s) = refl
  published_files sk (ok u, s) = refl

  pub published-Fixed :
      (sk : Key) (path : Text) (required : Bool) (s : Files)
      → Fixed s (published os sk (write_public_key os path (os.encode_public sk) required s)).1
  published-Fixed sk path required s =
      let pk = os.encode_public sk in
      rw (published_files sk (write_public_key os path pk required s))
        (write_public_key-Fixed os s path pk required)

  after_private-Fixed :
      (sk : Key) (s : Files) (r : Result Failure (Unit {0}) × Files)
      → Fixed s r.1
      → Fixed s (after_private os sk r).1
  unfolding after_private
  after_private-Fixed sk s (err e, s1) k = k
  after_private-Fixed sk s (ok u, s1) k =
      let r = published os sk (write_public_key os pub_file (os.encode_public sk) true s1) in
      Fixed_trans s s1 r.1 k (published-Fixed sk pub_file true s1)

  new_key-Fixed : (sk : Key) (s : Files) → Fixed s (new_key os sk s).1
  unfolding new_key
  new_key-Fixed sk s = checked (missing_public_key_path os pub_file (os.encode_public sk) s) refl
    where
      made : Result Failure (Unit {0}) × Files
      made = create_private_key_file os sk_file (os.encode sk) s

      there : Fixed s made.1
      there = create_private_key_file-Fixed s os sk_file (os.encode sk)

      checked :
          (r : Result Failure (Option Text))
          → missing_public_key_path os pub_file (os.encode_public sk) s ≡ r
          → Fixed s (new_key os sk s).1
      checked (err e) q = rw (new_key, q) (Fixed_refl s)
      checked (ok missing) q = rw (new_key, q) (after_private-Fixed sk s made there)

  pub read_key-Fixed :
      (path content : Text) (r : Result Failure (Unit {0}) × Files)
      → Fixed r.1 (read_key os path content r).1
  unfolding read_key
  read_key-Fixed path content (err e, s) = Fixed_refl s
  read_key-Fixed path content (ok u, s) = elim (Bool-cases (os.can_read path)) [
    | inr a ↦ rw a (Fixed_refl s)
    | inl a ↦ rw a (elim (Option-cases (os.decode (trim content))) [
      | inl b ↦ rw (read_key, b) (Fixed_refl s)
      | inr (sk, b) ↦ rw (read_key, b) (published-Fixed sk pub_file false s)
    ])
  ]

  opened-Keeps :
      (path : Text) (found : Node) (s : Files)
      → (found ≡ unreadable) ⊎ (s path ≡ found)
      → Keeps s (opened os path found s).1
  unfolding opened
  opened-Keeps path absent s h =
      let sk = find_key os 300 0 in
      Keeps-Fixed s s (new_key os sk s).1 (Keeps-refl s) (new_key-Fixed sk s)
  opened-Keeps path unreadable s h = Keeps-refl s
  opened-Keeps path (link target) s h = Keeps-refl s
  opened-Keeps path (file mode content) s (inl e) = ground arith
  opened-Keeps path (file mode content) s (inr e) = elim (Bool-cases (os.can_open path)) [
    | inr a ↦ rw a (Keeps-refl s)
    | inl a ↦ rw a (
        let r = set_private_key_permissions os false path mode content s in
        Keeps-Fixed s r.1 (read_key os path content r).1
          (set_private_key_permissions-Keeps false path content mode s e)
          (read_key-Fixed path content r))
  ]

  -- Whatever gen_sk meets, and also when it fails, every file that was there is there with the same
  -- content, and every link with the same target.
  pub gen_sk-Keeps : (s : Files) → Keeps s (gen_sk os s).1
  unfolding gen_sk
  gen_sk-Keeps s =
      let r = follow os os.max_links sk_file s in
      opened-Keeps r.0 r.1 s (follow_found_at os.max_links sk_file s (s sk_file) refl)
