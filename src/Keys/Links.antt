-- ===== src/Keys/Links.antt =====
-- The links that src/common.rs follows to the key files.
use rustdesk_server.Prelude.{
  ◌≡◌, ◌≤◌, ◌∙◌, refl, sym, ap, inl, inr, arith, ℕ, zero, suc, ◌==◌, text_eq, nat_eq, list_beq_iff,
  Bool-cases,
}
use rustdesk_server.Prelude.Text.{Text}
use rustdesk_server.Prelude.Result.{ok}
use rustdesk_server.Keys.{
  Node, absent, unreadable, link, file, Files, put, Outside, resolve, follow,
}
use rustdesk_server.Keys.Fixed.{Fixed}

module _ {Key : Type 0} (os : Outside Key) where
  stays_link :
      (s s' : Files) (path target : Text)
      → Fixed s s'
      → s path ≡ link target
      → s' path ≡ link target
  stays_link s s' path target f e = elim (f path) [ inl a ↦ ground (arith, a, e) | inr a ↦ a ∙ e ]

  pub stays_file :
      (s s' : Files) (path content : Text) (mode : ℕ)
      → Fixed s s'
      → s path ≡ file mode content
      → s' path ≡ file mode content
  stays_file s s' path content mode f e = elim (f path) [
    | inl a ↦ ground (arith, a, e)
    | inr a ↦ a ∙ e
  ]

  follow_here :
      (k : ℕ) (path content : Text) (mode : ℕ) (s : Files)
      → s path ≡ file mode content
      → follow os k path s ≡ (path, file mode content)
  unfolding follow
  follow_here zero path content mode s e = rw (follow, e) refl
  follow_here (suc k) path content mode s e = rw (follow, e) refl

  -- The way to a file that is found is the same when files are added.
  pub follow-Fixed :
      (n : ℕ) (path p content : Text) (mode : ℕ) (s s' : Files) (a : Node)
      → s path ≡ a
      → Fixed s s'
      → follow os n path s ≡ (p, file mode content)
      → follow os n path s' ≡ (p, file mode content)
  unfolding follow
  follow-Fixed zero path p content mode s s' absent e f h = ground arith
  follow-Fixed zero path p content mode s s' unreadable e f h = ground arith
  follow-Fixed zero path p content mode s s' (link target) e f h = ground arith
  follow-Fixed zero path p content mode s s' (file m c) e f h =
      let there = stays_file s s' path c m f e in ground (arith, there)
  follow-Fixed (suc n) path p content mode s s' absent e f h = ground arith
  follow-Fixed (suc n) path p content mode s s' unreadable e f h = ground arith
  follow-Fixed (suc n) path p content mode s s' (link target) e f h =
      let there = stays_link s s' path target f e in
      let next = os.join path target in
      let h' : follow os n next s ≡ (p, file mode content) = ground arith in
      rw (follow, there) (follow-Fixed n next p content mode s s' (s next) refl f h')
  follow-Fixed (suc n) path p content mode s s' (file m c) e f h =
      let there = stays_file s s' path c m f e in ground (arith, there)

  -- A free place that the links lead to is found when a file is put there.
  pub follow-resolve :
      (n k : ℕ) (path p content : Text) (mode : ℕ) (s s' : Files) (a : Node)
      → s path ≡ a
      → Fixed s s'
      → resolve os (suc n) path s ≡ ok p
      → s p ≡ absent
      → s' p ≡ file mode content
      → n ≤ k
      → follow os k path s' ≡ (p, file mode content)
  unfolding follow resolve
  follow-resolve n k path p content mode s s' absent e f h free there l =
      let here : p ≡ path = ground arith in
      rw here (follow_here k path content mode s' (sym (ap s' here) ∙ there))
  follow-resolve n k path p content mode s s' unreadable e f h free there l = ground arith
  follow-resolve n k path p content mode s s' (file m c) e f h free there l = ground arith
  follow-resolve zero k path p content mode s s' (link target) e f h free there l = ground arith
  follow-resolve (suc n) zero path p content mode s s' (link target) e f h free there l =
      absurd (omega arith)
  follow-resolve (suc n) (suc k) path p content mode s s' (link target) e f h free there l =
      let leads = stays_link s s' path target f e in
      let next = os.join path target in
      let h' : resolve os (suc n) next s ≡ ok p = ground arith in
      rw (follow, leads)
        (follow-resolve n k next p content mode s s' (s next) refl f h' free there (omega arith))

  put_link :
      (s : Files) (path p content target : Text) (m mode : ℕ)
      → s p ≡ file m content
      → s path ≡ link target
      → put p (file mode content) s path ≡ link target
  put_link s path p content target m mode h e = elim (Bool-cases (path == p)) [
    | inl a ↦
        absurd
          (let same : s path ≡ s p = ap s ((list_beq_iff path p).0 a) in ground (arith, same, h, e))
    | inr a ↦ rw a e
  ]

  pub put_self : (s : Files) (p : Text) (n : Node) → put p n s p ≡ n
  put_self s p n = rw ((list_beq_iff p p).1 refl) refl

  -- The way to a file is the same when its mode changes.
  pub follow-put :
      (n : ℕ) (path p content : Text) (m mode : ℕ) (s : Files) (a : Node)
      → s path ≡ a
      → s p ≡ file m content
      → follow os n path s ≡ (p, file m content)
      → follow os n path (put p (file mode content) s) ≡ (p, file mode content)
  unfolding follow
  follow-put zero path p content m mode s absent e h q = ground arith
  follow-put zero path p content m mode s unreadable e h q = ground arith
  follow-put zero path p content m mode s (link target) e h q = ground arith
  follow-put zero path p content m mode s (file m1 c) e h q =
      let here : p ≡ path = ground arith in
      rw here (
        follow_here zero path content mode (put path (file mode content) s)
          (put_self s path (file mode content)))
  follow-put (suc n) path p content m mode s absent e h q = ground arith
  follow-put (suc n) path p content m mode s unreadable e h q = ground arith
  follow-put (suc n) path p content m mode s (link target) e h q =
      let leads = put_link s path p content target m mode h e in
      let next = os.join path target in
      let q' : follow os n next s ≡ (p, file m content) = ground arith in
      rw (follow, leads) (follow-put n next p content m mode s (s next) refl h q')
  follow-put (suc n) path p content m mode s (file m1 c) e h q =
      let here : p ≡ path = ground arith in
      rw here (
        follow_here (suc n) path content mode (put path (file mode content) s)
          (put_self s path (file mode content)))
