-- ===== src/GeoUpdate/Safety.antt =====
-- What src/geo_update.rs leaves in the place of the database.
use rustdesk_server.Prelude.{
  ℕ, ◌≤◌, ◌≡◌, ◌≢◌, refl, ◌∙◌, ◌⊎◌, inl, inr, true, false, ◌&&◌, ◌||◌, not, Option, some, List, [],
  ◌∷◌, ◌++◌, arith, ltb, leb, ◌==◌, text_eq, nat_eq, length, Bool-cases,
}
use rustdesk_server.Prelude.Text.{Text, text}
use rustdesk_server.Prelude.Result.{Result, ok, err}
use rustdesk_server.Disk.{Disk, write, rename_file}
use rustdesk_server.GeoUpdate.{
  Stream, Response, no_answer, on_response, updated, answer, Outside, Options, Outcome, Fetched,
  installed_month, not_published, Failure, http_status, no_reply, too_large, not_recorded,
  cannot_write, broken_download, not_a_city_database, cannot_replace, capped, concat, tmp_path,
  failed, unpacked, replace, download, fetch_month, recorded, try_months, update, installed, label,
  version_path, url_of, has_already, is_too_large, previous,
}
use rustdesk_server.GeoUpdate.Paths.{
  capped_pieces_bound, longer, write-other, remove-other, write_self, rename-to, rename_failed,
}

module _ (net : Outside) where
  -- A database that was checked, and is no larger than the limit.
  pub record IsChecked (o : Options) (file : Option Text) : Type 0 where
    pub content : Text
    pub found : file ≡ some content
    pub valid : net.validate_city content o.min_nodes ≡ true
    pub bounded : length content ≤ o.max_unpacked_bytes

  -- What a fetch gives: an error or nothing new, and the old file; or a new file that is checked.
  Fetches : Options → Disk → Result Failure Fetched × Disk → Type 0
  Fetches o d (r, d') =
      ((r ≢ ok installed_month) × (d'.contents o.out ≡ d.contents o.out))
      ⊎ ((r ≡ ok installed_month) × IsChecked o (d'.contents o.out))

  tmp_elsewhere : (o : Options) → (o.out == tmp_path net o) ≡ false
  unfolding tmp_path
  tmp_elsewhere o = longer o.out (text "." ++ net.process_id ++ text ".tmp") refl

  failed-Fetches :
      (o : Options) (e : Failure) (d d' : Disk)
      → d'.contents o.out ≡ d.contents o.out
      → Fetches o d (failed net o e d')
  unfolding failed Fetches
  failed-Fetches o e d d' h =
      inl ((λ q. ground (arith, q)), remove-other (tmp_path net o) o.out d' (tmp_elsewhere o) ∙ h)

  replace-Fetches :
      (o : Options) (content : Text) (d d' : Disk)
      → d'.contents o.out ≡ d.contents o.out
      → d'.contents (tmp_path net o) ≡ some content
      → length content ≤ o.max_unpacked_bytes
      → Fetches o d (replace net o content d')
  unfolding replace Fetches
  replace-Fetches o content d d' h t l = elim (Bool-cases (net.validate_city content o.min_nodes)) [
    | inr v ↦ rw v (failed-Fetches o not_a_city_database d d' h)
    | inl v ↦ rw v (elim (Bool-cases (rename_file (tmp_path net o) o.out d').0) [
      | inr r ↦
          let same = rename_failed (tmp_path net o) o.out d' r in
          rw (r, same) (failed-Fetches o cannot_replace d d' h)
      | inl r ↦ rw r (
          inr (
            refl,
            record {
              content = content;
              found = rename-to (tmp_path net o) o.out content d' t r;
              valid = v;
              bounded = l;
            },
          ))
    ])
  ]

  unpacked_bound :
      (o : Options) (body : Stream)
      → length (concat (unpacked net o body).pieces) ≤ o.max_unpacked_bytes
  unfolding unpacked
  unpacked_bound o body =
      let s = net.gunzip (capped o.max_download_bytes body) in
      capped_pieces_bound o.max_unpacked_bytes s.pieces s.broken

  download-Fetches : (o : Options) (body : Stream) (d : Disk) → Fetches o d (download net o body d)
  unfolding download
  download-Fetches o body d =
      let s = unpacked net o body in
      let content = concat s.pieces in
      let kept = write-other (tmp_path net o) content o.out d (tmp_elsewhere o) in
      let d' = (write (tmp_path net o) content d).1 in
      elim (Bool-cases (write (tmp_path net o) content d).0) [
        | inr w ↦ rw w (failed-Fetches o cannot_write d d' kept)
        | inl w ↦ rw w (elim (Bool-cases (s.broken || not (net.saved content))) [
          | inl b ↦ rw b (failed-Fetches o broken_download d d' kept)
          | inr b ↦ rw b (
              replace-Fetches o content d d' kept (write_self (tmp_path net o) content d w)
                (unpacked_bound o body))
        ])
      ]

  -- Why nothing is downloaded of a month, if so.
  not_fetched-Fetches :
      (o : Options) (d : Disk) (r : Result Failure Fetched)
      → r ≢ ok installed_month
      → Fetches o d (r, d)
  unfolding Fetches
  not_fetched-Fetches o d r h = inl (h, refl)

  on_response-Fetches :
      (o : Options) (reply : Response) (d : Disk) → Fetches o d (on_response net o reply d)
  unfolding on_response
  on_response-Fetches o no_answer d =
      not_fetched-Fetches o d (err no_reply) (λ q. ground (arith, q))
  on_response-Fetches o (answer status len body) d = elim (Bool-cases (status == 404)) [
    | inl a ↦ rw a (not_fetched-Fetches o d (ok not_published) (λ q. ground (arith, q)))
    | inr a ↦ rw a (elim (Bool-cases (not (leb 200 status && ltb status 300))) [
      | inl b ↦ rw b (not_fetched-Fetches o d (err (http_status status)) (λ q. ground (arith, q)))
      | inr b ↦ rw b (elim (Bool-cases (is_too_large net len o.max_download_bytes)) [
        | inl c ↦ rw c (
            not_fetched-Fetches o d (err (too_large o.max_download_bytes)) (λ q. ground (arith, q)))
        | inr c ↦ rw c (download-Fetches o body d)
      ])
    ])
  ]

  fetch_month-Fetches :
      (o : Options) (month : Text) (d : Disk) → Fetches o d (fetch_month net o month d)
  unfolding fetch_month
  fetch_month-Fetches o month d = on_response-Fetches o (net.get (url_of o month)) d

  -- What an update gives: the old file; or a new one that is checked, and its month, unless that could
  -- not be recorded.
  pub Leaves : Options → Disk → Result Failure Outcome × Disk → Type 0
  Leaves o d (r, d') =
      (d'.contents o.out ≡ d.contents o.out)
      ⊎ ((m : Text) × ((r ≡ ok (updated m)) ⊎ (r ≡ err (not_recorded m)))
          × IsChecked o (d'.contents o.out))

  version_elsewhere : (o : Options) → (o.out == version_path o.out) ≡ false
  unfolding version_path
  version_elsewhere o = longer o.out (text ".version") refl

  recorded-Leaves :
      (o : Options) (cand : Text) (d : Disk) (f : Result Failure Fetched × Disk)
      (next : Disk → Result Failure Outcome × Disk)
      → Fetches o d f
      → ((d1 : Disk) → d1.contents o.out ≡ d.contents o.out → Leaves o d (next d1))
      → Leaves o d (recorded net o cand f next)
  unfolding recorded Fetches Leaves
  recorded-Leaves o cand d (err e, d1) next (inl (q, same)) h = inl same
  recorded-Leaves o cand d (err e, d1) next (inr (q, new)) h = ground (arith, q)
  recorded-Leaves o cand d (ok not_published, d1) next (inl (q, same)) h = h d1 same
  recorded-Leaves o cand d (ok not_published, d1) next (inr (q, new)) h = ground (arith, q)
  recorded-Leaves o cand d (ok installed_month, d1) next (inl (q, same)) h = absurd (q refl)
  recorded-Leaves o cand d (ok installed_month, d1) next (inr (q, new)) h =
      let path = version_path o.out in
      let content = cand ++ 10 ∷ [] in
      let kept = write-other path content o.out d1 (version_elsewhere o) in
      let new' : IsChecked o ((write path content d1).1.contents o.out) = rw (kept) new in
      elim (Bool-cases (write path content d1).0) [
        | inl w ↦ inr (cand, inl (rw (w) refl), new')
        | inr w ↦ inr (cand, inr (rw (w) refl), new')
      ]

  since :
      (o : Options) (d d1 : Disk) (r : Result Failure Outcome × Disk)
      → d1.contents o.out ≡ d.contents o.out
      → Leaves o d1 r
      → Leaves o d r
  unfolding Leaves
  since o d d1 r same (inl e) = inl (e ∙ same)
  since o d d1 r same (inr new) = inr new

  try_months-Leaves :
      (o : Options) (have : Option Text) (months : List (ℕ × ℕ)) (d d1 : Disk)
      → d1.contents o.out ≡ d.contents o.out
      → Leaves o d (try_months net o have months d1)
  unfolding try_months Leaves
  try_months-Leaves o have [] d d1 same = inl same
  try_months-Leaves o have (month ∷ months) d d1 same =
      elim (Bool-cases (has_already net o have (label month))) [
        | inl a ↦ rw (try_months, a) (inl same)
        | inr a ↦
            rw (try_months, a)
              (since o d d1
                (recorded net o (label month) (fetch_month net o (label month) d1)
                  (try_months net o have months))
                same
                (recorded-Leaves o (label month) d1 (fetch_month net o (label month) d1)
                  (try_months net o have months) (fetch_month-Fetches o (label month) d1)
                  (λ d2 s2. try_months-Leaves o have months d1 d2 s2)))
      ]

  -- Whatever an update meets, it leaves the database file as it was, or puts in its place one that
  -- validate_city has accepted and that is no larger than the limit; the latter only if it reports the
  -- month as installed, or that it could not record it.
  pub update-Leaves : (o : Options) (d : Disk) → Leaves o d (update net o d)
  unfolding update
  update-Leaves o d = try_months-Leaves o (installed o.out d) (o.now ∷ previous o.now ∷ []) d d refl
