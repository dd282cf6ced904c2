-- ===== src/GeoUpdate/Newer.antt =====
-- Which months src/geo_update.rs installs.
use rustdesk_server.Prelude.{
  ℕ, ◌≡◌, subst, ◌⊎◌, inl, inr, false, some, List, [], ◌∷◌, arith, Bool-cases,
}
use rustdesk_server.Prelude.Text.{Text}
use rustdesk_server.Prelude.Result.{Result, ok, err}
use rustdesk_server.Disk.{Disk}
use rustdesk_server.GeoUpdate.{
  Outside, Options, Outcome, updated, Fetched, installed_month, not_published, Failure, label,
  text_le, previous, installed, fetch_month, has_already, up_to_date_with, recorded, try_months,
  update,
}

module _ (net : Outside) where
  recorded_month :
      (o : Options) (cand m : Text) (f : Result Failure Fetched × Disk)
      (next : Disk → Result Failure Outcome × Disk)
      → (recorded net o cand f next).0 ≡ ok (updated m)
      → (m ≡ cand) ⊎ ((d1 : Disk) × ((next d1).0 ≡ ok (updated m)))
  unfolding recorded
  recorded_month o cand m (err e, d) next h = ground (arith, h)
  recorded_month o cand m (ok not_published, d) next h = inr (d, h)
  recorded_month o cand m (ok installed_month, d) next h = ground (arith, h)

  try_months-newer :
      (o : Options) (h m : Text) (months : List (ℕ × ℕ)) (d : Disk)
      → o.force ≡ false
      → (try_months net o (some h) months d).0 ≡ ok (updated m)
      → text_le m h ≡ false
  unfolding try_months up_to_date_with
  try_months-newer o h m [] d f e = ground (arith, e)
  try_months-newer o h m (month ∷ months) d f e =
      elim (Bool-cases (has_already net o (some h) (label month))) [
        | inl a ↦ ground (arith, a, e)
        | inr a ↦
            let e' : (recorded net o (label month) (fetch_month net o (label month) d)
                  (try_months net o (some h) months)).0
                ≡ ok (updated m) =
              ground (arith, a, e) in
            let older : text_le (label month) h ≡ false = ground (arith, f, a) in
            elim (recorded_month o (label month) m (fetch_month net o (label month) d)
              (try_months net o (some h) months) e') [
                | inl q ↦ rw q older
                | inr (d1, e1) ↦ try_months-newer o h m months d1 f e1
              ]
      ]

  -- Unless it is forced, an update that installs a month while another is recorded beside the database
  -- installs a later one.
  pub update-newer :
      (o : Options) (h m : Text) (d : Disk)
      → o.force ≡ false
      → installed o.out d ≡ some h
      → (update net o d).0 ≡ ok (updated m)
      → text_le m h ≡ false
  unfolding update
  update-newer o h m d f i e =
      try_months-newer o h m (o.now ∷ previous o.now ∷ []) d f
        (subst (λ x. (try_months net o x (o.now ∷ previous o.now ∷ []) d).0 ≡ ok (updated m)) i e)
