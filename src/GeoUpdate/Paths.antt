-- ===== src/GeoUpdate/Paths.antt =====
-- The caps and the paths of src/geo_update.rs: what a write to one path leaves at another.
use rustdesk_server.Prelude.{
  ℕ, ◌-◌, ◌≤◌, ◌≡◌, ap, inl, inr, Bool, true, false, some, List, [], ◌∷◌, ◌++◌, arith, ltb, ◌==◌,
  text_eq, nat_eq, list_beq_iff, length, length-append, Bool-cases,
}
use rustdesk_server.Prelude.Text.{Text, is_empty}
use rustdesk_server.Disk.{Disk, write, remove_file, rename_file}
use rustdesk_server.GeoUpdate.{capped_pieces, concat}

-- What passes the cap is no longer than it.
pub capped_pieces_bound :
    (left : ℕ) (ps : List Text) (broken : Bool)
    → length (concat (capped_pieces left ps broken).pieces) ≤ left
unfolding capped_pieces concat
capped_pieces_bound left [] broken = omega arith
capped_pieces_bound left (p ∷ ps) broken =
    let rest = capped_pieces_bound (left - length p) ps broken in
    elim (Bool-cases (ltb left (length p))) [
      | inl e ↦ rw e (omega arith)
      | inr e ↦
          let fits : length p ≤ left = ground (arith, e) in
          let both = length-append p (concat (capped_pieces (left - length p) ps broken).pieces) in
          rw e (omega (arith, rest, fits, both))
    ]

-- A longer path is another one.
pub longer : (path suffix : Text) → is_empty suffix ≡ false → (path == path ++ suffix) ≡ false
longer path [] h = ground (arith, h)
longer path (c ∷ suffix) h = elim (Bool-cases (path == path ++ c ∷ suffix)) [
  | inr e ↦ e
  | inl e ↦
      let same : length path ≡ length (path ++ c ∷ suffix) =
        ap length ((list_beq_iff path (path ++ c ∷ suffix)).0 e) in
      absurd (omega (arith, same, length-append path (c ∷ suffix)))
]

pub write-other :
    (path content p : Text) (d : Disk)
    → (p == path) ≡ false
    → (write path content d).1.contents p ≡ d.contents p
unfolding write
write-other path content p d h = ground (arith, h)

pub remove-other :
    (path p : Text) (d : Disk)
    → (p == path) ≡ false
    → (remove_file path d).1.contents p ≡ d.contents p
unfolding remove_file
remove-other path p d h = ground (arith, h)

pub write_self :
    (path content : Text) (d : Disk)
    → (write path content d).0 ≡ true
    → (write path content d).1.contents path ≡ some content
unfolding write
write_self path content d h = ground (arith, h, list_beq_iff path path)

pub rename-to :
    (from to content : Text) (d : Disk)
    → d.contents from ≡ some content
    → ((rename_file from to d).0 ≡ true)
    → (rename_file from to d).1.contents to ≡ some content
unfolding rename_file
rename-to from to content d h r = ground (arith, h, r, list_beq_iff to to)

pub rename_failed :
    (from to : Text) (d : Disk) → (rename_file from to d).0 ≡ false → (rename_file from to d).1 ≡ d
unfolding rename_file
rename_failed from to d r = ground (arith, r)
