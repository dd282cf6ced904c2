-- ===== src/GeoUpdate.antt =====
-- src/geo_update.rs: fetching the GeoIP database of a month, and recording which month it is.
pub mod Months
pub mod Paths
pub mod Safety
pub mod Newer
use rustdesk_server.Prelude.{
  ℕ, ◌+◌, ◌-◌, ◌*◌, ◌/◌, ◌%◌, ◌^◌, Bool, true, false, ◌&&◌, ◌||◌, not, Option, none, some, List, [],
  ◌∷◌, ◌++◌, ltb, leb, ◌==◌, nat_eq, text_eq, if◌then◌else◌, is_some, length, all,
}
use rustdesk_server.Prelude.Text.{Text, text, trim, is_digit}
use rustdesk_server.Prelude.Result.{Result, ok, err}
use rustdesk_server.Disk.{Disk, write, remove_file, rename_file}

-- What `Read` gives: the pieces that are read, and whether an error comes after them.
pub record Stream : Type 0 where
  pub pieces : List Text
  pub broken : Bool

pub data Response : Type 0 where
  no_answer : Response
  answer : (status : ℕ) (content_length : Option ℕ) (body : Stream) → Response

-- The HTTP client, the gzip decoder, `GeoDb::validate_city` of a file's contents, whether a whole
-- file could be written and synced, and the number of the process.
pub record Outside : Type 0 where
  pub get : Text → Response
  pub gunzip : Stream → Stream
  pub validate_city : Text → ℕ → Bool
  pub saved : Text → Bool
  pub process_id : Text

pub record Options : Type 0 where
  pub out : Text
  pub base_url : Text
  -- Year and month.
  pub now : ℕ × ℕ
  pub force : Bool
  pub max_download_bytes : ℕ
  pub max_unpacked_bytes : ℕ
  pub min_nodes : ℕ

pub data Outcome : Type 0 where
  updated up_to_date : (month : Text) → Outcome

abbrev digit : ℕ → ℕ
digit n = b'0' + n % 10

-- A year has at most four digits and a month two.
unfoldable pub label : ℕ × ℕ → Text
label (y, m) =
    digit (y / 1000)
    ∷ digit (y / 100)
    ∷ digit (y / 10)
    ∷ digit y
    ∷ b'-'
    ∷ digit (m / 10)
    ∷ digit m
    ∷ []

unfoldable pub previous : ℕ × ℕ → ℕ × ℕ
previous (y, m) = if leb m 1 then (y - 1, 12) else (y, m - 1)

-- `<=` of texts, which is lexicographic.
unfoldable pub text_le : Text → Text → Bool
text_le [] ys = true
text_le (x ∷ xs) [] = false
text_le (x ∷ xs) (y ∷ ys) = ltb x y || x == y && text_le xs ys

unfoldable pub version_path : Text → Text
version_path out = out ++ text ".version"

-- YYYY-MM
unfoldable pub is_month : Text → Bool
is_month (a ∷ b ∷ c ∷ d ∷ e ∷ f ∷ g ∷ []) =
    e == b'-' && all is_digit (a ∷ b ∷ c ∷ d ∷ []) && all is_digit (f ∷ g ∷ [])
is_month _ = false

-- The month of the installed file, if there is a file and a record of it.
unfoldable pub installed : Text → Disk → Option Text
unfolding version_path is_month
installed out d = elim (d.contents out) [
  | none ↦ none
  | some file ↦ elim (d.contents (version_path out)) [
    | none ↦ none
    | some t ↦ if is_month (trim t) then some (trim t) else none
  ]
]

pub data Fetched : Type 0 where
  installed_month not_published : Fetched

pub data Failure : Type 0 where
  no_reply : Failure
  http_status too_large : ℕ → Failure
  cannot_write broken_download not_a_city_database cannot_replace : Failure
  -- Installed, but the month could not be recorded.
  not_recorded : (month : Text) → Failure
  nothing_published : Failure

-- `Capped::read`: an error once more than `left` bytes have passed through.
unfoldable pub capped_pieces : ℕ → List Text → Bool → Stream
capped_pieces left [] broken = record { pieces = []; broken = broken }
capped_pieces left (p ∷ ps) broken =
    let rest = capped_pieces (left - length p) ps broken in
    if ltb left (length p)
    then record { pieces = []; broken = true }
    else record rest { pieces = p ∷ rest.pieces }

unfoldable pub capped : ℕ → Stream → Stream
unfolding capped_pieces
capped left s = capped_pieces left s.pieces s.broken

unfoldable pub concat : List Text → Text
concat [] = []
concat (p ∷ ps) = p ++ concat ps

trim_slashes : Text → Text
trim_slashes [] = []
trim_slashes (c ∷ r) = elim (trim_slashes r) [
  | [] ↦ if c == b'/' then [] else c ∷ []
  | d ∷ s ↦ c ∷ d ∷ s
]

unfoldable pub url_of : Options → Text → Text
unfolding trim_slashes
url_of o month = trim_slashes o.base_url ++ text "/dbip-city-lite-" ++ month ++ text ".mmdb.gz"

module _ (net : Outside) where
  unfoldable pub tmp_path : Options → Text
  tmp_path o = o.out ++ (text "." ++ net.process_id ++ text ".tmp")

  -- `TempFile::drop`, on the way out with an error.
  unfoldable pub failed : Options → Failure → Disk → Result Failure Fetched × Disk
  failed o e d = (err e, (remove_file (tmp_path o) d).1)

  -- The unpacked file, of which no piece passes the caps.
  unfoldable pub unpacked : Options → Stream → Stream
  unfolding capped
  unpacked o body = capped o.max_unpacked_bytes (net.gunzip (capped o.max_download_bytes body))

  -- Check the file that was written, and rename it over the old one.
  unfoldable pub replace : Options → Text → Disk → Result Failure Fetched × Disk
  unfolding failed
  replace o content d =
      if net.validate_city content o.min_nodes
      then (let (renamed, d') = rename_file (tmp_path o) o.out d in
          if renamed then (ok installed_month, d') else failed o cannot_replace d')
      else failed o not_a_city_database d

  unfoldable pub download : Options → Stream → Disk → Result Failure Fetched × Disk
  unfolding replace failed unpacked
  download o body d =
      let s = unpacked o body in
      let content = concat s.pieces in
      let (created, d') = write (tmp_path o) content d in
      if not created
      then failed o cannot_write d'
      else if s.broken || not (net.saved content)
      then failed o broken_download d'
      else replace o content d'

  abbrev pub is_too_large : Option ℕ → ℕ → Bool
  is_too_large none limit = false
  is_too_large (some len) limit = ltb limit len

  unfoldable pub on_response : Options → Response → Disk → Result Failure Fetched × Disk
  unfolding download
  on_response o no_answer d = (err no_reply, d)
  on_response o (answer status len body) d =
      if status == 404
      then (ok not_published, d)
      else if not (leb 200 status && ltb status 300)
      then (err (http_status status), d)
      else if is_too_large len o.max_download_bytes
      then (err (too_large o.max_download_bytes), d)
      else download o body d

  unfoldable pub fetch_month : Options → Text → Disk → Result Failure Fetched × Disk
  unfolding on_response url_of
  fetch_month o month d = on_response o (net.get (url_of o month)) d

  -- The month that is installed is not older than the candidate.
  abbrev pub has_already : Options → Option Text → Text → Bool
  has_already o none cand = false
  has_already o (some h) cand = not o.force && text_le cand h

  unfoldable pub up_to_date_with : Option Text → Result Failure Outcome
  up_to_date_with none = err nothing_published
  up_to_date_with (some h) = ok (up_to_date h)

  -- After a fetch: record the month; if it is not published, go on.
  unfoldable pub recorded :
      Options
      → Text
      → Result Failure Fetched × Disk
      → (Disk → Result Failure Outcome × Disk)
      → Result Failure Outcome × Disk
  recorded o cand (err e, d) next = (err e, d)
  recorded o cand (ok not_published, d) next = next d
  recorded o cand (ok installed_month, d) next =
      let (wrote, d') = write (version_path o.out) (cand ++ 10 ∷ []) d in
      (if wrote then ok (updated cand) else err (not_recorded cand), d')

  -- The loop over the months to try.
  unfoldable pub try_months :
      Options → Option Text → List (ℕ × ℕ) → Disk → Result Failure Outcome × Disk
  unfolding up_to_date_with recorded
  try_months o have [] d = (up_to_date_with have, d)
  try_months o have (month ∷ months) d =
      let cand = label month in
      elim (has_already o have cand) [
        | true ↦ (up_to_date_with have, d)
        | false ↦ recorded o cand (fetch_month o cand d) (try_months o have months)
      ]

  unfoldable pub update : Options → Disk → Result Failure Outcome × Disk
  unfolding try_months installed
  update o d = try_months o (installed o.out d) (o.now ∷ previous o.now ∷ []) d
