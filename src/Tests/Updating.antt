-- ===== src/Tests/Updating.antt =====
-- Runs of the update of the GeoIP database, and of the directory of peers.
use rustdesk_server.Prelude.{
  ◌≡◌, refl, true, false, none, some, [], ◌∷◌, ◌==◌, text_eq, nat_eq, if◌then◌else◌,
}
use rustdesk_server.Prelude.Text.{text, trim, is_digit}
use rustdesk_server.Disk.{Disk, write, rename_file}
use rustdesk_server.GeoUpdate.{
  answer, Outside, Options, label, text_le, installed, update, fetch_month, concat, tmp_path,
}
use rustdesk_server.GeoUpdate.Safety.{Leaves, update-Leaves}
use rustdesk_server.GeoUpdate.Newer.{update-newer}
use rustdesk_server.Hbbs.Peers.{PeerMap, get}
use rustdesk_server.Hbbs.Peers.Directory.{directory, found, get_refines}
use rustdesk_server.Tests.Instances.{rows}

-- A server that has every month, and a database that starts with M.
abbrev net : Outside
net = record {
  get = λ url. answer 200 (some 3) (record { pieces = text "M" ∷ text "ap" ∷ []; broken = false });
  gunzip = λ s. s;
  validate_city = λ t n. if t == text "Map" then true else false;
  saved = λ t. true;
  process_id = text "7";
}

abbrev options : Options
options = record {
  out = text "g";
  base_url = text "http://x/";
  now = (2026, 3);
  force = false;
  max_download_bytes = 10;
  max_unpacked_bytes = 10;
  min_nodes = 1;
}

-- January is installed.
abbrev january : Disk
january = record {
  contents = λ p.
      if p == text "g"
      then some (text "old")
      else if p == text "g.version"
      then some (text "2026-01")
      else none;
  stamp = λ p. none;
  can_write = λ p. true;
  can_remove = λ p. true;
}

update-Leaves_example : Leaves net options january (update net options january)
update-Leaves_example = update-Leaves net options january

update-newer_example : text_le (text "2026-03") (text "2026-01") ≡ false
unfolding update installed trim label is_digit text_le fetch_month write concat rename_file tmp_path
update-newer_example =
    update-newer net options (text "2026-01") (text "2026-03") january refl refl refl

-- A peer that is in the database only.
abbrev in_database : PeerMap rows
in_database = record {
  map = [];
  db =
      (
        text "id-one",
        record { guid = text "g"; uuid = text "u"; pk = text "k"; info = text "10.0.0.1" },
      )
      ∷ [];
}

get_refines_example :
    (found rows (get rows 9 (text "id-one") in_database).0
      ≡ directory rows in_database (text "id-one"))
    × (directory rows (get rows 9 (text "id-one") in_database).1 (text "id-one")
        ≡ directory rows in_database (text "id-one"))
get_refines_example = get_refines rows 9 (text "id-one") (text "id-one") in_database
