-- ===== src/Tests/Keys.antt =====
-- Runs of the search for the key files, with a system that allows everything.
use rustdesk_server.Prelude.{refl, if◌then◌else◌, ◌==◌, text_eq, true, some, ◌∷◌, arith}
use rustdesk_server.Prelude.Text.{Text, text, contains_char}
use rustdesk_server.Keys.{
  Files, absent, link, Outside, gen_sk, follow, opened, new_key, find_key, after_private,
  create_private_key_file, create_new, fill, set_private_key_permissions, beyond_owner,
  missing_public_key_path, resolve_key_path, resolve, write_public_key, create_temporary,
  publish_new, publish_public_key, owner_mode, dropped, sk_file,
}
use rustdesk_server.Keys.Kept.{Keeps, gen_sk-Keeps}
use rustdesk_server.Keys.Guarded.{IsGuarded, gen_sk-IsGuarded}

-- A key is its text.
abbrev os : Outside Text
os = record {
  join = λ path target. target;
  beside = λ path. text "tmp";
  can_open = λ p. true;
  can_read = λ p. true;
  can_create = λ p. true;
  can_write = λ p. true;
  can_sync = λ p. true;
  can_rename = λ p. true;
  can_remove = λ p. true;
  created_mode = λ mode. mode;
  chmod = λ old requested. some requested;
  max_links = 40;
  decode = λ t. some t;
  encode = λ k. k;
  encode_public = λ k. b'P' ∷ k;
  gen_keypair = λ i. text "k";
}

-- The private key is a link to a file that is not there.
abbrev linked : Files
linked = λ p. if p == sk_file then link (text "k") else absent

gen_sk-Keeps_example : Keeps linked (gen_sk os linked).1
gen_sk-Keeps_example = gen_sk-Keeps os linked

gen_sk-IsGuarded_example : IsGuarded os (gen_sk os linked).1
unfolding gen_sk follow opened new_key find_key after_private create_private_key_file create_new
    fill set_private_key_permissions beyond_owner missing_public_key_path resolve_key_path resolve
    write_public_key create_temporary publish_new publish_public_key owner_mode dropped
    contains_char
gen_sk-IsGuarded_example = gen_sk-IsGuarded os linked (text "Pk", text "k") (omega arith) refl
