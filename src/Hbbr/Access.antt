-- ===== src/Hbbr/Access.antt =====
-- The blacklist (slowed down) and the blocklist (refused) of src/relay_server.rs: their files, their
-- console commands, and the test of a new connection.
use rustdesk_server.Prelude.{
  ◌≡◌, refl, inl, inr, Bool, true, false, ◌&&◌, ◌||◌, not, List, [], ◌∷◌, map, arith, if◌then◌else◌,
  is_some, ◌==◌, text_eq, contains, Bool-cases, list_beq_iff, sym, subst,
}
use rustdesk_server.Prelude.Map
use rustdesk_server.Prelude.Map.{Map, get-insert, get-remove}
use rustdesk_server.Prelude.Text.{Text, text, trim, split}
use rustdesk_server.Net.{IpAddr, SocketAddr, is_loopback}

-- `HashSet<String>`
abbrev pub IpSet : Type 0
IpSet = Map Text (Unit {0})

abbrev pub has : Text → IpSet → Bool
has ip s = is_some (Map.get ip s)

unfoldable pub insert_all : List Text → IpSet → IpSet
insert_all [] s = s
insert_all (ip ∷ ips) s = insert_all ips (Map.insert ip tt s)

unfoldable pub remove_all : List Text → IpSet → IpSet
remove_all [] s = s
remove_all (ip ∷ ips) s = remove_all ips (Map.remove ip s)

-- The statics BLACKLIST and BLOCKLIST.
pub record AccessLists : Type 0 where
  pub blacklist : IpSet
  pub blocklist : IpSet

first_word : List Text → Text
first_word [] = []
first_word (w ∷ ws) = w

-- The file at the start: the first word of every line.
unfoldable pub load_list : Text → IpSet → IpSet
unfolding first_word
load_list contents s =
    insert_all (map (λ (x : Text). first_word (split b' ' (trim x))) (split b'\n' contents)) s

add_to : List Text → IpSet → IpSet
add_to [] s = s
add_to (arg ∷ rest) s = insert_all (split b'|' arg) s

remove_from : List Text → IpSet → IpSet
remove_from [] s = s
remove_from (arg ∷ rest) s = if arg == text "all" then [] else remove_all (split b'|' arg) s

-- What a command on the lists prints.
pub data Printed : Type 0 where
  nothing : Printed
  listed : Bool → Printed
  entries : List Text → Printed

show_list : List Text → IpSet → Printed
show_list [] s = entries (map (λ (e : Text × Unit {0}). e.0) s)
show_list (arg ∷ rest) s = listed (has arg s)

-- The commands of `check_cmd` on the two lists, by their words.
run_command : List Text → AccessLists → Printed × AccessLists
unfolding add_to remove_from show_list
run_command [] l = (nothing, l)
run_command (w ∷ args) l =
    if w == text "blacklist-add" || w == text "ba"
    then (nothing, record l { blacklist = add_to args l.blacklist })
    else if w == text "blacklist-remove" || w == text "br"
    then (nothing, record l { blacklist = remove_from args l.blacklist })
    else if w == text "blacklist" || w == text "b"
    then (show_list args l.blacklist, l)
    else if w == text "blocklist-add" || w == text "Ba"
    then (nothing, record l { blocklist = add_to args l.blocklist })
    else if w == text "blocklist-remove" || w == text "Br"
    then (nothing, record l { blocklist = remove_from args l.blocklist })
    else if w == text "blocklist" || w == text "B"
    then (show_list args l.blocklist, l)
    else (nothing, l)

unfoldable pub check_cmd : Text → AccessLists → Printed × AccessLists
unfolding run_command
check_cmd cmd l = run_command (split b' ' (trim cmd)) l

-- What becomes of a connection.
pub data Admission : Type 0 where
  console blocked admitted : Admission

-- `try_into_v4` is the `hbb_common` submodule's, `ip_text` the text of an address.
unfoldable pub handle_connection :
    (SocketAddr → SocketAddr) → (IpAddr → Text) → SocketAddr → Bool → AccessLists → Admission
handle_connection try_into_v4 ip_text addr ws l =
    let ip = (try_into_v4 addr).ip in
    if not ws && is_loopback ip
    then console
    else if has (ip_text ip) l.blocklist
    then blocked
    else admitted

has-insert_all :
    (ip : Text) (ips : List Text) (s : IpSet)
    → has ip (insert_all ips s) ≡ contains ip ips || has ip s
unfolding insert_all
has-insert_all ip [] s = refl
has-insert_all ip (x ∷ ips) s = ground (
  arith,
  has-insert_all ip ips (Map.insert x tt s),
  get-insert x ip tt s,
  list_beq_iff x ip,
  list_beq_iff ip x,
)

has-remove_all :
    (ip : Text) (ips : List Text) (s : IpSet)
    → has ip (remove_all ips s) ≡ not (contains ip ips) && has ip s
unfolding remove_all
has-remove_all ip [] s = refl
has-remove_all ip (x ∷ ips) s = ground (
  arith,
  has-remove_all ip ips (Map.remove x s),
  get-remove x ip s,
  list_beq_iff x ip,
  list_beq_iff ip x,
)

run_command_add :
    (w arg : Text) (rest : List Text) (l : AccessLists)
    → (w == text "blocklist-add" || w == text "Ba") ≡ true
    → (run_command (w ∷ arg ∷ rest) l).1
      ≡ record l { blocklist = insert_all (split b'|' arg) l.blocklist }
unfolding run_command add_to
run_command_add w arg rest l h =
    let same = λ (v : Text).
      (run_command (v ∷ arg ∷ rest) l).1
      ≡ record l { blocklist = insert_all (split b'|' arg) l.blocklist } in
    elim (Bool-cases (w == text "blocklist-add")) [
      | inl a ↦ subst same (sym ((list_beq_iff w (text "blocklist-add")).0 a)) refl
      | inr a ↦ subst same (sym ((list_beq_iff w (text "Ba")).0 (ground (arith, a, h)))) refl
    ]

run_command_remove :
    (w arg : Text) (rest : List Text) (l : AccessLists)
    → (w == text "blocklist-remove" || w == text "Br") ≡ true
    → (run_command (w ∷ arg ∷ rest) l).1 ≡ record l {
      blocklist = if arg == text "all" then [] else remove_all (split b'|' arg) l.blocklist;
    }
unfolding run_command remove_from
run_command_remove w arg rest l h =
    let same = λ (v : Text). (run_command (v ∷ arg ∷ rest) l).1 ≡ record l {
      blocklist = if arg == text "all" then [] else remove_all (split b'|' arg) l.blocklist;
    } in
    elim (Bool-cases (w == text "blocklist-remove")) [
      | inl a ↦ subst same (sym ((list_beq_iff w (text "blocklist-remove")).0 a)) refl
      | inr a ↦ subst same (sym ((list_beq_iff w (text "Br")).0 (ground (arith, a, h)))) refl
    ]

-- After `blocklist-add` or `Ba` an address is on the blocklist exactly if it is one of the parts of
-- the argument, which bars separate, or was there before; the blacklist stays.
pub check_cmd_blocklist_add :
    (cmd w arg ip : Text) (rest : List Text) (l : AccessLists)
    → split b' ' (trim cmd) ≡ w ∷ arg ∷ rest
    → (w == text "blocklist-add" || w == text "Ba") ≡ true
    → let l' = (check_cmd cmd l).1 in
      (has ip l'.blocklist ≡ contains ip (split b'|' arg) || has ip l.blocklist)
      × (l'.blacklist ≡ l.blacklist)
unfolding check_cmd
check_cmd_blocklist_add cmd w arg ip rest l h k =
    let p = has-insert_all ip (split b'|' arg) l.blocklist in
    rw h (rw (run_command_add w arg rest l k) (p, refl))

-- After `blocklist-remove` or `Br` an address is on the blocklist exactly if it was there before and
-- is not one of the parts of the argument, and `all` empties the blocklist; the blacklist stays.
pub check_cmd_blocklist_remove :
    (cmd w arg ip : Text) (rest : List Text) (l : AccessLists)
    → split b' ' (trim cmd) ≡ w ∷ arg ∷ rest
    → (w == text "blocklist-remove" || w == text "Br") ≡ true
    → let l' = (check_cmd cmd l).1 in
      (has ip l'.blocklist
        ≡ not (arg == text "all") && (not (contains ip (split b'|' arg)) && has ip l.blocklist))
      × (l'.blacklist ≡ l.blacklist)
unfolding check_cmd Map.get
check_cmd_blocklist_remove cmd w arg ip rest l h k =
    let p = has-remove_all ip (split b'|' arg) l.blocklist in
    rw h (
      rw (run_command_remove w arg rest l k) (elim (Bool-cases (arg == text "all")) [
        | inl a ↦ rw a (refl, refl)
        | inr a ↦ rw a (p, refl)
      ]))

-- After `blocklist-add` or `Ba`, a connection that is not one of the console is blocked if its
-- address is one of the parts of the argument or was on the blocklist before, and admitted
-- otherwise.
pub handle_connection-check_cmd :
    (try_into_v4 : SocketAddr → SocketAddr) (ip_text : IpAddr → Text) (addr : SocketAddr)
    (ws : Bool)
    → (cmd w arg : Text) (rest : List Text) (l : AccessLists)
    → split b' ' (trim cmd) ≡ w ∷ arg ∷ rest
    → (w == text "blocklist-add" || w == text "Ba") ≡ true
    → (not ws && is_loopback (try_into_v4 addr).ip) ≡ false
    → let ip = ip_text (try_into_v4 addr).ip in
      handle_connection try_into_v4 ip_text addr ws (check_cmd cmd l).1
      ≡ (if contains ip (split b'|' arg) || has ip l.blocklist then blocked else admitted)
unfolding handle_connection
handle_connection-check_cmd try_into_v4 ip_text addr ws cmd w arg rest l h k c =
    let p = check_cmd_blocklist_add cmd w arg (ip_text (try_into_v4 addr).ip) rest l h k in
    rw (c, p.0) refl
