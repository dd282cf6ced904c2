-- ===== src/Selector/Commands.antt =====
-- src/relay_select.rs: the operator's choice of relay, on the console and in its file.
pub mod Laws
use rustdesk_server.Prelude.{
  ℕ, ◌≡◌, Bool, true, false, not, Option, none, some, List, [], ◌∷◌, ◌++◌, map, arith, ◌==◌,
  text_eq, find, any, if◌then◌else◌,
}
use rustdesk_server.Prelude.Text.{Text, text, trim, lines, is_empty}
use rustdesk_server.Disk.{Disk, write, remove_file}
use rustdesk_server.Numbers.{Float}
use rustdesk_server.Relay.Name.{normalize}
use rustdesk_server.Routes.{Networks}
use rustdesk_server.Selector.{Selector, PreferredRelay}

-- What `use-relay` prints.
pub data Reply : Type 0 where
  none_chosen : Reply
  -- The chosen relay, and whether it answers.
  chosen : Text → Bool → Reply
  -- Whether the file is gone, so that the choice does not come back.
  automatic_again : Bool → Reply
  not_answering : Text → List Text → Reply
  -- Whether the choice was saved.
  now_using : Text → Bool → Reply

-- The first line of the file that is not blank.
unfoldable pub remembered : Option Text → Option Text
remembered none = none
remembered (some t) = find (λ l. not (is_empty l)) (map trim (lines t))

module _ (fl : Float) (nets : Networks) where
  -- `path` is RELAY_PREFERRED_FILE.
  unfoldable pub load_preferred_relay : Text → Disk → Selector fl nets → Selector fl nets
  unfolding remembered
  load_preferred_relay path disk s = record s {
    preferred = record { relay = remembered (disk.contents path); path = path };
  }

  show_choice : Option Text → List Text → Reply
  show_choice none live = none_chosen
  show_choice (some r) live = chosen r (any (λ l. normalize l == normalize r) live)

  clear_choice : Disk → Selector fl nets → Reply × Disk × Selector fl nets
  clear_choice disk s =
      let (removed, disk') = remove_file s.preferred.path disk in
      (automatic_again removed, disk', record s { preferred = record s.preferred { relay = none } })

  set_choice : Text → Disk → Selector fl nets → Reply × Disk × Selector fl nets
  set_choice want disk s = elim (find (λ r. normalize r == normalize want) s.live) [
    | none ↦ (not_answering want s.live, disk, s)
    | some relay ↦
        let (saved, disk') = write s.preferred.path (relay ++ 10 ∷ []) disk in
        (
          now_using relay saved,
          disk',
          record s { preferred = record s.preferred { relay = some relay } },
        )
  ]

  choice_command : Option Text → Disk → Selector fl nets → Reply × Disk × Selector fl nets
  unfolding show_choice clear_choice set_choice
  choice_command none disk s = (show_choice s.preferred.relay s.live, disk, s)
  choice_command (some want) disk s =
      if want == text "auto" then clear_choice disk s else set_choice want disk s

  -- `use-relay`: show, set or clear the preferred relay. The held choices go in every case.
  unfoldable pub use_relay_command :
      Option Text → Disk → Selector fl nets → Reply × Disk × Selector fl nets
  unfolding choice_command
  use_relay_command arg disk s =
      let (reply, disk', s') = choice_command arg disk s in (reply, disk', record s' { pins = [] })
