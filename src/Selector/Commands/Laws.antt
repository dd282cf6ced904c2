-- ===== src/Selector/Commands/Laws.antt =====
-- The operator's choice of relay in src/relay_select.rs: it is obeyed at once, and it survives a
-- restart.
use rustdesk_server.Prelude.{
  ℕ, ◌≡◌, refl, ◌≢◌, Bool, true, false, none, some, List, [], ◌∷◌, ◌++◌, arith, ◌==◌, text_eq,
  beq_refl, list_beq_iff, find, any, ◌∙◌,
}
use rustdesk_server.Prelude.Text.{Text, text, is_whitespace}
use rustdesk_server.Prelude.Text.Laws.{lines-feed, trim_none}
use rustdesk_server.Disk.{Disk, write, remove_file}
use rustdesk_server.Net.{IpAddr}
use rustdesk_server.Numbers.{Float}
use rustdesk_server.Relay.Name.{normalize}
use rustdesk_server.Routes.{Networks}
use rustdesk_server.Selector.{Selector, Reason, pick, preferred_live}
use rustdesk_server.Selector.Picking.{pick_preferred}
use rustdesk_server.Selector.Commands.{remembered, load_preferred_relay, use_relay_command}

remembered-feed :
    (relay : Text)
    → relay ≢ []
    → any is_whitespace relay ≡ false
    → remembered (some (relay ++ 10 ∷ [])) ≡ some relay
unfolding remembered
remembered-feed [] h k = absurd (h refl)
remembered-feed (c ∷ r) h k = rw (lines-feed (c ∷ r) k, trim_none (c ∷ r) k)

find-holds : (p : Text → Bool) (xs : List Text) (x : Text) → find p xs ≡ some x → p x ≡ true
find-holds p [] x e = cc
find-holds p (y ∷ ys) x e = ground (arith, find-holds p ys x)

-- The relay that was found under a name is found under its own.
preferred_live_self :
    (want relay : Text) (live : List Text)
    → find (λ r. normalize r == normalize want) live ≡ some relay
    → preferred_live live (some relay) ≡ some relay
unfolding preferred_live
preferred_live_self want relay live f =
    let e : normalize relay ≡ normalize want =
      (list_beq_iff (normalize relay) (normalize want)).0
        (find-holds (λ r. normalize r == normalize want) live relay f) in
    rw e f

module _ (fl : Float) (nets : Networks) where
  -- A relay that the operator has chosen by its name among the answering ones is the preferred
  -- relay after a restart, if the file can be written and the relay's name is not empty and has no
  -- white space.
  pub use_relay_restart :
      (want relay : Text) (disk : Disk) (s fresh : Selector fl nets)
      → want ≢ text "auto"
      → find (λ r. normalize r == normalize want) s.live ≡ some relay
      → relay ≢ []
      → any is_whitespace relay ≡ false
      → disk.can_write s.preferred.path ≡ true
      → let r = use_relay_command fl nets (some want) disk s in
        (load_preferred_relay fl nets s.preferred.path r.1 fresh).preferred.relay ≡ some relay
  unfolding use_relay_command load_preferred_relay write
  use_relay_restart want relay disk s fresh a f n w c =
      let other : (want == text "auto") ≡ false = ground (arith, list_beq_iff want (text "auto")) in
      ground (arith, f, c, other, beq_refl s.preferred.path, remembered-feed relay n w)

  -- If the file can be deleted, after `use-relay auto` no relay is preferred, neither at once nor
  -- after a restart.
  pub use_relay_auto_restart :
      (disk : Disk) (s fresh : Selector fl nets)
      → disk.can_remove s.preferred.path ≡ true
      → let r = use_relay_command fl nets (some (text "auto")) disk s in
        (r.2.preferred.relay ≡ none)
        × ((load_preferred_relay fl nets s.preferred.path r.1 fresh).preferred.relay ≡ none)
  unfolding use_relay_command load_preferred_relay remove_file
  use_relay_auto_restart disk s fresh c = ground (arith, c, beq_refl s.preferred.path)

  -- With two or more healthy relays, one that the operator chooses by its name, other than `auto`,
  -- is handed to every session from then on, whatever was held before.
  pub use_relay_now :
      (want relay a b : Text) (rest : List Text) (disk : Disk) (s : Selector fl nets)
      → want ≢ text "auto"
      → s.live ≡ a ∷ b ∷ rest
      → find (λ r. normalize r == normalize want) s.live ≡ some relay
      → (now : ℕ) (pa pb : IpAddr) (commit : Bool)
      → (pick fl nets now pa pb commit (use_relay_command fl nets (some want) disk s).2).0
        ≡ record { relay = relay; reason = Reason.preferred; costs = [] }
  unfolding use_relay_command
  use_relay_now want relay a b rest disk s n l f now pa pb commit =
      let other : (want == text "auto") ≡ false = ground (arith, list_beq_iff want (text "auto")) in
      let t = (use_relay_command fl nets (some want) disk s).2 in
      let live : t.live ≡ s.live = ground (arith, other, f) in
      let set : t.preferred.relay ≡ some relay = ground (arith, other, f) in
      pick_preferred fl nets now pa pb commit t relay a b rest (live ∙ l)
        (rw (live, set) (preferred_live_self want relay s.live f))
