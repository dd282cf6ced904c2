-- ===== src/Hbbs/Console/Relaying.antt =====
-- What `always-use-relay` of the console of src/rendezvous_server.rs does to the relays.
use rustdesk_server.Prelude.{
  ℕ, ◌≡◌, refl, ◌⊎◌, inl, inr, true, ◌||◌, Option, none, List, [], ◌∷◌, ◌++◌, arith, ◌==◌, text_eq,
  list_beq_iff, Bool-cases,
}
use rustdesk_server.Prelude.Text.{Text, text, trim, split}
use rustdesk_server.Net.{IpAddr}
use rustdesk_server.Disk.{Disk}
use rustdesk_server.Numbers.{Float}
use rustdesk_server.Relay.Name.{parse_relay_list}
use rustdesk_server.Routes.{Networks}
use rustdesk_server.Selector.{Selector, set_live}
use rustdesk_server.Selector.Console.{console}
use rustdesk_server.Hbbs.Probe.{Relays, parse_relay_servers}
use rustdesk_server.Hbbs.Console.{
  Data, relay_servers0, Shared, run_command, check_cmd, take_messages, drain, is_yes,
}

module _ (fl : Float) (nets : Networks) where
  take_messages-last :
      (queue : List Data) (rs : Text) (r : Relays fl nets)
      → take_messages fl nets (queue ++ relay_servers0 rs ∷ []) r
        ≡ parse_relay_servers fl nets rs (take_messages fl nets queue r)
  unfolding take_messages
  take_messages-last [] rs r = refl
  take_messages-last (relay_servers0 q ∷ queue) rs r =
      take_messages-last queue rs (parse_relay_servers fl nets q r)

  IsAur : Text → Type 0
  IsAur w = (w ≡ text "always-use-relay") ⊎ (w ≡ text "aur")

  IsAur-names : (w : Text) → (w == text "always-use-relay" || w == text "aur") ≡ true → IsAur w
  unfolding IsAur
  IsAur-names w k = elim (Bool-cases (w == text "always-use-relay")) [
    | inl a ↦ inl ((list_beq_iff w (text "always-use-relay")).0 a)
    | inr a ↦ inr ((list_beq_iff w (text "aur")).0 (ground (arith, a, k)))
  ]

  -- The relay selector has no such command.
  console_aur :
      (now : ℕ) (parse_ip : Text → Option IpAddr) (cmd w : Text) (args : List Text) (disk : Disk)
      (s : Selector fl nets)
      → split b' ' (trim cmd) ≡ w ∷ args
      → IsAur w
      → console fl nets now parse_ip cmd disk s ≡ (none, disk, s)
  unfolding IsAur console
  console_aur now parse_ip cmd w args disk s h (inl e) = rw (h, e) refl
  console_aur now parse_ip cmd w args disk s h (inr e) = rw (h, e) refl

  run_aur :
      (now : ℕ) (parse_ip : Text → Option IpAddr) (w arg : Text) (args : List Text)
      (c : Shared fl nets)
      → IsAur w
      → (run_command fl nets now parse_ip (w ∷ arg ∷ args) c).1
        ≡ record c { always_use_relay = is_yes arg; queue = c.queue ++ relay_servers0 arg ∷ [] }
  unfolding IsAur run_command
  run_aur now parse_ip w arg args c (inl e) = rw e refl
  run_aur now parse_ip w arg args c (inr e) = rw e refl

  -- The command by either of its names.
  check_aur :
      (now : ℕ) (parse_ip : Text → Option IpAddr) (cmd w arg : Text) (args : List Text)
      (disk : Disk) (c : Shared fl nets)
      → split b' ' (trim cmd) ≡ w ∷ arg ∷ args
      → IsAur w
      → (check_cmd fl nets now parse_ip cmd disk c).2
        ≡ record c { always_use_relay = is_yes arg; queue = c.queue ++ relay_servers0 arg ∷ [] }
  unfolding check_cmd
  check_aur now parse_ip cmd w arg args disk c h k =
      let other = console_aur now parse_ip cmd w (arg ∷ args) disk c.relays.servers h k in
      rw (check_cmd, other) (rw h (run_aur now parse_ip w arg args c k))

  -- `always-use-relay` with an argument sets the flag to whether that is Y or y; and once the main loop
  -- has taken the messages, the argument is the list of relays, and the healthy relays are those that
  -- parse in it, whatever the relays were before.
  pub check_cmd_aur :
      (now : ℕ) (parse_ip : Text → Option IpAddr) (cmd w arg : Text) (args : List Text)
      (disk : Disk) (c : Shared fl nets)
      → split b' ' (trim cmd) ≡ w ∷ arg ∷ args
      → (w == text "always-use-relay" || w == text "aur") ≡ true
      → let c' = drain fl nets (check_cmd fl nets now parse_ip cmd disk c).2 in
        (c'.always_use_relay ≡ is_yes arg)
        × (c'.relays.relay_servers0 ≡ (parse_relay_list arg).0)
        × (c'.relays.servers.live ≡ (parse_relay_list arg).0)
  unfolding drain parse_relay_servers set_live
  check_cmd_aur now parse_ip cmd w arg args disk c h k =
      let last = take_messages-last c.queue arg c.relays in
      rw (check_aur now parse_ip cmd w arg args disk c h (IsAur-names w k))
        (rw (last) (refl, refl, refl))
