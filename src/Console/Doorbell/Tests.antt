-- ===== src/Console/Doorbell/Tests.antt =====
-- A message's wake in a small hub, and the properties of console/doorbell.ts at it.
use cyberlegion.Prelude.{true, false, some, none, [], ◌∷◌, ◌≡◌, inl, refl, arith, eq_iff}
use cyberlegion.Prelude.Dict
use cyberlegion.Prelude.Text.{trim, trim_end, is_space}
use cyberlegion.Prelude.Rows.{rows_of, one_space}
use cyberlegion.Prelude.Chars.{take_chars}
use cyberlegion.Prelude.Prefix.{after_prefix}
use cyberlegion.Hub.Types.{Harness, Mux, AgentRecord}
use cyberlegion.Hub.SafeId.{is_safe_id}
use cyberlegion.Hub.Sample.{unit_of, hub_of}
use cyberlegion.Hub.{get_agent, read_safe, find_pane_by_agent_id}
use cyberlegion.Console.Guard.{
  Stroke, default_options, with_draft_guard, guard_wait, send_over, read_state,
}
use cyberlegion.Console.Prompt.{read_prompt, read_shape, one_line}
use cyberlegion.Console.Ring.{ring_turn, ring_loop, check, judge, read_screen, submit, copies_on}
use cyberlegion.Console.RingText.{is_ring_text, is_ring_text-doorbell, spawn_doorbell, squeeze}
use cyberlegion.Console.Doorbell.{
  Consoles, Desk, WakeInput, WakeOptions, wake_recipient, ring_resolved, ring_pane, guarded_ring,
  ring_send, pane_of,
}
use cyberlegion.Console.Doorbell.Woken.{wake_recipient-Woken, Woken}

abbrev peer : AgentRecord
peer = record (unit_of "u2") {
  harness = some Harness.codex;
  pane = some (record { mux = Mux.tmux; id = "%2"; window = none; session = none });
}

abbrev desk : Desk
desk = record { hub = hub_of (unit_of "u1" ∷ peer ∷ []); typed = [] }

-- Every pane shows an empty prompt, and takes what is submitted to it.
abbrev consoles : Consoles
consoles = record {
  has_adapter = true;
  screen_of = λ pane. record {
    box = record { screen = λ k. some "› "; now = λ k. k.slept };
    terminal = λ k. record { exists = true; screen = λ p. "› "; is_staged = λ s m. false };
  };
  is_focused = λ pane. none;
}

abbrev options : WakeOptions
options = record { nudge = none; guard = default_options }

abbrev sent : WakeInput
sent = record { to_id = "u2"; from_id = "u1"; no_nudge = false; spawn_home = none }

wake_recipient-Woken_example :
    Woken consoles options sent desk
      (wake_recipient consoles options sent desk).0
      (wake_recipient consoles options sent desk).1
wake_recipient-Woken_example = wake_recipient-Woken consoles options sent desk

rings_the_peer :
    (wake_recipient consoles options sent desk).1.typed
    ≡ ("%2", Stroke.submitted "You have unread mail — check your inbox.") ∷ []
unfolding wake_recipient ring_resolved ring_pane guarded_ring ring_send pane_of get_agent read_safe
    is_safe_id Dict.get find_pane_by_agent_id with_draft_guard guard_wait send_over read_state
    read_prompt read_shape rows_of after_prefix one_line trim trim_end is_space ring_turn ring_loop
    check judge read_screen submit copies_on one_space take_chars
rings_the_peer = refl

-- The box has broken the doorbell into two rows.
is_ring_text-doorbell_example :
    is_ring_text "Read your brief at /b,\n   then begin work." none ≡ true
unfolding squeeze is_space spawn_doorbell
is_ring_text-doorbell_example =
    is_ring_text-doorbell "Read your brief at /b,\n   then begin work." "/b" none
      (λ e. ground (arith, e, eq_iff "/b" "")) (inl refl)
