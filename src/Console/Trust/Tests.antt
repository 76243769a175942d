-- ===== src/Console/Trust/Tests.antt =====
-- Trust prompts of Claude Code, and the properties of `answerTrustPrompt` at them.
use cyberlegion.Prelude.{true, none, [], ◌∷◌, ◌≢◌, refl, arith}
use cyberlegion.Prelude.Rows.{one_space}
use cyberlegion.Prelude.Text.{is_space}
use cyberlegion.Prelude.Prefix.{after_prefix}
use cyberlegion.Exec.{ok}
use cyberlegion.Hub.Types.{Harness}
use cyberlegion.Console.Trust.{
  Tty, Pane, TrustInput, TrustOptions, TrustState, Policy, answer_trust_prompt, trusts_selected,
  shows_trust_prompt, answer_seen, after_watch, watch, do_moves, do_move, press, test, send, sleep,
  read, clear,
}
use cyberlegion.Console.Trust.Guarded.{answer_trust_prompt-IsGuarded, IsGuarded}
use cyberlegion.Console.Trust.Answered.{
  answer_trust_prompt-Answered, answer_trust_prompt_ends, Answered,
}

-- The prompt shows from the start; the first Down selects the option, and an Enter then clears it.
abbrev pane : Pane
pane = record {
  screen = λ t. elim t.sent [
    | [] ↦ "Quick safety check ❯ No, exit Yes, I trust this folder"
    | s ∷ ss ↦ elim ss [
      | [] ↦ "Quick safety check No, exit ❯ Yes, I trust this folder"
      | r ∷ rs ↦ "› "
    ]
  ];
  takes = λ t. true;
}

abbrev input : TrustInput
input = record { harness = Harness.claude; policy = Policy.accept }

abbrev options : TrustOptions
options = record {
  poll_ms = none;
  timeout_ms = none;
  stable_reads = none;
  blank_reads = none;
  key_delay_ms = none;
  attempts = none;
}

abbrev fresh : Tty
fresh = record { slept = 0; reads = 0; sent = [] }

answer_trust_prompt-IsGuarded_example :
    IsGuarded pane (answer_trust_prompt pane input options fresh).1.sent
answer_trust_prompt-IsGuarded_example =
    answer_trust_prompt-IsGuarded pane input options fresh refl tt

answer_trust_prompt-Answered_example :
    Answered pane input options fresh TrustState.accepted
      (answer_trust_prompt pane input options fresh).1
unfolding answer_trust_prompt answer_seen after_watch watch do_moves do_move press test send sleep
    read clear shows_trust_prompt trusts_selected one_space is_space after_prefix
answer_trust_prompt-Answered_example =
    answer_trust_prompt-Answered pane input options fresh
      (answer_trust_prompt pane input options fresh).1 TrustState.accepted refl

answer_trust_prompt_ends_example :
    answer_trust_prompt pane input options fresh
    ≢ (ok none, (answer_trust_prompt pane input options fresh).1)
answer_trust_prompt_ends_example =
    answer_trust_prompt_ends pane input options fresh
      (answer_trust_prompt pane input options fresh).1 (omega arith)
