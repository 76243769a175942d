-- ===== src/Console/Tests.antt =====
-- Rings and guarded prompts in small terminals, and the properties of the console at them.
use cyberlegion.Prelude.{ℕ, true, false, some, [], ◌∷◌, ◌≡◌, refl, arith}
use cyberlegion.Prelude.Text.{trim, trim_end, is_space}
use cyberlegion.Prelude.Rows.{rows_of}
use cyberlegion.Prelude.Prefix.{after_prefix}
use cyberlegion.Exec.{Exec, ok}
use cyberlegion.Hub.Types.{Harness}
use cyberlegion.Console.Prompt.{PromptState, read_prompt, read_shape, one_line}
use cyberlegion.Console.Guard.{
  Stroke, Keyboard, Box, DraftGuardOptions, with_draft_guard, guard_wait, poll, sleep, send_over,
  clear_line, send_text, read_state,
}
use cyberlegion.Console.Guard.Fuel.{guard_wait-enough}
use cyberlegion.Console.Ring.{Pane, Terminal, RingOptions}

-- A peer that keeps the text staged: every attempt is used.
abbrev stuck : Terminal
stuck = record { exists = true; screen = λ p. "> hello"; is_staged = λ s m. true }

abbrev two_attempts : RingOptions
two_attempts = record { attempts = some 2; require_posted = false }

abbrev untouched : Pane
untouched = record { keys = []; reads = 0 }

-- A codex pane with a draft in its box, and a clock that counts the time slept.
abbrev drafted : Box
drafted = record { screen = λ k. some "› hello"; now = λ k. k.slept }

abbrev quick : DraftGuardOptions
quick = record {
  harness = some Harness.codex;
  own_text = λ s. false;
  idle_ms = 2;
  max_wait_ms = 5;
  poll_ms = 1;
}

abbrev at_rest : Keyboard
at_rest = record { strokes = []; slept = 0 }

abbrev ring : Exec Keyboard ℕ
ring k = (ok 7, k)

guard_wait-enough_example :
    guard_wait drafted quick 6 (PromptState.draft "hello" 1) 0 0 at_rest
    ≡ guard_wait drafted quick 9 (PromptState.draft "hello" 1) 0 0 at_rest
guard_wait-enough_example =
    guard_wait-enough drafted quick (omega arith) (λ k. omega arith) 8 (PromptState.draft "hello" 1)
      at_rest (omega arith)

-- The clear leaves the text in place, so it was a placeholder, and is not typed back.
placeholder_sent :
    with_draft_guard drafted quick ring at_rest
    ≡ (ok 7, record { strokes = Stroke.kill_line ∷ Stroke.end_of_line ∷ []; slept = 302 })
unfolding with_draft_guard guard_wait poll sleep send_over clear_line send_text read_state
    read_prompt read_shape rows_of after_prefix one_line trim trim_end is_space
placeholder_sent = refl
