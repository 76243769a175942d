-- ===== src/Console/Guard.antt =====
-- `withDraftGuard` of packages/cyberlegion/src/console/prompt-guard.ts: typing into a pane without
-- trampling a draft that a human left in its input box. The pane's screen and the clock are given from
-- outside; both may depend on what was typed and on how long the guard slept.
pub mod Waiting
pub mod Outcomes
pub mod Fuel
use cyberlegion.Prelude.{
  ℕ, zero, suc, ◌+◌, ◌*◌, String, Bool, true, false, not, ◌&&◌, ◌==◌, ltb, get_or, if◌then◌else◌,
  Option, none, some, List, [], ◌∷◌,
}
use cyberlegion.Exec.{
  Exec, Result, pure, throw, reads, writes, ◌>>=◌, ◌>>◌, draft_in_progress, draft_many_rows,
}
use cyberlegion.Hub.Types.{Harness}
use cyberlegion.Console.Prompt.{PromptState, read_prompt}

pub data Stroke : Type 0 where
  end_of_line kill_line enter : Stroke
  typed submitted : String → Stroke

-- What the guard and the send typed, the latest first, and the milliseconds slept.
pub record Keyboard : Type 0 where
  pub strokes : List Stroke
  pub slept : ℕ

-- `screen` is what a read of the pane gives, if it does not throw.
pub record Box : Type 0 where
  pub screen : Keyboard → Option String
  pub now : Keyboard → ℕ

pub record DraftGuardOptions : Type 0 where
  pub harness : Option Harness
  pub own_text : String → Bool
  pub idle_ms : ℕ
  pub max_wait_ms : ℕ
  pub poll_ms : ℕ

-- DRAFT_IDLE_MS, DRAFT_MAX_WAIT_MS and DRAFT_POLL_MS
abbrev pub default_options : DraftGuardOptions
default_options = record {
  harness = none;
  own_text = λ s. false;
  idle_ms = 20000;
  max_wait_ms = 60000;
  poll_ms = 1000;
}

abbrev key_settle_ms : ℕ
key_settle_ms = 150

unfoldable pub sleep : ℕ → Exec Keyboard (Unit {0})
sleep ms = writes (λ k. record k { slept = k.slept + ms })

unfoldable pub send_text : Stroke → Exec Keyboard (Unit {0})
send_text s = writes (λ k. record k { strokes = s ∷ k.strokes })

unfoldable pub clear_line : Exec Keyboard (Unit {0})
clear_line = do
  send_text Stroke.end_of_line
  sleep key_settle_ms
  send_text Stroke.kill_line
  sleep key_settle_ms

abbrev scraped : Option Harness → Option String → PromptState
scraped harness none = PromptState.unknown
scraped harness (some screen) = read_prompt screen harness

abbrev pub is_draft_of : PromptState → String → Bool
is_draft_of (PromptState.draft t rows) text = t == text
is_draft_of _ text = false

-- Whether the draft was the same before.
abbrev unchanged : PromptState → PromptState → Bool
unchanged next (PromptState.draft text rows) = is_draft_of next text
unchanged next _ = false

-- A human's draft that has not been idle long enough.
abbrev pub is_waiting : DraftGuardOptions → PromptState → ℕ → ℕ → Bool
is_waiting opts (PromptState.draft text rows) now changed =
    not (opts.own_text text) && ltb now (changed + opts.idle_ms)
is_waiting opts _ now changed = false

module _ (b : Box) (opts : DraftGuardOptions) where
  unfoldable pub read_state : Keyboard → PromptState
  read_state k = scraped opts.harness (b.screen k)

  -- One poll: a sleep, a read, and the time at which the box was last seen to change.
  unfoldable pub poll : PromptState → ℕ → Exec Keyboard (PromptState × ℕ)
  poll state changed = do
    sleep opts.poll_ms
    next ← reads read_state
    moved ← reads (λ k. if unchanged next state then changed else b.now k)
    pure (next, moved)

  -- A clock that moves with every sleep ends the loop before its fuel runs out.
  unfoldable pub guard_wait : ℕ → PromptState → ℕ → ℕ → Exec Keyboard PromptState
  guard_wait zero state start changed k = throw draft_in_progress k
  guard_wait (suc fuel) state start changed k =
      let polled = (poll state changed >>= λ p. guard_wait fuel p.0 start p.1) k in
      if is_waiting opts state (b.now k) changed
      then if ltb (opts.max_wait_ms + start) (b.now k + opts.poll_ms)
        then throw draft_in_progress k
        else polled
      else pure state k

  module _ {A : Type 0} (send : Exec Keyboard A) where
    -- The draft is typed back whether the send returns or throws.
    unfoldable pub send_and_restore : String → Exec Keyboard A
    send_and_restore text k =
        ((send k).0, ((sleep key_settle_ms >> send_text (Stroke.typed text)) (send k).1).1)

    send_cleared : String → PromptState → Exec Keyboard A
    send_cleared text now = if is_draft_of now text then send else send_and_restore text

    unfoldable pub send_over : PromptState → Exec Keyboard A
    unfolding send_cleared
    send_over PromptState.empty = send
    send_over PromptState.unknown = send
    send_over (PromptState.draft text rows) =
        let own = (do clear_line; send) in
        let idle = (do clear_line; now ← reads read_state; send_cleared text now) in
        if opts.own_text text then own else if ltb 1 rows then throw draft_many_rows else idle

    unfoldable pub with_draft_guard : Exec Keyboard A
    with_draft_guard = do
      state ← reads read_state
      start ← reads b.now
      settled ← guard_wait (suc opts.max_wait_ms) state start start
      send_over settled
