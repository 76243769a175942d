-- ===== src/Console/Trust.antt =====
-- packages/cyberlegion/src/console/trust.ts: answering the folder-trust prompt that a harness shows in a new
-- pane. The pane is given from outside: what it shows may depend on everything that was sent to it, on
-- the time slept and on how often it was read; a read that fails shows nothing.
pub mod Guarded
pub mod Loop
pub mod Rounds
pub mod Moves
pub mod Answered
mod Tests
use Prim.Native.Char.{code}
use cyberlegion.Prelude.{
  ℕ, zero, suc, ◌+◌, String, Bool, true, false, not, ◌&&◌, ◌||◌, ◌==◌, leb, ltb, is_some, get_or,
  any, if◌then◌else◌, Option, none, some, List, [], ◌∷◌, ◌≡◌, refl,
}
use cyberlegion.Prelude.Text.{trim, is_space}
use cyberlegion.Prelude.Chars.{includes}
use cyberlegion.Prelude.Rows.{one_space}
use cyberlegion.Prelude.Prefix.{after_prefix}
use cyberlegion.Exec.{Exec, pure, throw, reads, writes, ◌>>=◌, ◌>>◌, send_failed}
use cyberlegion.Hub.Types.{Harness}

pub data Stroke : Type 0 where
  down enter : Stroke
  text : String → Stroke

-- A stroke that was sent, with the time slept and the reads before it.
pub record Sent : Type 0 where
  pub stroke : Stroke
  pub slept : ℕ
  pub reads : ℕ

-- What was sent so far, the latest first.
pub record Tty : Type 0 where
  pub slept : ℕ
  pub reads : ℕ
  pub sent : List Sent

pub record Pane : Type 0 where
  pub screen : Tty → String
  -- whether the multiplexer takes a stroke, and does not throw
  pub takes : Tty → Bool

pub record Move : Type 0 where
  pub stroke : Stroke
  pub until : Option (String → Bool)

-- A regular expression's test of any part of the text.
found_in : (String → Bool) → String → Bool
found_in p String.[] = p ""
found_in p (String.◌∷◌ c s) = p (String.◌∷◌ c s) || found_in p s

-- `\s*` and then what `p` accepts
spaced : (String → Bool) → String → Bool
spaced p String.[] = p ""
spaced p (String.◌∷◌ c s) =
    let skipped = spaced p s in p (String.◌∷◌ c s) || (is_space (code c) && skipped)

abbrev starts : String → String → Bool
starts p s = is_some (after_prefix p s)

after_then : String → (String → Bool) → String → Bool
after_then p next s = elim (after_prefix p s) [ none ↦ false | some rest ↦ next rest ]

unfoldable pub trusts_selected : String → Bool
unfolding found_in spaced after_then
trusts_selected = found_in (after_then "❯" (spaced (starts "Yes, I trust this folder")))

unfoldable pub continue_selected : String → Bool
unfolding found_in spaced after_then
continue_selected = found_in (
    after_then "›" (
      spaced (
        after_then "1." (spaced (λ s. starts "Yes, continue" s || starts "Trust and continue" s)))))

-- TRUST_PROMPTS
abbrev markers : Harness → List (List String)
markers Harness.claude = ("Quick safety check" ∷ "Yes, I trust this folder" ∷ []) ∷ []
markers Harness.codex =
    ("Do you trust the contents of this directory?" ∷ "Yes, continue" ∷ [])
    ∷ ("Trust this folder?" ∷ "Trust and continue" ∷ [])
    ∷ []
markers Harness.cursor = ("Workspace Trust Required" ∷ "Trust this workspace" ∷ []) ∷ []

abbrev pub accept_moves : Harness → List Move
accept_moves Harness.claude =
    (record { stroke = Stroke.down; until = some trusts_selected })
    ∷ (record { stroke = Stroke.enter; until = none })
    ∷ []
accept_moves Harness.codex =
    (record { stroke = Stroke.text "1"; until = some continue_selected })
    ∷ (record { stroke = Stroke.enter; until = none })
    ∷ []
accept_moves Harness.cursor = (record { stroke = Stroke.text "a"; until = none }) ∷ []

all_in : String → List String → Bool
all_in flat [] = true
all_in flat (phrase ∷ phrases) = includes flat (one_space phrase) && all_in flat phrases

unfoldable pub shows_trust_prompt : Harness → String → Bool
unfolding all_in
shows_trust_prompt harness screen = any (λ set. all_in (one_space screen) set) (markers harness)

pub data Policy : Type 0 where
  accept ask : Policy

pub record TrustInput : Type 0 where
  pub harness : Harness
  pub policy : Policy

pub record TrustOptions : Type 0 where
  pub poll_ms : Option ℕ
  pub timeout_ms : Option ℕ
  pub stable_reads : Option ℕ
  pub blank_reads : Option ℕ
  pub key_delay_ms : Option ℕ
  pub attempts : Option ℕ

pub data TrustState : Type 0 where
  no_prompt unsettled accepted needs_human stuck : TrustState

-- How the watch of a screen without the prompt ends.
pub data Watched : Type 0 where
  seen settled given_up : Watched

module _ (pane : Pane) (input : TrustInput) (opts : TrustOptions) where
  abbrev pub poll_of : ℕ
  poll_of = get_or opts.poll_ms 500

  abbrev pub timeout_of : ℕ
  timeout_of = get_or opts.timeout_ms 20000

  abbrev pub attempts_of : ℕ
  attempts_of = get_or opts.attempts 5

  unfoldable pub sleep : ℕ → Exec Tty (Unit {0})
  sleep ms = writes (λ t. record t { slept = t.slept + ms })

  unfoldable pub read : Exec Tty String
  read = do screen ← reads pane.screen; writes (λ t. record t { reads = t.reads + 1 }); pure screen

  unfoldable pub send : Stroke → Exec Tty (Unit {0})
  send stroke = do
    writes (λ t. record t {
      sent = (record { stroke = stroke; slept = t.slept; reads = t.reads }) ∷ t.sent;
    })
    taken ← reads pane.takes
    if taken then pure tt else throw send_failed

  abbrev pub shown : String → Bool
  shown screen = shows_trust_prompt input.harness screen

  -- The pause, the read and the judgement of one round, the loop's variables being the arguments.
  unfoldable pub watch : ℕ → ℕ → String → String → Bool → ℕ → Exec Tty (Option Watched)
  watch zero waited first previous changed same = pure none
  watch (suc fuel) waited first previous changed same =
      if not (ltb waited timeout_of) then pure (some Watched.given_up) else do
        sleep poll_of
        screen ← read
        let changes = changed || not (screen == first) in
            let runs = if screen == previous then same + 1 else 1 in
            let on = watch fuel (waited + poll_of) first screen changes runs in
            if shown screen
            then pure (some Watched.seen)
            else if changes && leb (get_or opts.stable_reads 3) runs
            then pure (some Watched.settled)
            else if not changes && trim first == "" && leb (get_or opts.blank_reads 6) runs
            then pure (some Watched.given_up)
            else on

  -- `move.until.test(read())`, and `other` without an `until`
  unfoldable pub test : Option (String → Bool) → Bool → Exec Tty Bool
  test none other = pure other
  test (some until) other = do screen ← read; pure (until screen)

  unfoldable pub press : Move → ℕ → Bool → Exec Tty Bool
  press move zero done = pure done
  press move (suc attempts) done =
      if done
      then pure true
      else do send move.stroke; sleep poll_of; done ← test move.until true; press move attempts done

  unfoldable pub do_move : Move → Exec Tty Bool
  do_move move = do done ← test move.until false; press move attempts_of done

  unfoldable pub do_moves : List Move → Exec Tty Bool
  do_moves [] = pure true
  do_moves (move ∷ moves) = do done ← do_move move; if done then do_moves moves else pure false

  unfoldable pub clear : ℕ → Exec Tty TrustState
  clear zero = pure TrustState.stuck
  clear (suc attempts) = do
    screen ← read
    if not (shown screen) then pure TrustState.accepted else (do sleep poll_of; clear attempts)

  after_moves : Bool → Exec Tty TrustState
  after_moves false = pure TrustState.stuck
  after_moves true = clear attempts_of

  unfoldable pub answer_seen : Policy → Exec Tty TrustState
  unfolding after_moves
  answer_seen Policy.ask = pure TrustState.needs_human
  answer_seen Policy.accept = do
    sleep (get_or opts.key_delay_ms 1000)
    done ← do_moves (accept_moves input.harness)
    after_moves done

  unfoldable pub after_watch : Option Watched → Exec Tty (Option TrustState)
  after_watch none = pure none
  after_watch (some Watched.settled) = pure (some TrustState.no_prompt)
  after_watch (some Watched.given_up) = pure (some TrustState.unsettled)
  after_watch (some Watched.seen) = do state ← answer_seen input.policy; pure (some state)

  -- Each round waits for the poll's time, so the timeout bounds the rounds where that is not zero.
  unfoldable pub answer_trust_prompt : Exec Tty (Option TrustState)
  answer_trust_prompt = do
    first ← read
    watched ←
        if shown first
        then pure (some Watched.seen)
        else watch (suc timeout_of) 0 first first false 1
    after_watch watched
