-- ===== src/Mail/Await.antt =====
-- `awaitReply` of packages/cyberlegion/src/wake/await.ts: waiting for a message of a thread. What other
-- processes do to the hub while the caller sleeps, and the clock, are given from outside.
pub mod Taken
mod Tests
use cyberlegion.Prelude.{
  ℕ, zero, suc, ◌+◌, ◌*◌, String, Bool, true, false, not, ◌&&◌, nat_eq, leb, get_or, if◌then◌else◌,
  Option, none, some, List, [], ◌∷◌,
}
use cyberlegion.Exec.{Exec, Result, ok, pure, ◌>>=◌}
use cyberlegion.Hub.Types.{Hub}
use cyberlegion.Mail.{InboxItem, InboxQuery, inbox, ack}

pub record AwaitInput : Type 0 where
  pub me_id : String
  pub thread : String
  pub from : Option String
  pub timeout_ms : Option ℕ
  pub max_wait_s : Option ℕ

pub data AwaitOutcome : Type 0 where
  matched : InboxItem → AwaitOutcome
  waiting timed_out : AwaitOutcome

-- POLL_MS, DEFAULT_TIMEOUT_MS and DEFAULT_MAX_WAIT_S
abbrev pub poll_ms : ℕ
poll_ms = 1000

abbrev pub ms_per_second : ℕ
ms_per_second = 1000

abbrev default_timeout_ms : ℕ
default_timeout_ms = 600000

abbrev default_max_wait_s : ℕ
default_max_wait_s = 240

-- The hub as the i-th poll lists it, and as that poll's acknowledgement would find it; the clock at the
-- start, and as the i-th poll reads it, twice, after an empty listing.
pub record World : Type 0 where
  pub listed : ℕ → Hub
  pub acked : ℕ → Hub
  pub start : ℕ
  pub elapsed_at : ℕ → ℕ
  pub deadline_at : ℕ → ℕ

abbrev pub query_of : AwaitInput → InboxQuery
query_of input = record {
  me_id = input.me_id;
  unread = true;
  from = input.from;
  thread = some input.thread;
}

abbrev pub timeout_of : AwaitInput → ℕ
timeout_of input = get_or input.timeout_ms default_timeout_ms

abbrev pub max_wait_of : AwaitInput → ℕ
max_wait_of input = get_or input.max_wait_s default_max_wait_s

module _ (not_after : String → String → Bool) (w : World) (input : AwaitInput) where
  abbrev pub listing : ℕ → List InboxItem
  listing i = inbox not_after (w.listed i) (query_of input)

  -- How an empty poll ends the wait, if it does. A timeout of zero is none.
  unfoldable pub given_up : ℕ → Option AwaitOutcome
  given_up i =
      if not (nat_eq (timeout_of input) 0) && leb (w.start + timeout_of input) (w.elapsed_at i)
      then some timed_out
      else if leb (w.start + max_wait_of input * ms_per_second) (w.deadline_at i)
      then some waiting
      else none

  take : InboxItem → Exec Hub AwaitOutcome
  take item = do m ← ack input.me_id item.message.id; pure (matched item)

  end_poll :
      ℕ
      → List InboxItem
      → Option AwaitOutcome
      → Option (Result AwaitOutcome × Hub)
      → Option (Result AwaitOutcome × Hub)
  unfolding take
  end_poll i (item ∷ items) stop next = some (take item (w.acked i))
  end_poll i [] (some outcome) next = some (ok outcome, w.listed i)
  end_poll i [] none next = next

  -- The polls from the i-th; `none` is fuel that ran out.
  unfoldable pub await_loop : ℕ → ℕ → Option (Result AwaitOutcome × Hub)
  unfolding end_poll
  await_loop zero i = none
  await_loop (suc fuel) i = end_poll i (listing i) (given_up i) (await_loop fuel (suc i))

  -- A poll sleeps for a second, so the wait's length in seconds bounds the polls.
  unfoldable pub await_reply : Option (Result AwaitOutcome × Hub)
  await_reply = await_loop (suc (max_wait_of input)) 0
