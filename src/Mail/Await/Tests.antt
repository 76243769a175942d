-- ===== src/Mail/Await/Tests.antt =====
-- A wait and a watch for a message that comes between two polls, and the properties of the two loops at
-- them.
use cyberlegion.Prelude.{
  ℕ, zero, suc, ◌*◌, ◌≤◌, ◌<◌, String, Bool, true, false, ◌≡◌, refl, inl, none, some, [], ◌∷◌, In,
  arith,
}
use cyberlegion.Prelude.Dict
use cyberlegion.Prelude.Sort.{sort}
use cyberlegion.Exec.{Result}
use cyberlegion.Hub.Types.{Hub, Message}
use cyberlegion.Hub.SafeId.{is_safe_id}
use cyberlegion.Hub.Sample.{unit_of, hub_of}
use cyberlegion.Hub.Mailbox.{mailbox_of, list_inbox}
use cyberlegion.Mail.{inbox, item}
use cyberlegion.Mail.Reading.{IsInbox}
use cyberlegion.Mail.Await.{AwaitInput, AwaitOutcome, World, await_reply, given_up, listing}
use cyberlegion.Mail.Await.Taken.{await_reply-TakenBy, await_reply-ends, TakenBy}
use cyberlegion.Mail.Watch.{WatchInput, watch_mail}
use cyberlegion.Mail.Watch.Printed.{watch_mail-Printed, Printed}

abbrev answer : Message
answer = record {
  id = "7-00";
  from = "u1";
  from_handle = "u1";
  to = "u2";
  subject = none;
  body = "done";
  thread = some "t";
  reply_to = none;
  ts = 7;
}

-- The message is there from the second poll on.
abbrev hub_at : ℕ → Hub
hub_at zero = hub_of (unit_of "u1" ∷ unit_of "u2" ∷ [])
hub_at (suc i) = record (hub_of (unit_of "u1" ∷ unit_of "u2" ∷ [])) {
  mailboxes = ("u2", record { unread = ("7-00", answer) ∷ []; read = [] }) ∷ [];
}

abbrev world : World
world = record {
  listed = hub_at;
  acked = hub_at;
  start = 0;
  elapsed_at = λ i. i * 1000;
  deadline_at = λ i. i * 1000;
}

abbrev for_thread : AwaitInput
for_thread = record {
  me_id = "u2";
  thread = "t";
  from = none;
  timeout_ms = none;
  max_wait_s = none;
}

abbrev by_id : String → String → Bool
by_id a b = true

hub_at-IsInbox : (i : ℕ) → i ≤ 1 → IsInbox (hub_at i) "u2"
unfolding is_safe_id mailbox_of Dict.get
hub_at-IsInbox zero l = (refl, tt, tt)
hub_at-IsInbox (suc i) l = (refl, ((refl, refl), tt), tt)

still_going : (i : ℕ) → i < 1 → given_up by_id world for_thread i ≡ none
unfolding given_up
still_going zero l = refl
still_going (suc i) l = absurd (omega arith)

comes : In (item false answer) (listing by_id world for_thread 1)
unfolding inbox sort list_inbox is_safe_id mailbox_of Dict.get
comes = inl refl

await_reply-TakenBy_example : TakenBy by_id world for_thread 1 (await_reply by_id world for_thread)
await_reply-TakenBy_example =
    await_reply-TakenBy by_id world for_thread 1 (item false answer) hub_at-IsInbox (λ i l. refl)
      still_going comes (λ i. omega arith)

await_reply-ends_example :
    (r : Result AwaitOutcome × Hub) × (await_reply by_id world for_thread ≡ some r)
await_reply-ends_example = await_reply-ends by_id world for_thread (λ i. omega arith)

abbrev all_mail : WatchInput
all_mail = record { me_id = "u2"; thread = none; from = none }

watch_mail-Printed_example : Printed by_id hub_at all_mail 2 (watch_mail by_id hub_at all_mail 2)
watch_mail-Printed_example = watch_mail-Printed by_id hub_at all_mail 2
