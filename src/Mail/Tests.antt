-- ===== src/Mail/Tests.antt =====
-- Runs of the mail calls on a hub of two units, and the properties of message.ts at it.
use cyberlegion.Prelude.{Bool, true, false, ◌≡◌, ◌↔◌, refl, none, [], ◌∷◌, In, inl}
use cyberlegion.Prelude.Dict
use cyberlegion.Prelude.Decimal.{decimal}
use cyberlegion.Exec.{ok}
use cyberlegion.Hub.Types.{Hub, Message, Mailbox}
use cyberlegion.Hub.SafeId.{is_safe_id}
use cyberlegion.Hub.Sample.{unit_of, hub_of}
use cyberlegion.Hub.{get_agent, read_safe}
use cyberlegion.Hub.Mailbox.{mailbox_of, list_inbox, put_message, ack_message}
use cyberlegion.Context.{Context}
use cyberlegion.Context.Sample.{sample}
use cyberlegion.Identity.Resolve.{resolve_recipient}
use cyberlegion.Mail.{SendInput, send, message, read_ack, read_acked, InboxQuery, inbox, item}
use cyberlegion.Mail.Delivery.{send-IsDelivered, IsDelivered}
use cyberlegion.Mail.Listing.{inbox_lem, IsListed}
use cyberlegion.Mail.History.{run-Held, run, Held, acks, reads_and_acks, deletes}

abbrev two_units : Hub
two_units = hub_of (unit_of "u1" ∷ unit_of "u2" ∷ [])

abbrev at_seven : Context
at_seven = record sample { now = 7 }

abbrev note : SendInput
note = record {
  from_id = "u1";
  to = "u2";
  subject = none;
  body = "hi";
  thread = none;
  reply_to = none;
}

abbrev hi : Message
hi = record {
  id = "7-00";
  from = "u1";
  from_handle = "u1";
  to = "u2";
  subject = none;
  body = "hi";
  thread = none;
  reply_to = none;
  ts = 7;
}

abbrev with_mail : Mailbox → Hub
with_mail b = record two_units { mailboxes = ("u2", b) ∷ [] }

abbrev one_unread : Hub
one_unread = with_mail (record { unread = ("7-00", hi) ∷ []; read = [] })

abbrev one_read : Hub
one_read = with_mail (record { unread = []; read = ("7-00", hi) ∷ [] })

sent : send at_seven note two_units ≡ (ok hi, one_unread)
unfolding send resolve_recipient get_agent read_safe is_safe_id Dict.get Dict.put put_message
    mailbox_of decimal
sent = refl

taken_once : read_ack "u2" "7-00" one_unread ≡ (ok (record { msg = hi; acked = true }), one_read)
unfolding read_ack read_acked list_inbox ack_message is_safe_id mailbox_of Dict.get Dict.put
    Dict.remove
taken_once = refl

send-IsDelivered_example :
    (resolve_recipient two_units "u2" ≡ ok "u2")
    × (hi ≡ message at_seven note "u2" (get_agent two_units "u1"))
    × IsDelivered two_units one_unread hi
send-IsDelivered_example = send-IsDelivered at_seven note two_units one_unread hi sent

abbrev everything : InboxQuery
everything = record { me_id = "u2"; unread = false; from = none; thread = none }

inbox_lem_example : In (item true hi) (inbox (λ a b. true) one_read everything) ↔ (
    IsListed one_read everything (item true hi)
    × (◌≡◌ {A = Bool} true true × ◌≡◌ {A = Bool} true true))
inbox_lem_example = inbox_lem one_read everything (item true hi) (λ a b. true)

run-Held_example :
    Held
      (run (acks "u2" "7-00" ∷ deletes "u2" "8-00" ∷ reads_and_acks "u2" "7-00" ∷ []) one_unread)
      "u2"
      "7-00"
      hi
unfolding mailbox_of Dict.get is_safe_id
run-Held_example =
    run-Held "u2" "7-00" hi
      (acks "u2" "7-00" ∷ deletes "u2" "8-00" ∷ reads_and_acks "u2" "7-00" ∷ []) one_unread
      (tt, (refl, (tt, tt))) (inl refl)
