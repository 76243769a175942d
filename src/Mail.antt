-- ===== src/Mail.antt =====
-- packages/cyberlegion/src/message.ts: sending a message to whoever a name stands for, and reading,
-- acknowledging and deleting one's mail. `localeCompare` on the ids is a parameter.
pub mod Delivery
pub mod Reading
pub mod Listing
pub mod Await
pub mod Watch
mod Tests
pub mod History
use cyberlegion.Prelude.{
  ℕ, String, Bool, true, false, ◌||◌, ◌==◌, opt_is, get_or, if◌then◌else◌, Option, none, some, List,
  [], ◌++◌, map, filter, find, any, ◌<>◌,
}
use cyberlegion.Prelude.Decimal.{decimal}
use cyberlegion.Prelude.Sort.{sort}
use cyberlegion.Exec.{
  Exec, Result, ok, err, asks, reads, pure, throw, from_option, ◌>>=◌, ◌>>◌, not_in_inbox,
  body_required,
}
use cyberlegion.Hub.Types.{Hub, Message, AgentRecord}
use cyberlegion.Hub.{get_agent}
use cyberlegion.Hub.Mailbox.{
  InboxSnapshot, put_message, list_inbox, ack_message, remove_message, remove_mailbox,
}
use cyberlegion.Context.{Context}
use cyberlegion.Identity.Resolve.{resolve_recipient}
use cyberlegion.Identity.Presence.{nonempty}

pub record SendInput : Type 0 where
  pub from_id : String
  pub to : String
  pub subject : Option String
  pub body : String
  pub thread : Option String
  pub reply_to : Option String

-- `<epochMs>-<hex>`
abbrev pub message_id : Context → String
message_id ctx = decimal ctx.now <> "-" <> ctx.random 0

abbrev handle_of : Option AgentRecord → String → String
handle_of none id = id
handle_of (some r) id = r.handle

abbrev pub message : Context → SendInput → String → Option AgentRecord → Message
message ctx input to from = record {
  id = message_id ctx;
  from = input.from_id;
  from_handle = handle_of from input.from_id;
  to = to;
  subject = nonempty input.subject;
  body = input.body;
  thread = nonempty input.thread;
  reply_to = nonempty input.reply_to;
  ts = ctx.now;
}

unfoldable pub send : Context → SendInput → Exec Hub Message
send ctx input = do
  to ← asks (λ h. resolve_recipient h input.to)
  from ← reads (λ h. get_agent h input.from_id)
  let msg = message ctx input to from
  put_message to msg
  pure msg

-- An empty path is falsy; `-` is the standard input.
abbrev body_in : Option String → Result String → (String → Result String) → Result String
body_in none stdin read_file = err body_required
body_in (some path) stdin read_file = if path == "-" then stdin else read_file path

-- `stdin` and `read_file` are what the reads of the standard input and of a file give.
unfoldable pub resolve_body :
    Option String → Option String → Result String → (String → Result String) → Result String
resolve_body (some body) file stdin read_file = ok body
resolve_body none file stdin read_file = body_in (nonempty file) stdin read_file

pub record InboxItem : Type 0 where
  pub message : Message
  pub read : Bool

pub record InboxQuery : Type 0 where
  pub me_id : String
  pub unread : Bool
  pub from : Option String
  pub thread : Option String

abbrev pub item : Bool → Message → InboxItem
item read m = record { message = m; read = read }

-- A filter that is absent or empty keeps everything.
abbrev pub from_passes : Option String → InboxItem → Bool
from_passes none i = true
from_passes (some s) i = i.message.from == s || i.message.from_handle == s

abbrev pub thread_passes : Option String → InboxItem → Bool
thread_passes none i = true
thread_passes (some s) i = opt_is i.message.thread s

abbrev pub all_items : InboxSnapshot → Bool → List InboxItem
all_items snap unread =
    map (item false) snap.unread ++ (if unread then [] else map (item true) snap.read)

unfoldable pub inbox : (String → String → Bool) → Hub → InboxQuery → List InboxItem
inbox not_after h q =
    sort (λ a b. not_after a.message.id b.message.id)
      (filter (thread_passes (nonempty q.thread))
        (filter (from_passes (nonempty q.from)) (all_items (list_inbox h q.me_id) q.unread)))

unfoldable pub peek : Hub → String → String → Option Message
peek h me msg = let snap = list_inbox h me in find (λ m. m.id == msg) (snap.unread ++ snap.read)

unfoldable pub ack : String → String → Exec Hub Message
ack me msg = ack_message me msg

pub record ReadAck : Type 0 where
  pub msg : Message
  pub acked : Bool

abbrev pub already : Option Message → Result ReadAck
already none = err not_in_inbox
already (some m) = ok (record { msg = m; acked = false })

read_acked : String → String → InboxSnapshot → Exec Hub ReadAck
read_acked me msg snap =
    if any (λ m. m.id == msg) snap.unread
    then (do m ← ack_message me msg; pure (record { msg = m; acked = true }))
    else asks (λ h. already (find (λ m. m.id == msg) snap.read))

unfoldable pub read_ack : String → String → Exec Hub ReadAck
unfolding read_acked
read_ack me msg = do snap ← reads (λ h. list_inbox h me); read_acked me msg snap

unfoldable pub delete_message : String → String → Exec Hub (Unit {0})
delete_message me msg = remove_message me msg

unfoldable pub delete_mailbox : String → Exec Hub (Unit {0})
delete_mailbox id = remove_mailbox id
