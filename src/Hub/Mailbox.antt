-- ===== src/Hub/Mailbox.antt =====
-- The mail half of packages/cyberlegion/src/store/file-store.ts: one inbox directory for each
-- address, its acknowledged messages in `read/`.
pub mod Files
pub mod Removal
use cyberlegion.Prelude.{String, ◌&&◌, if◌then◌else◌, Option, none, some, get_or, List, []}
use cyberlegion.Prelude.Dict
use cyberlegion.Prelude.Dict.{Dict}
use cyberlegion.Exec.{Exec, ok, err, invalid_id, not_unread, not_in_inbox}
use cyberlegion.Hub.Types.{Hub, Message, Mailbox}
use cyberlegion.Hub.SafeId.{is_safe_id}
use cyberlegion.Hub.{write_safe}

abbrev pub no_mail : Mailbox
no_mail = record { unread = []; read = [] }

unfoldable pub mailbox_of : Hub → String → Mailbox
mailbox_of h id = get_or (Dict.get h.mailboxes id) no_mail

abbrev pub set_mailbox : Hub → String → Mailbox → Hub
set_mailbox h id m = record h { mailboxes = Dict.put h.mailboxes id m }

unfoldable pub put_message : String → Message → Exec Hub (Unit {0})
put_message to msg h =
    if is_safe_id to && is_safe_id msg.id
    then (
      ok tt,
      set_mailbox h to
          (record (mailbox_of h to) { unread = Dict.put (mailbox_of h to).unread msg.id msg }),
    )
    else (err invalid_id, h)

pub record InboxSnapshot : Type 0 where
  pub unread : List Message
  pub read : List Message

unfoldable pub list_inbox : Hub → String → InboxSnapshot
list_inbox h id =
    if is_safe_id id
    then record {
      unread = Dict.values (mailbox_of h id).unread;
      read = Dict.values (mailbox_of h id).read;
    }
    else record { unread = []; read = [] }

-- the unread file of a message, where its path is a safe one and it exists
abbrev pub unread_file : Hub → String → String → Option Message
unread_file h id msg =
    if is_safe_id id && is_safe_id msg then Dict.get (mailbox_of h id).unread msg else none

abbrev pub read_file : Hub → String → String → Option Message
read_file h id msg =
    if is_safe_id id && is_safe_id msg then Dict.get (mailbox_of h id).read msg else none

move_read : String → String → Option Message → Exec Hub Message
move_read id msg none h = (err not_unread, h)
move_read id msg (some m) h = (
  ok m,
  set_mailbox h id (record {
    unread = Dict.remove (mailbox_of h id).unread msg;
    read = Dict.put (mailbox_of h id).read msg m;
  }),
)

unfoldable pub ack_message : String → String → Exec Hub Message
unfolding move_read
ack_message id msg h = move_read id msg (unread_file h id msg) h

remove_file : String → String → Option Message → Option Message → Exec Hub (Unit {0})
remove_file id msg (some m) r h = (
  ok tt,
  set_mailbox h id (record (mailbox_of h id) { unread = Dict.remove (mailbox_of h id).unread msg }),
)
remove_file id msg none (some m) h = (
  ok tt,
  set_mailbox h id (record (mailbox_of h id) { read = Dict.remove (mailbox_of h id).read msg }),
)
remove_file id msg none none h = (err not_in_inbox, h)

unfoldable pub remove_message : String → String → Exec Hub (Unit {0})
unfolding remove_file
remove_message id msg h = remove_file id msg (unread_file h id msg) (read_file h id msg) h

unfoldable pub remove_mailbox : String → Exec Hub (Unit {0})
remove_mailbox id = write_safe id (λ h. record h { mailboxes = Dict.remove h.mailboxes id })
