-- ===== src/Hub/Mailbox/Files.antt =====
-- Laws of the mail files: what the reads of any inbox see after a write, an acknowledgement or a
-- removal of any message.
use cyberlegion.Prelude.{
  String, true, ◌&&◌, ◌==◌, if◌then◌else◌, Option, none, some, is_some, ◌≡◌, inl, inr, sym, ap, ◌∙◌,
  Option-cases, arith, eq_iff,
}
use cyberlegion.Prelude.Dict
use cyberlegion.Prelude.Dict.{get-put, get-remove, get-empty}
use cyberlegion.Exec.{ok, err, not_unread}
use cyberlegion.Hub.Types.{Hub, Message, Mailbox}
use cyberlegion.Hub.SafeId.{is_safe_id}
use cyberlegion.Hub.Mailbox.{
  mailbox_of, put_message, ack_message, unread_file, read_file, set_mailbox, move_read,
}

pub mailbox_of-set :
    (h : Hub) (id i : String) (b : Mailbox)
    → mailbox_of (set_mailbox h id b) i ≡ (if id == i then b else mailbox_of h i)
unfolding mailbox_of
mailbox_of-set h id i b = ground (arith, get-put h.mailboxes id i b, eq_iff id i)

pub unread_file-put :
    (to : String) (m : Message) (h : Hub) (i k : String)
    → unread_file (put_message to m h).1 i k ≡ (
        if (is_safe_id to && is_safe_id m.id) && (to == i && m.id == k)
        then some m
        else unread_file h i k)
unfolding put_message
unread_file-put to m h i k = ground (
  arith,
  mailbox_of-set h to i
      (record (mailbox_of h to) { unread = Dict.put (mailbox_of h to).unread m.id m }),
  get-put (mailbox_of h to).unread m.id k m,
  eq_iff to i,
  eq_iff m.id k,
)

pub read_file-put :
    (to : String) (m : Message) (h : Hub) (i k : String)
    → read_file (put_message to m h).1 i k ≡ read_file h i k
unfolding put_message
read_file-put to m h i k = ground (
  arith,
  mailbox_of-set h to i
      (record (mailbox_of h to) { unread = Dict.put (mailbox_of h to).unread m.id m }),
  eq_iff to i,
)

-- An acknowledgement that returns found the message unread.
pub ack_message-ok :
    (id msg : String) (h g : Hub) (m : Message)
    → ack_message id msg h ≡ (ok m, g)
    → unread_file h id msg ≡ some m
unfolding ack_message
ack_message-ok id msg h g m e = elim (Option-cases (unread_file h id msg)) [
  | inl n ↦ absurd (ground (arith, sym (ap (λ (o : Option Message). move_read id msg o h) n) ∙ e))
  | inr (x, q) ↦
      let r = sym (ap (λ (o : Option Message). move_read id msg o h) q) ∙ e in q ∙ ap some (cc)
]

pub ack_message-none :
    (id msg : String) (h : Hub)
    → unread_file h id msg ≡ none
    → ack_message id msg h ≡ (err not_unread, h)
unfolding ack_message move_read
ack_message-none id msg h e = ap (λ (o : Option Message). move_read id msg o h) e

-- The file has left the unread ones and, `read` given, joined the read ones; no other file changed.
pub record IsMoved (h g : Hub) (id msg : String) (read : Option Message) : Type 0 where
  pub unread_files :
      (i k : String) → unread_file g i k ≡ (if id == i && msg == k then none else unread_file h i k)
  pub read_files :
      (i k : String)
      → read_file g i k ≡ (if is_some read && (id == i && msg == k) then read else read_file h i k)

pub safe_of_some :
    (id msg : String) (h : Hub) (m : Message)
    → unread_file h id msg ≡ some m
    → is_safe_id id && is_safe_id msg ≡ true
safe_of_some id msg h m e = ground (arith, e)

abbrev pub moved_to : Hub → String → String → Message → Hub
moved_to h id msg m = set_mailbox h id (record {
  unread = Dict.remove (mailbox_of h id).unread msg;
  read = Dict.put (mailbox_of h id).read msg m;
})

pub moved_to-IsMoved :
    (id msg : String) (h : Hub) (m : Message)
    → is_safe_id id && is_safe_id msg ≡ true
    → IsMoved h (moved_to h id msg m) id msg (some m)
moved_to-IsMoved id msg h m safe =
    let b : Mailbox = record {
      unread = Dict.remove (mailbox_of h id).unread msg;
      read = Dict.put (mailbox_of h id).read msg m;
    } in
    record {
      unread_files = λ i k. ground (
        arith,
        safe,
        mailbox_of-set h id i b,
        get-remove (mailbox_of h id).unread msg k,
        eq_iff id i,
        eq_iff msg k,
      );
      read_files = λ i k. ground (
        arith,
        safe,
        mailbox_of-set h id i b,
        get-put (mailbox_of h id).read msg k m,
        eq_iff id i,
        eq_iff msg k,
      );
    }

-- An acknowledgement of an unread message returns it and moves its file.
pub ack_message-some :
    (id msg : String) (h : Hub) (m : Message)
    → unread_file h id msg ≡ some m
    → (g : Hub) × (ack_message id msg h ≡ (ok m, g)) × IsMoved h g id msg (some m)
unfolding ack_message move_read
ack_message-some id msg h m e = (
  moved_to h id msg m,
  ap (λ (o : Option Message). move_read id msg o h) e,
  moved_to-IsMoved id msg h m (safe_of_some id msg h m e),
)

pub ack_message-moved_to :
    (id msg : String) (h : Hub) (m : Message)
    → unread_file h id msg ≡ some m
    → ack_message id msg h ≡ (ok m, moved_to h id msg m)
unfolding ack_message move_read
ack_message-moved_to id msg h m e = ap (λ (o : Option Message). move_read id msg o h) e
