-- ===== src/Hub/Mailbox/Removal.antt =====
-- Laws of the mail files: what a removal of a message or of a whole inbox leaves.
use cyberlegion.Prelude.{
  String, false, ◌&&◌, ◌==◌, if◌then◌else◌, Option, none, some, is_some, ◌≡◌, ◌||◌, refl, arith,
  eq_iff,
}
use cyberlegion.Prelude.Dict
use cyberlegion.Prelude.Dict.{get-remove, get-empty}
use cyberlegion.Exec.{ok, err, not_in_inbox}
use cyberlegion.Hub.Types.{Hub, Message, Mailbox}
use cyberlegion.Hub.Mailbox.{
  mailbox_of, remove_message, remove_mailbox, unread_file, read_file, remove_file,
}
use cyberlegion.Hub.Mailbox.Files.{mailbox_of-set}

-- Two hubs that read alike at one inbox and message.
abbrev pub SameAt : Hub → Hub → String → String → Type 0
SameAt h g i k = (unread_file g i k ≡ unread_file h i k) × (read_file g i k ≡ read_file h i k)

remove_file-SameAt :
    (id msg : String) (u r : Option Message) (h : Hub) (i k : String)
    → id == i && msg == k ≡ false
    → SameAt h (remove_file id msg u r h).1 i k
unfolding remove_file
remove_file-SameAt id msg (some m) r h i k n =
    let b : Mailbox = record (mailbox_of h id) {
      unread = Dict.remove (mailbox_of h id).unread msg;
    } in
    let w = mailbox_of-set h id i b in
    let l = get-remove (mailbox_of h id).unread msg k in
    (
      ground (arith, n, w, l, eq_iff id i, eq_iff msg k),
      ground (arith, n, w, l, eq_iff id i, eq_iff msg k),
    )
remove_file-SameAt id msg none (some m) h i k n =
    let b : Mailbox = record (mailbox_of h id) { read = Dict.remove (mailbox_of h id).read msg } in
    let w = mailbox_of-set h id i b in
    let l = get-remove (mailbox_of h id).read msg k in
    (
      ground (arith, n, w, l, eq_iff id i, eq_iff msg k),
      ground (arith, n, w, l, eq_iff id i, eq_iff msg k),
    )
remove_file-SameAt id msg none none h i k n = (refl, refl)

-- A removal, whether it returns or throws, leaves every other message alone.
pub remove_message-SameAt :
    (id msg : String) (h : Hub) (i k : String)
    → id == i && msg == k ≡ false
    → SameAt h (remove_message id msg h).1 i k
unfolding remove_message
remove_message-SameAt id msg h i k n = remove_file-SameAt id msg _ _ h i k n

remove_file-own :
    (id msg : String) (u r : Option Message) (h : Hub)
    → unread_file h id msg ≡ u
    → read_file h id msg ≡ r
    → (unread_file (remove_file id msg u r h).1 id msg ≡ none)
      × (read_file (remove_file id msg u r h).1 id msg ≡ (if is_some u then r else none))
      × ((remove_file id msg u r h).0
          ≡ (if is_some u || is_some r then ok tt else err not_in_inbox))
unfolding remove_file
remove_file-own id msg (some m) r h p q =
    let b : Mailbox = record (mailbox_of h id) {
      unread = Dict.remove (mailbox_of h id).unread msg;
    } in
    let w = mailbox_of-set h id id b in
    let l = get-remove (mailbox_of h id).unread msg msg in
    (
      ground (arith, p, w, l, eq_iff id id, eq_iff msg msg),
      ground (arith, p, q, w, l, eq_iff id id, eq_iff msg msg),
      refl,
    )
remove_file-own id msg none (some m) h p q =
    let b : Mailbox = record (mailbox_of h id) { read = Dict.remove (mailbox_of h id).read msg } in
    let w = mailbox_of-set h id id b in
    let l = get-remove (mailbox_of h id).read msg msg in
    (
      ground (arith, p, q, w, l, eq_iff id id, eq_iff msg msg),
      ground (arith, p, q, w, l, eq_iff id id, eq_iff msg msg),
      refl,
    )
remove_file-own id msg none none h p q = (p, q, refl)

-- A removal takes the unread file, or where there is none the read one, and throws where there is
-- neither.
pub remove_message-own :
    (id msg : String) (h : Hub)
    → (unread_file (remove_message id msg h).1 id msg ≡ none)
      × (read_file (remove_message id msg h).1 id msg
          ≡ (if is_some (unread_file h id msg) then read_file h id msg else none))
      × ((remove_message id msg h).0 ≡ (
          if is_some (unread_file h id msg) || is_some (read_file h id msg)
          then ok tt
          else err not_in_inbox))
unfolding remove_message
remove_message-own id msg h = remove_file-own id msg _ _ h refl refl

-- Removing an inbox leaves every other inbox alone.
pub remove_mailbox-SameAt :
    (id : String) (h : Hub) (i k : String) → id == i ≡ false → SameAt h (remove_mailbox id h).1 i k
unfolding remove_mailbox mailbox_of
remove_mailbox-SameAt id h i k n =
    let l = get-remove h.mailboxes id i in (ground (arith, n, l), ground (arith, n, l))
