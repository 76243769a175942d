-- ===== src/Mail/History.antt =====
-- Any sequence of the calls of packages/cyberlegion/src/message.ts, by any sessions, on any inboxes. A
-- call that throws keeps what it wrote.
use cyberlegion.Prelude.{
  String, Bool, false, ◌&&◌, ◌==◌, ◌≢◌, if◌then◌else◌, none, some, List, [], ◌∷◌, All, ◌≡◌, ◌⊎◌,
  inl, inr, sym, ap, ◌∙◌, Bool-cases, Option-cases, arith, eq_iff, any,
}
use cyberlegion.Exec.{after-keeps}
use cyberlegion.Hub.Types.{Hub, Message}
use cyberlegion.Hub.{get_agent}
use cyberlegion.Hub.Mailbox.{unread_file, read_file, ack_message, put_message, list_inbox}
use cyberlegion.Hub.Mailbox.Files.{
  IsMoved, ack_message-some, ack_message-none, unread_file-put, read_file-put,
}
use cyberlegion.Hub.Mailbox.Removal.{SameAt, remove_message-SameAt, remove_mailbox-SameAt}
use cyberlegion.Context.{Context}
use cyberlegion.Identity.Resolve.{resolve_recipient}
use cyberlegion.Mail.{
  SendInput, message, message_id, send, ack, read_ack, read_acked, delete_message, delete_mailbox,
}

pub data Call : Type 0 where
  sends : Context → SendInput → Call
  acks : String → String → Call
  reads_and_acks : String → String → Call
  deletes : String → String → Call
  deletes_mailbox : String → Call

unfoldable pub call : Call → Hub → Hub
call (sends ctx input) h = (send ctx input h).1
call (acks me msg) h = (ack me msg h).1
call (reads_and_acks me msg) h = (read_ack me msg h).1
call (deletes me msg) h = (delete_message me msg h).1
call (deletes_mailbox id) h = (delete_mailbox id h).1

unfoldable pub run : List Call → Hub → Hub
run [] h = h
run (c ∷ cs) h = run cs (call c h)

-- The inbox has the message under that id: unread, or read with no unread one of that id.
abbrev pub Held : Hub → String → String → Message → Type 0
Held h id k m =
    (unread_file h id k ≡ some m) ⊎ ((unread_file h id k ≡ none) × (read_file h id k ≡ some m))

-- The call neither deletes the message or its inbox nor sends a message of the same id.
abbrev pub Spares : String → String → Call → Type 0
Spares id k (sends ctx input) = message_id ctx ≢ k
Spares id k (acks me msg) = Unit
Spares id k (reads_and_acks me msg) = Unit
Spares id k (deletes me msg) = me == id && msg == k ≡ false
Spares id k (deletes_mailbox i) = i ≢ id

module _ (id k : String) (m : Message) where
  same-Held : (h g : Hub) → SameAt h g id k → Held h id k m → Held g id k m
  same-Held h g s (inl u) = inl (s.0 ∙ u)
  same-Held h g s (inr (u, r)) = inr (s.0 ∙ u, s.1 ∙ r)

  moved-Held :
      (h g : Hub) (i j : String) (x : Message)
      → unread_file h i j ≡ some x
      → IsMoved h g i j (some x)
      → Held h id k m
      → Held g id k m
  moved-Held h g i j x u mv held = elim (Bool-cases (i == id && j == k)) [
    | inr n ↦
        same-Held h g
          (
            mv.unread_files id k ∙ ap (λ (b : Bool). if b then none else unread_file h id k) n,
            mv.read_files id k ∙ ap (λ (b : Bool). if b then some x else read_file h id k) n,
          )
          held
    | inl y ↦
        let p : i ≡ id = (eq_iff i id).0 (ground (arith, y)) in
        let q : j ≡ k = (eq_iff j k).0 (ground (arith, y)) in
        let gone : unread_file g id k ≡ none =
          mv.unread_files id k ∙ ap (λ (b : Bool). if b then none else unread_file h id k) y in
        let kept : read_file g id k ≡ some x =
          mv.read_files id k ∙ ap (λ (b : Bool). if b then some x else read_file h id k) y in
        inr (
          gone,
          kept
              ∙ own held (
                  ap (λ (s : String). unread_file h s k) (sym p)
                  ∙ ap (λ (s : String). unread_file h i s) (sym q)
                  ∙ u),
        )
  ]
    where
      own : Held h id k m → unread_file h id k ≡ some x → some x ≡ some m
      own (inl a) b = sym b ∙ a
      own (inr (a, c)) b = absurd (ground (arith, sym a ∙ b))

  ack-Held : (h : Hub) (i j : String) → Held h id k m → Held (ack_message i j h).1 id k m
  ack-Held h i j held = elim (Option-cases (unread_file h i j)) [
    | inl n ↦
        let e : (ack_message i j h).1 ≡ h = ap (λ x. x.1) (ack_message-none i j h n) in rw e held
    | inr (x, u) ↦
        let (g, run, mv) = ack_message-some i j h x u in
        let e : (ack_message i j h).1 ≡ g = ap (λ x. x.1) run in
        rw e (moved-Held h g i j x u mv held)
  ]

  put-Held :
      (h : Hub) (to : String) (x : Message)
      → x.id ≢ k
      → Held h id k m
      → Held (put_message to x h).1 id k m
  put-Held h to x n held =
      let miss : x.id == k ≡ false = ground (arith, eq_iff x.id k, n) in
      same-Held h _ (ground (arith, miss, unread_file-put to x h id k), read_file-put to x h id k)
        held

  send-Held :
      (ctx : Context) (input : SendInput) (h : Hub)
      → message_id ctx ≢ k
      → Held h id k m
      → Held (send ctx input h).1 id k m
  unfolding send
  send-Held ctx input h n held =
      after-keeps (λ x. Held x id k m) (resolve_recipient h input.to, h) _ held
        λ to.
          after-keeps (λ x. Held x id k m)
            (put_message to (message ctx input to (get_agent h input.from_id)) h) _
            (put-Held h to (message ctx input to (get_agent h input.from_id)) n held)
            (λ u. put-Held h to (message ctx input to (get_agent h input.from_id)) n held)

  read_ack-Held : (h : Hub) (i j : String) → Held h id k m → Held (read_ack i j h).1 id k m
  unfolding read_ack read_acked
  read_ack-Held h i j held = elim (Bool-cases (any (λ x. x.id == j) (list_inbox h i).unread)) [
    | inl y ↦ rw y (
        after-keeps (λ x. Held x id k m) (ack_message i j h) _ (ack-Held h i j held)
          (λ x. ack-Held h i j held))
    | inr y ↦ rw y held
  ]

  call-Held : (c : Call) (h : Hub) → Spares id k c → Held h id k m → Held (call c h) id k m
  unfolding call ack delete_message delete_mailbox
  call-Held (sends ctx input) h s held = send-Held ctx input h s held
  call-Held (acks me msg) h s held = ack-Held h me msg held
  call-Held (reads_and_acks me msg) h s held = read_ack-Held h me msg held
  call-Held (deletes me msg) h s held = same-Held h _ (remove_message-SameAt me msg h id k s) held
  call-Held (deletes_mailbox i) h s held =
      let miss : i == id ≡ false = ground (arith, eq_iff i id, s) in
      same-Held h _ (remove_mailbox-SameAt i h id k miss) held

-- A message in an inbox stays there, unread or read, through any history of calls by anyone that
-- neither deletes it or its inbox nor sends another message of its id: no acknowledgement, no send and
-- no call that throws loses or changes it.
pub run-Held :
    (id k : String) (m : Message) (cs : List Call) (h : Hub)
    → All (Spares id k) cs
    → Held h id k m
    → Held (run cs h) id k m
unfolding run
run-Held id k m [] h s held = held
run-Held id k m (c ∷ cs) h (s, ss) held =
    run-Held id k m cs (call c h) ss (call-Held id k m c h s held)
