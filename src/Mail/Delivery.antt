-- ===== src/Mail/Delivery.antt =====
-- `send` of packages/cyberlegion/src/message.ts: where a message lands, and what a refused one leaves.
use cyberlegion.Prelude.{
  String, Bool, true, ◌&&◌, ◌==◌, if◌then◌else◌, some, ◌≡◌, refl, sym, ap, ◌∙◌, arith, subst,
  Bool-cases, inl, inr,
}
use cyberlegion.Exec.{
  Exec, Result, ok, err, Error, after, after-ok, asks-ok, pure, reads, ◌>>=◌, ◌>>◌,
}
use cyberlegion.Hub.Types.{Hub, Message}
use cyberlegion.Hub.{get_agent}
use cyberlegion.Hub.SafeId.{is_safe_id}
use cyberlegion.Hub.Mailbox.{put_message, unread_file, read_file}
use cyberlegion.Hub.Mailbox.Files.{unread_file-put, read_file-put}
use cyberlegion.Context.{Context}
use cyberlegion.Identity.Resolve.{resolve_recipient}
use cyberlegion.Mail.{SendInput, message, send}

-- The message is unread in its recipient's inbox, and no other mail file changed.
pub record IsDelivered (h g : Hub) (m : Message) : Type 0 where
  pub unread_files :
      (i k : String)
      → unread_file g i k ≡ (if m.to == i && m.id == k then some m else unread_file h i k)
  pub read_files : (i k : String) → read_file g i k ≡ read_file h i k

put_message-safe :
    (to : String) (m : Message) (h g : Hub)
    → put_message to m h ≡ (ok tt, g)
    → is_safe_id to && is_safe_id m.id ≡ true
unfolding put_message
put_message-safe to m h g e = ground (arith, e)

put_message-IsDelivered :
    (m : Message) (h g : Hub) → put_message m.to m h ≡ (ok tt, g) → IsDelivered h g m
put_message-IsDelivered m h g e =
    let s = put_message-safe m.to m h g e in
    let q : (put_message m.to m h).1 ≡ g = ap (λ x. x.1) e in
    record {
      unread_files = λ i k.
          ap (λ (x : Hub). unread_file x i k) (sym q)
          ∙ unread_file-put m.to m h i k
          ∙ ap (λ (b : Bool). if b && (m.to == i && m.id == k) then some m else unread_file h i k)
              s;
      read_files = λ i k. ap (λ (x : Hub). read_file x i k) (sym q) ∙ read_file-put m.to m h i k;
    }

put_then : Context → SendInput → String → Exec Hub Message
put_then ctx input to = do
  from ← reads (λ h. get_agent h input.from_id)
  put_message to (message ctx input to from)
  pure (message ctx input to from)

-- A send that returns gives the message made of the input, addressed to whom the name resolves to. The
-- message is unread in that inbox, and no other mail file changed.
pub send-IsDelivered :
    (ctx : Context) (input : SendInput) (h g : Hub) (m : Message)
    → send ctx input h ≡ (ok m, g)
    → (resolve_recipient h input.to ≡ ok m.to)
      × (m ≡ message ctx input m.to (get_agent h input.from_id))
      × IsDelivered h g m
unfolding send put_then
send-IsDelivered ctx input h g m e =
    let (to, k, e1) = asks-ok (resolve_recipient h input.to) h (put_then ctx input) m g e in
    sent to k e1
  where
    sent :
        (to : String)
        → resolve_recipient h input.to ≡ ok to
        → after
            (put_message to (message ctx input to (get_agent h input.from_id)) h)
            (λ u. pure (message ctx input to (get_agent h input.from_id)))
          ≡ (ok m, g)
        → (resolve_recipient h input.to ≡ ok m.to)
          × (m ≡ message ctx input m.to (get_agent h input.from_id))
          × IsDelivered h g m
    sent to k e1 =
        let w : Message = message ctx input to (get_agent h input.from_id) in
        let (u, h2, put, e2) = after-ok (put_message to w h) (λ u. pure w) m g e1 in
        let q : w ≡ m = cc in
        let last : h2 ≡ g = cc in
        let d = put_message-IsDelivered w h h2 put in
        subst
          (λ (x : Message).
            (resolve_recipient h input.to ≡ ok x.to)
            × (x ≡ message ctx input x.to (get_agent h input.from_id))
            × IsDelivered h g x)
          q (k, refl, subst (λ x. IsDelivered h x w) last d)

put_message-refused :
    (to : String) (m : Message) (h g : Hub) (x : Error)
    → after (put_message to m h) (λ u. pure m) ≡ (err x, g)
    → g ≡ h
unfolding put_message
put_message-refused to m h g x e = elim (Bool-cases (is_safe_id to && is_safe_id m.id)) [
  | inl k ↦ absurd (ground (arith, k, e))
  | inr k ↦ ground (arith, k, e)
]

-- A send that throws writes nothing.
pub send-refused :
    (ctx : Context) (input : SendInput) (h g : Hub) (x : Error)
    → send ctx input h ≡ (err x, g)
    → g ≡ h
unfolding send put_then
send-refused ctx input h g x e = to_of (resolve_recipient h input.to) e
  where
    to_of : (r : Result String) → after (r, h) (put_then ctx input) ≡ (err x, g) → g ≡ h
    to_of (err y) q = cc
    to_of (ok to) q =
        put_message-refused to (message ctx input to (get_agent h input.from_id)) h g x q
