-- ===== src/Mail/Reading.antt =====
-- Acknowledging and reading mail in packages/cyberlegion/src/message.ts.
use cyberlegion.Prelude.{
  String, Bool, true, false, ◌&&◌, ◌==◌, if◌then◌else◌, Option, none, some, is_some, [], ◌∷◌, All,
  any, find, ◌≡◌, ◌⊎◌, inl, inr, refl, sym, ap, subst, ◌∙◌, Bool-cases, Option-cases, arith, eq_iff,
  eq_refl,
}
use cyberlegion.Prelude.Dict
use cyberlegion.Prelude.Dict.{Dict}
use cyberlegion.Exec.{Result, ok, err, not_in_inbox}
use cyberlegion.Hub.Types.{Hub, Message, Mailbox}
use cyberlegion.Hub.SafeId.{is_safe_id}
use cyberlegion.Hub.Mailbox.{mailbox_of, set_mailbox, unread_file, read_file, list_inbox}
use cyberlegion.Hub.Mailbox.Files.{
  IsMoved, safe_of_some, moved_to, moved_to-IsMoved, ack_message-moved_to, mailbox_of-set,
  ack_message-some,
}
use cyberlegion.Mail.{read_ack, read_acked, ReadAck, already}

-- Each file is named by the id of its message, a safe one.
abbrev pub IsNamed : Dict Message → Type 0
IsNamed d = All (λ e. (e.1.id ≡ e.0) × (is_safe_id e.0 ≡ true)) d

abbrev pub IsInbox : Hub → String → Type 0
IsInbox h id =
    (is_safe_id id ≡ true) × IsNamed (mailbox_of h id).unread × IsNamed (mailbox_of h id).read

-- In such a directory the message of an id is the one in the file of that name.
find-values :
    (d : Dict Message) (k : String)
    → IsNamed d
    → find (λ m. m.id == k) (Dict.values d) ≡ Dict.get d k
unfolding Dict.get
find-values [] k n = refl
find-values ((j, m) ∷ d) k ((q, s), n) = ground (arith, q, find-values d k n)

any-values :
    (d : Dict Message) (k : String)
    → IsNamed d
    → any (λ m. m.id == k) (Dict.values d) ≡ is_some (Dict.get d k)
unfolding Dict.get
any-values [] k n = refl
any-values ((j, m) ∷ d) k ((q, s), n) = ground (arith, q, any-values d k n)

get_named :
    (d : Dict Message) (k : String) (m : Message)
    → IsNamed d
    → Dict.get d k ≡ some m
    → (m.id ≡ k) × (is_safe_id k ≡ true)
unfolding Dict.get
get_named [] k m n e = absurd (ground (arith, e))
get_named ((j, w) ∷ d) k m ((q, s), n) e = elim (Bool-cases (j == k)) [
  | inl p ↦
      let r : j ≡ k = (eq_iff j k).0 p in
      let z : w ≡ m = ground (arith, e, p) in
      (ap (λ (x : Message). x.id) (sym z) ∙ q ∙ r, ap is_safe_id (sym r) ∙ s)
  | inr p ↦ get_named d k m n (ground (arith, e, p))
]

get-unread :
    (d : Dict Message) (k : String)
    → IsNamed d
    → (if is_safe_id k then Dict.get d k else none) ≡ Dict.get d k
get-unread d k n = elim (Option-cases (Dict.get d k)) [
  | inl e ↦ ground (arith, e)
  | inr (m, e) ↦ let q = (get_named d k m n e).1 in ground (arith, e, q)
]

-- What the snapshot holds under an id is what the files of that name hold.
module _ (h : Hub) (id msg : String) (w : IsInbox h id) where
  snapshot_unread : any (λ m. m.id == msg) (list_inbox h id).unread ≡ is_some (unread_file h id msg)
  unfolding list_inbox
  snapshot_unread =
      let d = (mailbox_of h id).unread in
      rw w.0 (any-values d msg w.1 ∙ ap is_some (sym (get-unread d msg w.1)))

  snapshot_read : find (λ m. m.id == msg) (list_inbox h id).read ≡ read_file h id msg
  unfolding list_inbox
  snapshot_read =
      let d = (mailbox_of h id).read in rw w.0 (find-values d msg w.2 ∙ sym (get-unread d msg w.2))

IsNamed-put :
    (d : Dict Message) (k : String) (m : Message)
    → m.id ≡ k
    → is_safe_id k ≡ true
    → IsNamed d
    → IsNamed (Dict.put d k m)
unfolding Dict.put
IsNamed-put [] k m q s n = ((q, s), tt)
IsNamed-put ((j, w) ∷ d) k m q s (p, n) = elim (Bool-cases (j == k)) [
  | inl e ↦ rw e ((q, s), n)
  | inr e ↦ rw e (p, IsNamed-put d k m q s n)
]

IsNamed-remove : (d : Dict Message) (k : String) → IsNamed d → IsNamed (Dict.remove d k)
unfolding Dict.remove
IsNamed-remove [] k n = tt
IsNamed-remove ((j, w) ∷ d) k (p, n) = elim (Bool-cases (j == k)) [
  | inl e ↦ rw e (IsNamed-remove d k n)
  | inr e ↦ rw e (p, IsNamed-remove d k n)
]

-- The three outcomes of `readAck`.
abbrev pub Taken : Hub → String → String → Message → Type 0
Taken h id msg m =
    (unread_file h id msg ≡ some m)
    × ((g : Hub) × (read_ack id msg h ≡ (ok (record { msg = m; acked = true }), g))
        × IsMoved h g id msg (some m))

abbrev pub Reread : Hub → String → String → Message → Type 0
Reread h id msg m =
    (unread_file h id msg ≡ none)
    × (read_file h id msg ≡ some m)
    × (read_ack id msg h ≡ (ok (record { msg = m; acked = false }), h))

abbrev pub Missing : Hub → String → String → Type 0
Missing h id msg =
    (unread_file h id msg ≡ none)
    × (read_file h id msg ≡ none)
    × (read_ack id msg h ≡ (err not_in_inbox, h))

module _ (h : Hub) (id msg : String) (w : IsInbox h id) where
  taken : (m : Message) → unread_file h id msg ≡ some m → Taken h id msg m
  unfolding read_ack read_acked
  taken m e =
      let (g, run, moved) = ack_message-some id msg h m e in
      let flag : any (λ x. x.id == msg) (list_inbox h id).unread ≡ true =
        snapshot_unread h id msg w ∙ ap is_some e in
      (e, (g, rw (flag, run) refl, moved))

  reread :
      (o : Option Message)
      → unread_file h id msg ≡ none
      → read_file h id msg ≡ o
      → read_ack id msg h ≡ (already o, h)
  unfolding read_ack read_acked
  reread o e r =
      let flag : any (λ x. x.id == msg) (list_inbox h id).unread ≡ false =
        snapshot_unread h id msg w ∙ ap is_some e in
      let found : find (λ x. x.id == msg) (list_inbox h id).read ≡ o =
        snapshot_read h id msg w ∙ r in
      rw (flag, found) refl

  -- `readAck` of an id in an inbox whose files are named by their messages, on every branch: an unread
  -- message is returned and its file moves to the read ones, nothing else changing; a message that is
  -- only read is returned as already acknowledged, and nothing is written; any other id throws, and
  -- nothing is written.
  pub read_ack_lem :
      ((m : Message) × Taken h id msg m) ⊎ (((m : Message) × Reread h id msg m) ⊎ Missing h id msg)
  read_ack_lem = elim (Option-cases (unread_file h id msg)) [
    | inr (m, e) ↦ inl (m, taken m e)
    | inl e ↦ elim (Option-cases (read_file h id msg)) [
      | inr (m, r) ↦ inr (inl (m, (e, r, reread (some m) e r)))
      | inl r ↦ inr (inr (e, r, reread none e r))
    ]
  ]

-- An acknowledgement keeps an inbox's files named by their messages.
moved_to-IsInbox :
    (h : Hub) (id msg : String) (m : Message)
    → IsInbox h id
    → unread_file h id msg ≡ some m
    → IsInbox (moved_to h id msg m) id
moved_to-IsInbox h id msg m w e =
    let d = (mailbox_of h id).unread in
    let f : Dict.get d msg ≡ some m = ground (arith, e) in
    let q = get_named d msg m w.1 f in
    let b : Mailbox = record {
      unread = Dict.remove d msg;
      read = Dict.put (mailbox_of h id).read msg m;
    } in
    let same : mailbox_of (set_mailbox h id b) id ≡ b =
      mailbox_of-set h id id b ∙ ap (λ (c : Bool). if c then b else mailbox_of h id) (eq_refl id) in
    (
      w.0,
      rw same (IsNamed-remove d msg w.1),
      rw same (IsNamed-put (mailbox_of h id).read msg m q.0 q.1 w.2),
    )

-- Reading again what a first reading returned returns the same message, as already acknowledged, and
-- writes nothing.
pub read_ack-again :
    (h g : Hub) (id msg : String) (r : ReadAck)
    → IsInbox h id
    → read_ack id msg h ≡ (ok r, g)
    → read_ack id msg g ≡ (ok (record { msg = r.msg; acked = false }), g)
unfolding read_ack read_acked
read_ack-again h g id msg r w e = elim (Option-cases (unread_file h id msg)) [
  | inr (m, u) ↦ first m u
  | inl n ↦ elim (Option-cases (read_file h id msg)) [
    | inr (m, f) ↦ second (some m) n f
    | inl f ↦ second none n f
  ]
]
  where
    again : Message → Hub → Type 0
    again m x = read_ack id msg x ≡ (ok (record { msg = m; acked = false }), x)

    carry :
        (m : Message) (b : Bool) (x : Hub)
        → ◌≡◌ {A = Result ReadAck × Hub} (ok (record { msg = m; acked = b }), x) (ok r, g)
        → again m x
        → again r.msg g
    carry m b x q k =
        let same : m ≡ r.msg = cc in
        let there : x ≡ g = cc in subst (λ y. again r.msg y) there (subst (λ y. again y x) same k)

    first : (m : Message) → unread_file h id msg ≡ some m → again r.msg g
    first m u =
        let flag : any (λ x. x.id == msg) (list_inbox h id).unread ≡ true =
          snapshot_unread h id msg w ∙ ap is_some u in
        let moved = moved_to h id msg m in
        let mv = moved_to-IsMoved id msg h m (safe_of_some id msg h m u) in
        let hit : id == id && msg == msg ≡ true = ground (arith, eq_refl id, eq_refl msg) in
        let gone : unread_file moved id msg ≡ none =
          mv.unread_files id msg
          ∙ ap (λ (b : Bool). if b then none else unread_file h id msg) hit in
        let kept : read_file moved id msg ≡ some m =
          mv.read_files id msg ∙ ap (λ (b : Bool). if b then some m else read_file h id msg) hit in
        carry m true moved (rw (flag, ack_message-moved_to id msg h m u) at e)
          (reread moved id msg (moved_to-IsInbox h id msg m w u) (some m) gone kept)

    second :
        (o : Option Message) → unread_file h id msg ≡ none → read_file h id msg ≡ o → again r.msg g
    second none n f = absurd (ground (arith, sym (reread h id msg w none n f) ∙ e))
    second (some m) n f = let k = reread h id msg w (some m) n f in carry m false h (sym k ∙ e) k
