-- ===== src/Mail/Await/Taken.antt =====
-- When a wait of packages/cyberlegion/src/wake/await.ts ends, and that it takes a message that comes.
use cyberlegion.Prelude.{
  ℕ, zero, suc, ◌+◌, ◌*◌, ◌≤◌, ◌<◌, String, Bool, true, Option, none, some, List, [], ◌∷◌, ◌≡◌, ◌⊎◌,
  inl, inr, refl, sym, ap, ◌∙◌, In, Bool-cases, arith, eq_iff, ◌==◌,
}
use cyberlegion.Prelude.Dict
use cyberlegion.Prelude.Dict.{Dict}
use cyberlegion.Exec.{Result, ok}
use cyberlegion.Hub.Types.{Hub, Message}
use cyberlegion.Hub.SafeId.{is_safe_id}
use cyberlegion.Hub.Mailbox.{unread_file, mailbox_of, list_inbox}
use cyberlegion.Hub.Mailbox.Files.{IsMoved, ack_message-some}
use cyberlegion.Mail.{InboxItem, ack}
use cyberlegion.Mail.Reading.{IsInbox, IsNamed}
use cyberlegion.Mail.Listing.{inbox_lem}
use cyberlegion.Mail.Await.{
  World, AwaitInput, AwaitOutcome, matched, poll_ms, query_of, max_wait_of, listing, given_up, take,
  end_poll, await_loop, await_reply,
}

-- In a directory whose files are named by their messages, a message's file is there under its id.
get-In :
    (d : Dict Message) (m : Message)
    → IsNamed d
    → In m (Dict.values d)
    → (is_safe_id m.id ≡ true) × ((x : Message) × (Dict.get d m.id ≡ some x))
unfolding Dict.get
get-In [] m n i = elim i [ ]
get-In ((j, y) ∷ d) m ((q, s), n) (inl e) =
    let p : m.id ≡ j = ap (λ (z : Message). z.id) e ∙ q in
    (ap is_safe_id p ∙ s, (y, ground (arith, eq_iff j m.id, p)))
get-In ((j, y) ∷ d) m ((q, s), n) (inr i) =
    let (safe, (x, f)) = get-In d m n i in
    elim (Bool-cases (j == m.id)) [
      | inl e ↦ (safe, (y, ground (arith, e)))
      | inr e ↦ (safe, (x, ground (arith, e, f)))
    ]

listed-unread :
    (h : Hub) (id : String) (m : Message)
    → IsInbox h id
    → In m (list_inbox h id).unread
    → (x : Message) × (unread_file h id m.id ≡ some x)
unfolding list_inbox
listed-unread h id m w i =
    let (safe, (x, f)) = get-In (mailbox_of h id).unread m w.1 (rw w.0 at i) in
    (x, ground (arith, w.0, safe, f))

module _ (not_after : String → String → Bool) (w : World) (input : AwaitInput) where
  -- Each poll sleeps for `POLL_MS` at least.
  abbrev pub Ticks : Type 0
  Ticks = (i : ℕ) → w.start + i * poll_ms ≤ w.deadline_at i

  given_up-none : (i : ℕ) → Ticks → given_up not_after w input i ≡ none → i < max_wait_of input
  unfolding given_up
  given_up-none i t e = ground (arith, e, t i)

  Ends : Option (Result AwaitOutcome × Hub) → Type 0
  Ends o = (r : Result AwaitOutcome × Hub) × (o ≡ some r)

  end_poll-Ends :
      (i : ℕ) (items : List InboxItem) (stop : Option AwaitOutcome)
      (next : Option (Result AwaitOutcome × Hub))
      → (stop ≡ none → Ends next)
      → Ends (end_poll not_after w input i items stop next)
  unfolding end_poll Ends
  end_poll-Ends i (x ∷ xs) stop next k = (take not_after w input x (w.acked i), refl)
  end_poll-Ends i [] (some outcome) next k = ((ok outcome, w.listed i), refl)
  end_poll-Ends i [] none next k = k refl

  await_loop-Ends :
      Ticks
      → (fuel i : ℕ) → i ≤ max_wait_of input
      → max_wait_of input < i + fuel
      → Ends (await_loop not_after w input fuel i)
  unfolding await_loop
  await_loop-Ends t zero i b l = absurd (omega arith)
  await_loop-Ends t (suc fuel) i b l =
      end_poll-Ends i (listing not_after w input i) (given_up not_after w input i)
        (await_loop not_after w input fuel (suc i))
        λ e.
          let less = given_up-none i t e in
          await_loop-Ends t fuel (suc i) (omega arith) (omega arith)

  -- Where each poll's sleep lasts at least its time, the wait ends: the polls that its length in seconds
  -- allows are enough.
  pub await_reply-ends :
      Ticks → (r : Result AwaitOutcome × Hub) × (await_reply not_after w input ≡ some r)
  unfolding await_reply Ends
  await_reply-ends t = await_loop-Ends t (suc (max_wait_of input)) 0 (omega arith) (omega arith)

  -- At the i-th poll a message that the listing shows was returned, and its file moved to the read ones.
  abbrev pub TakenAt : ℕ → Option (Result AwaitOutcome × Hub) → Type 0
  TakenAt i o =
      (x : InboxItem) × (g : Hub) × (m : Message) × In x (listing not_after w input i)
      × (o ≡ some (ok (matched x), g))
      × (unread_file (w.listed i) input.me_id x.message.id ≡ some m)
      × IsMoved (w.listed i) g input.me_id x.message.id (some m)

  listing-unread :
      (i : ℕ) (x : InboxItem)
      → IsInbox (w.listed i) input.me_id
      → In x (listing not_after w input i)
      → (m : Message) × (unread_file (w.listed i) input.me_id x.message.id ≡ some m)
  listing-unread i x n k = elim ((inbox_lem (w.listed i) (query_of input) x not_after).0 k).0 [
    | inl (m, (j, e)) ↦ rw e (listed-unread (w.listed i) input.me_id m n j)
    | inr (u, r) ↦ cc
  ]

  first_taken :
      (i : ℕ) (x : InboxItem) (xs : List InboxItem) (stop : Option AwaitOutcome)
      (next : Option (Result AwaitOutcome × Hub))
      → IsInbox (w.listed i) input.me_id
      → w.acked i ≡ w.listed i
      → listing not_after w input i ≡ x ∷ xs
      → TakenAt i (end_poll not_after w input i (x ∷ xs) stop next)
  unfolding end_poll take ack
  first_taken i x xs stop next n same e =
      let k : In x (listing not_after w input i) = rw e (inl refl) in
      let (m, u) = listing-unread i x n k in
      let (g, run, moved) = ack_message-some input.me_id x.message.id (w.listed i) m u in
      (x, g, m, k, rw (same, run) refl, u, moved)

  le_cases : (i n : ℕ) → i ≤ n → (i ≡ n) ⊎ (i < n)
  le_cases i n l = ground arith

  enough :
      Ticks
      → (n : ℕ) → ((i : ℕ) → i < n → given_up not_after w input i ≡ none)
      → n < 0 + suc (max_wait_of input)
  enough t zero going = omega arith
  enough t (suc n) going = let less = given_up-none n t (going n (omega arith)) in omega arith

  -- The wait from the i-th poll takes a message at some poll up to the n-th.
  abbrev pub TakenBy : ℕ → Option (Result AwaitOutcome × Hub) → Type 0
  TakenBy n o = (i : ℕ) × (i ≤ n) × TakenAt i o

  module _ (n : ℕ) (a : InboxItem) (named : (i : ℕ) → i ≤ n → IsInbox (w.listed i) input.me_id)
      (alone : (i : ℕ) → i ≤ n → w.acked i ≡ w.listed i)
      (going : (i : ℕ) → i < n → given_up not_after w input i ≡ none)
      (comes : In a (listing not_after w input n)) where
    poll-TakenBy :
        (i : ℕ) (items : List InboxItem) (stop : Option AwaitOutcome)
        (next : Option (Result AwaitOutcome × Hub))
        → i ≤ n
        → listing not_after w input i ≡ items
        → given_up not_after w input i ≡ stop
        → (i < n → TakenBy n next)
        → TakenBy n (end_poll not_after w input i items stop next)
    unfolding end_poll
    poll-TakenBy i (x ∷ xs) stop next l e q k =
        (i, l, first_taken i x xs stop next (named i l) (alone i l) e)
    poll-TakenBy i [] stop next l e q k = elim (le_cases i n l) [
      | inl same ↦ absurd (rw (← same, e) at comes)
      | inr less ↦ rw (sym q ∙ going i less) (k less)
    ]

    await_loop-TakenBy :
        (fuel i : ℕ) → i ≤ n → n < i + fuel → TakenBy n (await_loop not_after w input fuel i)
    unfolding await_loop
    await_loop-TakenBy zero i l f = absurd (omega arith)
    await_loop-TakenBy (suc fuel) i l f =
        poll-TakenBy i (listing not_after w input i) (given_up not_after w input i) _ l refl refl
          λ b. await_loop-TakenBy fuel (suc i) (omega arith) (omega arith)

    -- A message of the thread that is in the unread inbox at the n-th poll, the wait not having been
    -- given up before, is not waited for in vain: at that poll or an earlier one the wait returns a
    -- message that the listing shows, as matched, and moves its file to the read ones, changing no other
    -- mail. It is assumed that each poll sleeps for its time at least, that the inbox's files are named
    -- by their messages, and that no one else takes mail between the listing and the acknowledgement.
    pub await_reply-TakenBy : Ticks → TakenBy n (await_reply not_after w input)
    unfolding await_reply
    await_reply-TakenBy t =
        await_loop-TakenBy (suc (max_wait_of input)) 0 (omega arith) (enough t n going)
