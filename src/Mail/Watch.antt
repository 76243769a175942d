-- ===== src/Mail/Watch.antt =====
-- `watchMail` of packages/cyberlegion/src/wake/watch.ts: printing each message that arrives. What the
-- hub is at each poll is given from outside, the start being the poll of zero.
pub mod Printed
use cyberlegion.Prelude.{
  ℕ, zero, suc, ◌+◌, ◌≤◌, ◌<◌, String, Bool, true, false, ◌==◌, any, if◌then◌else◌, Option, List,
  [], ◌∷◌, ◌++◌, map, ◌≡◌, ◌≢◌, ◌⊎◌, inl, inr, refl, sym, ap, subst, ◌∙◌, In, if_cases, Bool-cases,
  arith, eq_iff,
}
use cyberlegion.Hub.Types.{Hub}
use cyberlegion.Mail.{InboxItem, InboxQuery, inbox}

pub record WatchInput : Type 0 where
  pub me_id : String
  pub thread : Option String
  pub from : Option String

abbrev pub id_of : InboxItem → String
id_of i = i.message.id

abbrev pub watched : WatchInput → InboxQuery
watched input = record {
  me_id = input.me_id;
  unread = false;
  from = input.from;
  thread = input.thread;
}

-- The items printed, and the ids seen.
pub record Watch : Type 0 where
  pub printed : List InboxItem
  pub seen : List String

abbrev pub has_seen : Watch → String → Bool
has_seen s id = any (λ k. k == id) s.seen

abbrev pub show : Watch → InboxItem → Watch
show s m = record { printed = m ∷ s.printed; seen = id_of m ∷ s.seen }

abbrev pub next : Watch → InboxItem → Watch
next s m = if has_seen s (id_of m) then s else show s m

-- One poll; the latest printed comes first.
unfoldable pub watch_poll : List InboxItem → Watch → Watch
watch_poll [] s = s
watch_poll (m ∷ ms) s = watch_poll ms (next s m)

module _ (not_after : String → String → Bool) (hubs : ℕ → Hub) (input : WatchInput) where
  abbrev pub shown : ℕ → List InboxItem
  shown i = inbox not_after (hubs i) (watched input)

  -- `n` polls, from the i-th
  unfoldable pub watch_loop : ℕ → ℕ → Watch → Watch
  watch_loop zero i s = s
  watch_loop (suc n) i s = watch_loop n (suc i) (watch_poll (shown i) s)

  -- Seeded with what is there at the start.
  unfoldable pub watch_mail : ℕ → Watch
  watch_mail n = watch_loop n 1 (record { printed = []; seen = map id_of (shown 0) })
