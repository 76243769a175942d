-- ===== src/Exec.antt =====
-- Methods that read and write the hub and may throw. What was written before a throw stays
-- written, so the state comes back beside the error too. `Error` has one constructor for each
-- error that packages/cyberlegion/src throws in the modelled files; message texts are left out.
pub mod Throws
use cyberlegion.Prelude.{Option, none, some, ◌≡◌, ◌⊎◌, inl, inr, refl, arith}

pub data Error : Type 0 where
  -- paths.ts, store/file-store.ts, store/lock.ts, message.ts
  invalid_id not_unread not_in_inbox lock_timeout body_required : Error
  -- project.ts
  not_a_repository ambiguous_project no_project : Error
  -- service.ts
  invalid_service_name no_service stale unknown_unit unit_not_live launch_failed : Error
  -- identity.ts
  ambiguous_handle only_exited not_addressable no_standing_owner ambiguous_service : Error
  no_multiplexer no_identity unknown_harness no_harness : Error
  selector_required no_match many_match : Error
  -- console/prompt-guard.ts, console/ring.ts
  draft_in_progress draft_many_rows pane_gone turn_not_taken send_failed : Error
  -- unit-runtime.ts
  no_runtime own_session still_listed no_pane_here pane_held may_still_run : Error
  -- decommission.ts
  nothing_to_close service_endpoint primary_checkout uncommitted_changes : Error
  unknown_worktree release_failed removal_failed : Error
  -- session.ts, unit-runtime.ts
  no_honest_reset no_reset_command not_launchable cwd_gone open_failed : Error
  no_brief cwd_combined no_primary cwd_missing worktree_failed : Error
  -- standing-home.ts
  home_not_standing home_and_clear launch_without_home home_missing one_launch : Error
  agent_unresolved home_is_primary : Error

pub data Result {ℓ} (A : Type ℓ) : Type ℓ where
  ok : A → Result A
  err : Error → Result A

abbrev pub Exec : Type 0 → Type 0 → Type 0
Exec S A = S → Result A × S

abbrev pub from_option : {A : Type 0} → Error → Option A → Result A
from_option e none = err e
from_option e (some a) = ok a

module _ {S A : Type 0} where
  abbrev pub pure : A → Exec S A
  pure a s = (ok a, s)

  abbrev pub throw : Error → Exec S A
  throw e s = (err e, s)

  -- a read of the state that may throw
  abbrev pub asks : (S → Result A) → Exec S A
  asks f s = (f s, s)

  abbrev pub reads : (S → A) → Exec S A
  reads f s = (ok (f s), s)

abbrev pub writes : {S : Type 0} → (S → S) → Exec S (Unit {0})
writes f s = (ok tt, f s)

module _ {S A B : Type 0} where
  abbrev pub after : Result A × S → (A → Exec S B) → Result B × S
  after (ok a, s) f = f a s
  after (err e, s) f = (err e, s)

  infixl 10 ◌>>=◌
  abbrev pub ◌>>=◌ : Exec S A → (A → Exec S B) → Exec S B
  ◌>>=◌ m f s = after (m s) f

infixl 10 ◌>>◌
abbrev pub ◌>>◌ : {S B : Type 0} → Exec S (Unit {0}) → Exec S B → Exec S B
m >> k = m >>= λ _. k

-- What the first part's state satisfies, and the second part keeps, holds at the end.
pub after-keeps :
    {S A B : Type 0} (P : S → Type 0) (x : Result A × S) (f : A → Exec S B)
    → P x.1
    → ((a : A) → P (f a x.1).1)
    → P (after x f).1
after-keeps P (ok a, s) f p k = k a
after-keeps P (err e, s) f p k = p

-- A run that returns had both parts return.
pub after-ok :
    {S A B : Type 0} (x : Result A × S) (f : A → Exec S B) (b : B) (s : S)
    → after x f ≡ (ok b, s)
    → (a : A) × (t : S) × (x ≡ (ok a, t)) × (f a t ≡ (ok b, s))
after-ok (ok a, t) f b s e = (a, t, refl, e)
after-ok (err x, t) f b s e = absurd (ground (arith, e))

pub ok-injective : {A : Type 0} {a b : A} → ok a ≡ ok b → a ≡ b
ok-injective e = cc

pub from_option-ok :
    {A : Type 0} (e : Error) (o : Option A) (a : A) → from_option e o ≡ ok a → o ≡ some a
from_option-ok e none a q = absurd (ground (arith, q))
from_option-ok e (some b) a q = cc

pub from_option-err :
    {A : Type 0} (e : Error) (o : Option A) (x : Error) → from_option e o ≡ err x → x ≡ e
from_option-err e none x q = ground (arith, q)
from_option-err e (some b) x q = absurd (ground (arith, q))

-- A run that returns had its read return, and went on in the same state.
pub asks-ok :
    {S A B : Type 0} (x : Result A) (t : S) (f : A → Exec S B) (b : B) (s : S)
    → after (x, t) f ≡ (ok b, s)
    → (a : A) × (x ≡ ok a) × (f a t ≡ (ok b, s))
asks-ok (ok a) t f b s e = (a, refl, e)
asks-ok (err x) t f b s e = absurd (ground (arith, e))

-- A run that throws had its first part throw, or its second.
pub after-err :
    {S A B : Type 0} (x : Result A × S) (f : A → Exec S B) (e : Error) (s : S)
    → after x f ≡ (err e, s)
    → (x ≡ (err e, s)) ⊎ ((a : A) × (t : S) × (x ≡ (ok a, t)) × (f a t ≡ (err e, s)))
after-err (ok a, t) f e s q = inr (a, t, refl, q)
after-err (err x, t) f e s q = inl (ground (arith, q))
