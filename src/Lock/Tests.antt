-- ===== src/Lock/Tests.antt =====
-- Schedules of two processes, and the properties of store/lock.ts at them.
use cyberlegion.Prelude.{ℕ, true, not, nat_eq, List, [], ◌∷◌, ◌≡◌, refl, arith}
use cyberlegion.Lock.{Dir, Phase, try_make, write_holder, local, act, run, start}
use cyberlegion.Lock.Exclusion.{one_holder}
use cyberlegion.Lock.Reclaim.{two_holders}

one_holder_example : ◌≡◌ {A = ℕ} 1 1
unfolding run act local try_make write_holder
one_holder_example =
    one_holder (λ p. true) (λ p. refl) (1 ∷ 2 ∷ 1 ∷ 2 ∷ []) Dir.absent 1 1 refl refl

two_holders_example :
    (schedule : List ℕ) × ((run (λ p. not (nat_eq p 9)) schedule (start (Dir.held_by 9))).phase 1
      ≡ Phase.holding)
    × ((run (λ p. not (nat_eq p 9)) schedule (start (Dir.held_by 9))).phase 2 ≡ Phase.holding)
two_holders_example = two_holders (λ p. not (nat_eq p 9)) 1 2 9 refl (λ q. omega arith)
