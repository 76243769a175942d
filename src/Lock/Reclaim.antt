-- ===== src/Lock/Reclaim.antt =====
-- The reclaim of a dead holder's lock in packages/cyberlegion/src/store/lock.ts, by two processes at once.
use cyberlegion.Prelude.{
  ℕ, Bool, true, false, nat_eq, nat_eq_iff, if◌then◌else◌, List, [], ◌∷◌, ◌≡◌, ◌≢◌, refl, ap, ◌∙◌,
  arith,
}
use cyberlegion.Lock.{
  Dir, Phase, Probe, State, try_make, write_holder, rename_away, restore, settle_capture, local,
  act, run, start,
}

-- What two processes and the directory look like.
abbrev View : ℕ → ℕ → State → Dir → Phase → Phase → Type 0
View p q s d a b = (s.dir ≡ d) × (s.phase p ≡ a) × (s.phase q ≡ b)

module _ (alive : Probe) (p q : ℕ) (apart : p ≢ q) where
  by_first :
      (s : State) (d e : Dir) (a c b : Phase)
      → View p q s d a b
      → local alive p d a ≡ (e, c)
      → View p q (act alive p s) e c b
  unfolding act
  by_first s d e a c b (v, x, y) l =
      let own : nat_eq p p ≡ true = (nat_eq_iff p p).1 refl in
      let other : nat_eq q p ≡ false = ground (arith, apart) in
      let m : local alive p s.dir (s.phase p) ≡ (e, c) =
        ap (λ z. local alive p z (s.phase p)) v ∙ ap (local alive p d) x ∙ l in
      (
        ap (λ z. z.0) m,
        ap (λ (z : Bool). if z then (local alive p s.dir (s.phase p)).1 else s.phase p) own
            ∙ ap (λ z. z.1) m,
        ap (λ (z : Bool). if z then (local alive p s.dir (s.phase p)).1 else s.phase q) other ∙ y,
      )

  by_second :
      (s : State) (d e : Dir) (a b c : Phase)
      → View p q s d a b
      → local alive q d b ≡ (e, c)
      → View p q (act alive q s) e a c
  unfolding act
  by_second s d e a b c (v, x, y) l =
      let own : nat_eq q q ≡ true = (nat_eq_iff q q).1 refl in
      let other : nat_eq p q ≡ false = ground (arith, apart) in
      let m : local alive q s.dir (s.phase q) ≡ (e, c) =
        ap (λ z. local alive q z (s.phase q)) v ∙ ap (local alive q d) y ∙ l in
      (
        ap (λ z. z.0) m,
        ap (λ (z : Bool). if z then (local alive q s.dir (s.phase q)).1 else s.phase p) other ∙ x,
        ap (λ (z : Bool). if z then (local alive q s.dir (s.phase q)).1 else s.phase q) own
            ∙ ap (λ z. z.1) m,
      )

abbrev race : ℕ → ℕ → List ℕ
race p q = q ∷ p ∷ p ∷ p ∷ p ∷ q ∷ q ∷ q ∷ q ∷ p ∷ []

-- Two processes that both find a dead holder's lock can both end up holding it. Both judge the holder
-- dead; the first reclaims the directory and makes a new one; before it has written its holder file, the
-- second renames that directory away, finds no holder in it, removes it and makes its own; then each
-- writes its holder file.
pub two_holders :
    (alive : Probe) (p q d : ℕ)
    → alive d ≡ false
    → p ≢ q
    → (schedule : List ℕ) × ((run alive schedule (start (Dir.held_by d))).phase p ≡ Phase.holding)
      × ((run alive schedule (start (Dir.held_by d))).phase q ≡ Phase.holding)
unfolding run local try_make rename_away settle_capture write_holder
two_holders alive p q d dead apart =
    let by_p = by_first alive p q apart in
    let by_q = by_second alive p q apart in
    let suspect : try_make alive (Dir.held_by d) ≡ (Dir.held_by d, Phase.reclaiming) =
      ap
        (λ (b : Bool). if b then (Dir.held_by d, Phase.idle) else (Dir.held_by d, Phase.reclaiming))
        dead in
    let settled : settle_capture alive (Dir.held_by d) Dir.absent ≡ Dir.absent =
      ap (λ (b : Bool). if b then restore d Dir.absent else Dir.absent) dead in
    let v1 = by_q (start (Dir.held_by d)) _ _ _ _ _ (refl, refl, refl) suspect in
    let v2 = by_p _ _ _ _ _ _ v1 suspect in
    let v3 = by_p _ _ _ _ _ _ v2 refl in
    let v4 = by_p _ _ _ _ _ _ v3 (ap (λ (x : Dir). (x, Phase.idle)) settled) in
    let v5 = by_p _ _ _ _ _ _ v4 refl in
    let v6 = by_q _ _ _ _ _ _ v5 refl in
    let v7 = by_q _ _ _ _ _ _ v6 refl in
    let v8 = by_q _ _ _ _ _ _ v7 refl in
    let v9 = by_q _ _ _ _ _ _ v8 refl in
    let v10 = by_p _ _ _ _ _ _ v9 refl in (race p q, v10.1, v10.2)
