-- ===== src/Mail/Watch/Printed.antt =====
-- What `watchMail` of packages/cyberlegion/src/wake/watch.ts prints.
use cyberlegion.Prelude.{
  ℕ, zero, suc, ◌+◌, ◌≤◌, ◌<◌, String, Bool, true, false, ◌==◌, any, List, [], ◌∷◌, ◌++◌, map, ◌≡◌,
  ◌⊎◌, inl, inr, refl, sym, ap, subst, In, if_cases, Bool-cases, arith, eq_iff,
}
use cyberlegion.Hub.Types.{Hub}
use cyberlegion.Mail.{InboxItem}
use cyberlegion.Mail.Watch.{
  WatchInput, Watch, id_of, has_seen, show, next, shown, watch_poll, watch_loop, watch_mail,
}

-- No id stands twice in a list.
abbrev pub Distinct : List String → Type 0
Distinct [] = Unit
Distinct (k ∷ ks) = (In k ks → ⊥) × Distinct ks

-- The seen ids are those of the start and those printed, and no id was printed twice, nor one of the
-- start.
record IsWatch (start : List String) (s : Watch) : Type 0 where
  ids : s.seen ≡ map id_of s.printed ++ start
  distinct : Distinct (map id_of s.printed)
  fresh : (k : String) → In k (map id_of s.printed) → In k start → ⊥

any-In : (ks : List String) (id : String) → any (λ k. k == id) ks ≡ true → In id ks
any-In [] id e = absurd (ground (arith, e))
any-In (k ∷ ks) id e = elim (Bool-cases (k == id)) [
  | inl y ↦ inl (sym ((eq_iff k id).0 y))
  | inr n ↦ inr (any-In ks id (ground (arith, e, n)))
]

not-any-In : (ks : List String) (id : String) → any (λ k. k == id) ks ≡ false → In id ks → ⊥
not-any-In [] id e i = i
not-any-In (k ∷ ks) id e (inl q) = ground (arith, e, q, eq_iff k id)
not-any-In (k ∷ ks) id e (inr i) = not-any-In ks id (ground (arith, e)) i

In-append_left : (ks ls : List String) (k : String) → In k ks → In k (ks ++ ls)
In-append_left [] ls k i = elim i [ ]
In-append_left (x ∷ ks) ls k (inl e) = inl e
In-append_left (x ∷ ks) ls k (inr i) = inr (In-append_left ks ls k i)

In-append_right : (ks ls : List String) (k : String) → In k ls → In k (ks ++ ls)
In-append_right [] ls k i = i
In-append_right (x ∷ ks) ls k i = inr (In-append_right ks ls k i)

-- Ids once seen stay seen.
next-seen : (s : Watch) (m : InboxItem) (k : String) → In k s.seen → In k (next s m).seen
next-seen s m k i =
    if_cases (λ t. In k t.seen) (has_seen s (id_of m)) s (show s m) (λ y. i) (λ n. inr i)

next_self : (s : Watch) (m : InboxItem) → In (id_of m) (next s m).seen
next_self s m =
    if_cases (λ t. In (id_of m) t.seen) (has_seen s (id_of m)) s (show s m)
      (λ y. any-In s.seen (id_of m) y) (λ n. inl refl)

module _ (start : List String) where
  show-IsWatch : (s : Watch) (m : InboxItem) → IsWatch start s → IsWatch start (next s m)
  show-IsWatch s m w =
      if_cases (IsWatch start) (has_seen s (id_of m)) s (show s m) (λ y. w)
        λ n.
          let absent = λ (i : In (id_of m) (map id_of s.printed ++ start)).
            not-any-In s.seen (id_of m) n (subst (In (id_of m)) (sym w.ids) i) in
          record {
            ids = ap (λ ks. id_of m ∷ ks) w.ids;
            distinct = (λ i. absent (In-append_left _ start _ i), w.distinct);
            fresh = λ k i j. elim i [
              | inl e ↦
                  absent
                    (In-append_right (map id_of s.printed) start _ (subst (λ x. In x start) e j))
              | inr l ↦ w.fresh k l j
            ];
          }

  watch_poll-IsWatch :
      (ms : List InboxItem) (s : Watch) → IsWatch start s → IsWatch start (watch_poll ms s)
  unfolding watch_poll
  watch_poll-IsWatch [] s w = w
  watch_poll-IsWatch (m ∷ ms) s w = watch_poll-IsWatch ms (next s m) (show-IsWatch s m w)

watch_poll-seen :
    (ms : List InboxItem) (s : Watch) (k : String) → In k s.seen → In k (watch_poll ms s).seen
unfolding watch_poll
watch_poll-seen [] s k i = i
watch_poll-seen (m ∷ ms) s k i = watch_poll-seen ms (next s m) k (next-seen s m k i)

watch_poll-all :
    (ms : List InboxItem) (s : Watch) (m : InboxItem)
    → In m ms
    → In (id_of m) (watch_poll ms s).seen
unfolding watch_poll
watch_poll-all [] s m i = elim i [ ]
watch_poll-all (x ∷ ms) s m (inl e) =
    watch_poll-seen ms (next s x) (id_of m)
      (subst (λ y. In (id_of y) (next s x).seen) (sym e) (next_self s x))
watch_poll-all (x ∷ ms) s m (inr i) = watch_poll-all ms (next s x) m i

next-from : (s : Watch) (x m : InboxItem) → In m (next s x).printed → (m ≡ x) ⊎ In m s.printed
next-from s x m =
    if_cases (λ t. In m t.printed → (m ≡ x) ⊎ In m s.printed) (has_seen s (id_of x)) s (show s x)
      (λ y i. inr i) (λ n i. i)

watch_poll-from :
    (ms : List InboxItem) (s : Watch) (m : InboxItem)
    → In m (watch_poll ms s).printed
    → In m ms ⊎ In m s.printed
unfolding watch_poll
watch_poll-from [] s m i = inr i
watch_poll-from (x ∷ ms) s m i = elim (watch_poll-from ms (next s x) m i) [
  | inl j ↦ inl (inr j)
  | inr j ↦ elim (next-from s x m j) [ inl e ↦ inl (inl e) | inr k ↦ inr k ]
]

In-split : (ks ls : List String) (k : String) → In k (ks ++ ls) → In k ks ⊎ In k ls
In-split [] ls k i = inr i
In-split (x ∷ ks) ls k (inl e) = inl (inl e)
In-split (x ∷ ks) ls k (inr i) = elim (In-split ks ls k i) [ inl j ↦ inl (inr j) | inr j ↦ inr j ]

from_here : (i j : ℕ) → i ≤ j → (i ≡ j) ⊎ (suc i ≤ j)
from_here i j l = ground arith

module _ (not_after : String → String → Bool) (hubs : ℕ → Hub) (input : WatchInput) where
  abbrev at : ℕ → List InboxItem
  at = shown not_after hubs input

  loop-IsWatch :
      (start : List String) (n i : ℕ) (s : Watch)
      → IsWatch start s
      → IsWatch start (watch_loop not_after hubs input n i s)
  unfolding watch_loop
  loop-IsWatch start zero i s w = w
  loop-IsWatch start (suc n) i s w =
      loop-IsWatch start n (suc i) (watch_poll (at i) s) (watch_poll-IsWatch start (at i) s w)

  loop-seen :
      (n i : ℕ) (s : Watch) (k : String)
      → In k s.seen
      → In k (watch_loop not_after hubs input n i s).seen
  unfolding watch_loop
  loop-seen zero i s k e = e
  loop-seen (suc n) i s k e =
      loop-seen n (suc i) (watch_poll (at i) s) k (watch_poll-seen (at i) s k e)

  loop-all :
      (n i j : ℕ) (s : Watch) (m : InboxItem)
      → i ≤ j
      → j < i + n
      → In m (at j)
      → In (id_of m) (watch_loop not_after hubs input n i s).seen
  unfolding watch_loop
  loop-all zero i j s m l k e = absurd (omega arith)
  loop-all (suc n) i j s m l k e = elim (from_here i j l) [
    | inl same ↦
        loop-seen n (suc i) (watch_poll (at i) s) (id_of m)
          (watch_poll-all (at i) s m (subst (λ x. In m (at x)) (sym same) e))
    | inr later ↦ loop-all n (suc i) j (watch_poll (at i) s) m (omega arith) (omega arith) e
  ]

  loop-from :
      (n i : ℕ) (s : Watch) (m : InboxItem)
      → In m (watch_loop not_after hubs input n i s).printed
      → In m s.printed ⊎ ((j : ℕ) × (i ≤ j) × (j < i + n) × In m (at j))
  unfolding watch_loop
  loop-from zero i s m e = inl e
  loop-from (suc n) i s m e = elim (loop-from n (suc i) (watch_poll (at i) s) m e) [
    | inl k ↦ elim (watch_poll-from (at i) s m k) [
      | inl here ↦ inr (i, omega arith, omega arith, here)
      | inr old ↦ inl old
    ]
    | inr (j, l, u, k) ↦ inr (j, omega arith, omega arith, k)
  ]

  -- What `n` polls printed, against what was listed at the start and at each of them.
  pub record Printed (n : ℕ) (s : Watch) : Type 0 where
    pub distinct : Distinct (map id_of s.printed)
    pub fresh : (k : String) → In k (map id_of s.printed) → In k (map id_of (at 0)) → ⊥
    pub all :
        (j : ℕ) (m : InboxItem)
        → 1 ≤ j
        → j ≤ n
        → In m (at j)
        → In (id_of m) (map id_of s.printed) ⊎ In (id_of m) (map id_of (at 0))
    pub only : (m : InboxItem) → In m s.printed → (j : ℕ) × (1 ≤ j) × (j ≤ n) × In m (at j)

  -- A watch prints no message twice and none that was there at its start, it has printed every other
  -- message that any of its polls lists, and it prints only messages that one of its polls lists.
  pub watch_mail-Printed : (n : ℕ) → Printed n (watch_mail not_after hubs input n)
  unfolding watch_mail
  watch_mail-Printed n =
      let start = map id_of (at 0) in
      let begin : Watch = record { printed = []; seen = start } in
      let w =
        loop-IsWatch start n 1 begin (record { ids = refl; distinct = tt; fresh = λ k i j. i }) in
      record {
        distinct = w.distinct;
        fresh = w.fresh;
        all = λ j m l u e.
            In-split (map id_of (watch_loop not_after hubs input n 1 begin).printed) start (id_of m)
              (subst (In (id_of m)) w.ids (loop-all n 1 j begin m l (omega arith) e));
        only = λ m e. elim (loop-from n 1 begin m e) [
          | inl none_yet ↦ absurd none_yet
          | inr (j, l, u, k) ↦ (j, l, omega arith, k)
        ];
      }
