-- ===== src/Participants/Memory.antt =====
-- A cynapse store in memory, for packages/cyberlegion/src/participants.ts: its participants by key, the
-- key being the id as well. It has the laws that the synchronisation relies on.
use cyberlegion.Prelude.{
  String, Bool, true, false, ◌==◌, eq_iff, eq_refl, opt_is, opt_is_iff, if◌then◌else◌, Option, none,
  some, List, [], ◌∷◌, In, ◌≡◌, ◌⊎◌, inl, inr, refl, sym, ap, subst, ◌∙◌, Bool-cases,
  some-injective, arith,
}
use cyberlegion.Prelude.Dict
use cyberlegion.Prelude.Dict.{Dict}
use cyberlegion.Exec.{Exec, Result, ok, err, no_match, ok-injective}
use cyberlegion.Participants.Store.{
  Cynapse, CynapseLaws, Participant, ParticipantStatus, ParticipantKind, Registration,
}
use cyberlegion.Participants.{is_live}

pub record Entry : Type 0 where
  pub kind : ParticipantKind
  pub name : String
  pub status : ParticipantStatus
  pub registered_by : Option String

abbrev view : String → Entry → Participant
view k e = record {
  id = k;
  key = some k;
  kind = e.kind;
  name = e.name;
  status = e.status;
  registered_by = e.registered_by;
}

abbrev seen : String → Option Entry → Option Participant
seen k none = none
seen k (some e) = some (view k e)

abbrev at_key : Dict Entry → String → Option Participant
at_key x k = seen k (Dict.get x k)

abbrev saves : String → Entry → Exec (Dict Entry) Participant
saves k e x = (ok (view k e), Dict.put x k e)

abbrev enter : Registration → Option Entry → Exec (Dict Entry) Participant
enter i none = saves i.key (record {
  kind = i.kind;
  name = i.name;
  status = ParticipantStatus.live;
  registered_by = i.registered_by;
})
enter i (some e) =
    if is_live e.status
    then (λ x. (ok (view i.key e), x))
    else saves i.key (record e { status = ParticipantStatus.live })

abbrev change : String → (Entry → Entry) → Option Entry → Exec (Dict Entry) (Unit {0})
change k f none x = (err no_match, x)
change k f (some e) x = (ok tt, Dict.put x k (f e))

abbrev add_by : String → Option Participant → List Participant → List Participant
add_by by none ps = ps
add_by by (some p) ps = if opt_is p.registered_by by then p ∷ ps else ps

abbrev listing : String → Dict Entry → Dict Entry → List Participant
listing by x [] = []
listing by x ((k, e) ∷ entries) = add_by by (at_key x k) (listing by x entries)

abbrev pub memory : Cynapse (Dict Entry)
memory = record {
  register = λ i x. enter i (Dict.get x i.key) x;
  participants = λ by x. listing by x x;
  rename = λ id name by x. change id (λ e. record e { name = name }) (Dict.get x id) x;
  retire =
      λ id by x. change id (λ e. record e { status = ParticipantStatus.retired }) (Dict.get x id) x;
  by_key = at_key;
}

at_key-put :
    (x : Dict Entry) (k j : String) (e : Entry)
    → at_key (Dict.put x k e) j ≡ (if k == j then some (view k e) else at_key x j)
at_key-put x k j e = elim (Bool-cases (k == j)) [
  | inl y ↦
      ap (seen j) (Dict.get-put x k j e) ∙ rw y (ap (λ i. some (view i e)) (sym ((eq_iff k j).0 y)))
  | inr n ↦ ap (seen j) (Dict.get-put x k j e) ∙ rw n refl
]

at_key_same :
    (x : Dict Entry) (k j : String) (p : Participant)
    → at_key x k ≡ some p
    → at_key x j ≡ (if k == j then some p else at_key x j)
at_key_same x k j p e = elim (Bool-cases (k == j)) [
  | inl y ↦ rw y (ap (at_key x) (sym ((eq_iff k j).0 y)) ∙ e)
  | inr n ↦ rw n refl
]

view-live : (e : Entry) → is_live e.status ≡ true → e.status ≡ ParticipantStatus.live
view-live e l = go e.status l
  where
    go : (s : ParticipantStatus) → is_live s ≡ true → s ≡ ParticipantStatus.live
    go ParticipantStatus.live l = refl
    go ParticipantStatus.retired l = absurd (ground (arith, l))

saves_lem :
    (k : String) (e : Entry) (x y : Dict Entry) (p : Participant)
    → saves k e x ≡ (ok p, y)
    → (view k e ≡ p) × (Dict.put x k e ≡ y)
saves_lem k e x y p run = (ok-injective (ap (λ w. w.0) run), ap (λ w. w.1) run)

enter_sets :
    (i : Registration) (o : Option Entry) (x y : Dict Entry) (p : Participant)
    → Dict.get x i.key ≡ o
    → enter i o x ≡ (ok p, y)
    → (p.status ≡ ParticipantStatus.live)
      × ((j : String) → at_key y j ≡ (if i.key == j then some p else at_key x j))
enter_sets i none x y p e run =
    let (same, there) = saves_lem i.key _ x y p run in
    rw (← same, ← there) (refl, λ j. at_key-put x i.key j _)
enter_sets i (some o) x y p e run = go (is_live o.status) refl run
  where
    go :
        (l : Bool)
        → is_live o.status ≡ l
        → (if l
              then (λ x. (ok (view i.key o), x))
              else saves i.key (record o { status = ParticipantStatus.live }))
            x
          ≡ (ok p, y)
        → (p.status ≡ ParticipantStatus.live)
          × ((j : String) → at_key y j ≡ (if i.key == j then some p else at_key x j))
    go true l t =
        let same : view i.key o ≡ p = ok-injective (ap (λ w. w.0) t) in
        let there : x ≡ y = ap (λ w. w.1) t in
        rw (← same, ← there)
          (view-live o l, λ j. at_key_same x i.key j (view i.key o) (ap (seen i.key) e))
    go false l t =
        let (same, there) = saves_lem i.key _ x y p t in
        rw (← same, ← there) (refl, λ j. at_key-put x i.key j _)

enter_owner :
    (i : Registration) (o : Option Entry) (x y : Dict Entry) (p : Participant)
    → enter i o x ≡ (ok p, y)
    → ((o ≡ none) × (p.registered_by ≡ i.registered_by))
      ⊎ ((e : Entry) × (o ≡ some e) × (p.registered_by ≡ e.registered_by))
enter_owner i none x y p run =
    let (same, there) = saves_lem i.key _ x y p run in
    inl (refl, ap (λ (q : Participant). q.registered_by) (sym same))
enter_owner i (some o) x y p run = elim (Bool-cases (is_live o.status)) [
  | inl l ↦
      let t : ◌≡◌ {A = Result Participant × Dict Entry} (ok (view i.key o), x) (ok p, y) =
        rw l at run in
      let same : view i.key o ≡ p = ok-injective (ap (λ w. w.0) t) in
      inr (o, refl, ap (λ (q : Participant). q.registered_by) (sym same))
  | inr n ↦
      let (same, there) = saves_lem i.key _ x y p (rw n at run) in
      inr (o, refl, ap (λ (q : Participant). q.registered_by) (sym same))
]

seen-none : (k : String) (o : Option Entry) → seen k o ≡ none → o ≡ none
seen-none k none e = refl
seen-none k (some o) e = absurd (ground (arith, e))

seen-some :
    (k : String) (o : Option Entry) (p : Participant)
    → seen k o ≡ some p
    → (e : Entry) × (o ≡ some e) × (view k e ≡ p)
seen-some k none p e = absurd (ground (arith, e))
seen-some k (some o) p e = (o, refl, some-injective e)

change_sets :
    (k : String) (f : Entry → Entry) (x y : Dict Entry) (o : Entry)
    → Dict.get x k ≡ some o
    → change k f (Dict.get x k) x ≡ (ok tt, y)
    → (j : String) → at_key y j ≡ (if k == j then some (view k (f o)) else at_key x j)
change_sets k f x y o e run j =
    let there : Dict.put x k (f o) ≡ y = ap (λ w. w.1) (rw e at run) in
    rw (← there) (at_key-put x k j (f o))

enter_live :
    (i : Registration) (e : Entry) (x : Dict Entry)
    → is_live e.status ≡ true
    → enter i (some e) x ≡ (ok (view i.key e), x)
enter_live i e x l = rw l refl

change_own :
    (k : String) (f : Entry → Entry) (x y : Dict Entry) (o : Entry) (p : Participant)
    → Dict.get x k ≡ some o
    → view k o ≡ p
    → change p.id f (Dict.get x p.id) x ≡ (ok tt, y)
    → (j : String) → at_key y j ≡ (if k == j then some (view k (f o)) else at_key x j)
change_own k f x y o p e same run =
    let id : p.id ≡ k = ap (λ (z : Participant). z.id) (sym same) in
    change_sets k f x y o e (subst (λ w. change w f (Dict.get x w) x ≡ (ok tt, y)) id run)

add_by-In :
    (by : String) (o : Option Participant) (ps : List Participant) (p : Participant)
    → In p (add_by by o ps)
    → ((o ≡ some p) × (p.registered_by ≡ some by)) ⊎ In p ps
add_by-In by none ps p n = inr n
add_by-In by (some q) ps p n = elim (Bool-cases (opt_is q.registered_by by)) [
  | inl y ↦ elim (rw y at n) [
    | inl same ↦ inl (
      ap some (sym same),
      ap (λ (z : Participant). z.registered_by) same ∙ (opt_is_iff q.registered_by by).0 y,
    )
    | inr m ↦ inr m
  ]
  | inr k ↦ inr (rw k at n)
]

listing-In :
    (by : String) (x entries : Dict Entry) (p : Participant)
    → In p (listing by x entries)
    → (k : String) × (at_key x k ≡ some p) × (p.registered_by ≡ some by)
listing-In by x [] p n = elim n [ ]
listing-In by x ((k, e) ∷ entries) p n =
    elim (add_by-In by (at_key x k) (listing by x entries) p n) [
      | inl (at, own) ↦ (k, at, own)
      | inr m ↦ listing-In by x entries p m
    ]

In-add_by :
    (by : String) (o : Option Participant) (ps : List Participant) (p : Participant)
    → In p ps
    → In p (add_by by o ps)
In-add_by by none ps p n = n
In-add_by by (some q) ps p n = elim (Bool-cases (opt_is q.registered_by by)) [
  | inl y ↦ rw y (inr n)
  | inr k ↦ rw k n
]

In-listing :
    (by : String) (x entries : Dict Entry) (k : String) (e : Entry) (p : Participant)
    → Dict.get entries k ≡ some e
    → at_key x k ≡ some p
    → p.registered_by ≡ some by
    → In p (listing by x entries)
unfolding Dict.get
In-listing by x [] k e p g at own = absurd (ground (arith, g))
In-listing by x ((j, d) ∷ entries) k e p g at own = elim (Bool-cases (j == k)) [
  | inl y ↦
      let same : at_key x j ≡ some p = ap (at_key x) ((eq_iff j k).0 y) ∙ at in
      rw (same, own, eq_refl by) (inl refl)
  | inr n ↦
      In-add_by by (at_key x j) (listing by x entries) p
        (In-listing by x entries k e p (rw n at g) at own)
]

key_of-view : (k : String) (e : Entry) (p : Participant) → view k e ≡ p → p.key ≡ some k
key_of-view k e p q = ap (λ (z : Participant). z.key) (sym q)

pub memory_laws : CynapseLaws memory
memory_laws = record {
  registers = λ i x y p run. enter_sets i (Dict.get x i.key) x y p refl run;
  registers_new = λ i x y p run new. elim (enter_owner i (Dict.get x i.key) x y p run) [
    | inl (n, e) ↦ e
    | inr (o, s, e) ↦ absurd (ground (arith, sym (seen-none i.key _ new) ∙ s))
  ];
  registers_old = λ i x y p q run old.
      let (d, s, same) = seen-some i.key (Dict.get x i.key) q old in
      elim (enter_owner i (Dict.get x i.key) x y p run) [
        | inl (n, e) ↦ absurd (ground (arith, sym n ∙ s))
        | inr (o, t, e) ↦
            e
            ∙ ap (λ (z : Entry). z.registered_by) (some-injective (sym t ∙ s))
            ∙ ap (λ (z : Participant). z.registered_by) same
      ];
  registers_live = λ i x p at up.
      let (d, s, same) = seen-some i.key (Dict.get x i.key) p at in
      let live_entry : d.status ≡ ParticipantStatus.live =
        ap (λ (z : Participant). z.status) same ∙ up in
      ap (λ o. enter i o x) s ∙ enter_live i d x (ap is_live live_entry) ∙ ap (λ w. (ok w, x)) same;
  renames = λ k name by x y p at run.
      let (d, s, same) = seen-some k (Dict.get x k) p at in
      λ j.
        change_own k (λ e. record e { name = name }) x y d p s same run j
        ∙ ap (λ q. if k == j then some q else at_key x j)
            (ap (λ (q : Participant). record q { name = name }) same);
  retires = λ k by x y p at run.
      let (d, s, same) = seen-some k (Dict.get x k) p at in
      λ j.
        change_own k (λ e. record e { status = ParticipantStatus.retired }) x y d p s same run j
        ∙ ap (λ q. if k == j then some q else at_key x j)
            (ap (λ (q : Participant). record q { status = ParticipantStatus.retired }) same);
  lists = λ x by k p at own.
      let (d, s, same) = seen-some k (Dict.get x k) p at in In-listing by x x k d p s at own;
  listed = λ x by k p n e.
      let (j, at, own) = listing-In by x x p n in
      let (d, s, same) = seen-some j (Dict.get x j) p at in
      let it : j ≡ k = some-injective (sym (key_of-view j d p same) ∙ e) in
      (subst (λ w. at_key x w ≡ some p) it at, own);
  keyed = λ x k p at. let (d, s, same) = seen-some k (Dict.get x k) p at in key_of-view k d p same;
}
