-- ===== src/Participants/Maps.antt =====
-- The maps by unit id that `syncParticipants` of packages/cyberlegion/src/participants.ts builds first.
use Prim.Native.Char.{code}
use text.Mathlib.TextEquality.{Char-path}
use text.Mathlib.TextLemmas.{cons-append, nil-append}
use cyberlegion.Prelude.{
  String, ◌==◌, nat_eq, nat_eq_iff, eq_iff, if◌then◌else◌, Option, none, some, List, [], ◌∷◌, ◌<>◌,
  ◌≡◌, inl, inr, refl, sym, ap, ◌∙◌, In, Bool-cases, Option-cases, some-injective, arith,
}
use cyberlegion.Prelude.Dict
use cyberlegion.Prelude.Dict.{Dict}
use cyberlegion.Prelude.Prefix.{after_prefix}
use cyberlegion.Hub.Types.{AgentRecord}
use cyberlegion.Participants.Store.{Cynapse, CynapseLaws, Participant}
use cyberlegion.Participants.{mine_from, add_mine, units_from, unit_prefix, unit_key, runtime_key}

-- A text after its own prefix.
after_prefix-append : (p s : String) → after_prefix p (p <> s) ≡ some s
unfolding after_prefix
after_prefix-append String.[] s = ap some (nil-append s)
after_prefix-append (String.◌∷◌ c p) s =
    ap (after_prefix (String.◌∷◌ c p)) (cons-append c p s)
    ∙ ground (arith, nat_eq_iff (code c) (code c), after_prefix-append p s)

after_prefix-some : (p s r : String) → after_prefix p s ≡ some r → s ≡ p <> r
unfolding after_prefix
after_prefix-some String.[] s r e = some-injective e ∙ sym (nil-append r)
after_prefix-some (String.◌∷◌ c p) String.[] r e = absurd (ground arith)
after_prefix-some (String.◌∷◌ c p) (String.◌∷◌ d s) r e =
    elim (Bool-cases (nat_eq (code c) (code d))) [
      | inl y ↦
          let rest : s ≡ p <> r = after_prefix-some p s r (ground (arith, e, y)) in
          let same : c ≡ d = Char-path c d ((nat_eq_iff (code c) (code d)).0 y) in
          rw (rest, ← same) (sym (cons-append c p r))
      | inr n ↦ absurd (ground (arith, e, n))
    ]

-- Keys that stand once.
abbrev pub Distinct : {V : Type 0} → Dict V → Type 0
Distinct [] = Unit
Distinct ((k, v) ∷ m) = (Dict.get m k ≡ none) × Distinct m

put-Distinct :
    {V : Type 0} (m : Dict V) (k : String) (v : V) → Distinct m → Distinct (Dict.put m k v)
unfolding Dict.get Dict.put
put-Distinct [] k v d = (refl, tt)
put-Distinct ((j, w) ∷ m) k v (n, d) = elim (Bool-cases (j == k)) [
  | inl y ↦ let same : j ≡ k = (eq_iff j k).0 y in rw y (rw (← same) n, d)
  | inr o ↦
      rw o
        (Dict.get-put m k j v ∙ ground (arith, n, o, eq_iff k j, eq_iff j k), put-Distinct m k v d)
]

-- Each record under its own id.
abbrev pub Keyed : Dict AgentRecord → Type 0
Keyed [] = Unit
Keyed ((k, r) ∷ m) = (r.id ≡ k) × Keyed m

put-Keyed : (m : Dict AgentRecord) (r : AgentRecord) → Keyed m → Keyed (Dict.put m r.id r)
unfolding Dict.put
put-Keyed [] r h = (refl, tt)
put-Keyed ((j, w) ∷ m) r (n, h) = elim (Bool-cases (j == r.id)) [
  | inl y ↦ rw y (refl, h)
  | inr o ↦ rw o (n, put-Keyed m r h)
]

pub units_from-Keyed :
    (rs : List AgentRecord) (m : Dict AgentRecord)
    → Keyed m
    → Distinct m
    → Keyed (units_from m rs) × Distinct (units_from m rs)
unfolding units_from
units_from-Keyed [] m h d = (h, d)
units_from-Keyed (r ∷ rs) m h d =
    units_from-Keyed rs (Dict.put m r.id r) (put-Keyed m r h) (put-Distinct m r.id r d)

module _ {X : Type 0} (c : Cynapse X) (laws : CynapseLaws c) (x : X) (by : String) where
  -- Each entry is the participant of the unit's key, registered by `by`.
  abbrev pub Sound : Dict Participant → Type 0
  Sound m =
      (i : String) (p : Participant)
      → Dict.get m i ≡ some p
      → (c.by_key x (unit_key i) ≡ some p) × (p.registered_by ≡ some by)

  add_mine-Sound :
      (m : Dict Participant) (p : Participant) (o : Option String)
      → In p (c.participants by x)
      → p.key ≡ o
      → Sound m
      → Sound (add_mine m p o)
  unfolding add_mine after_prefix
  add_mine-Sound m p none n e h = h
  add_mine-Sound m p (some key) n e h = elim (Option-cases (after_prefix unit_prefix key)) [
    | inl other ↦ rw other h
    | inr (id, after) ↦ rw after λ i q g.
        let own : key ≡ unit_key id = after_prefix-some unit_prefix key id after in
        let at : Dict.get (Dict.put m id p) i ≡ (if id == i then some p else Dict.get m i) =
          Dict.get-put m id i p in
        elim (Bool-cases (id == i)) [
          | inl y ↦
              let same : id ≡ i = (eq_iff id i).0 y in
              let it : p ≡ q = some-injective (rw (at, y) at g) in
              rw (← it, ← same, ← own) (laws.listed x by key p n e)
          | inr o ↦ h i q (rw (at, o) at g)
        ]
  ]

  mine_from-Sound :
      (ps : List Participant) (m : Dict Participant)
      → ((p : Participant) → In p ps → In p (c.participants by x))
      → Sound m
      → Sound (mine_from m ps)
  unfolding mine_from
  mine_from-Sound [] m k h = h
  mine_from-Sound (p ∷ ps) m k h =
      mine_from-Sound ps (add_mine m p p.key) (λ q n. k q (inr n))
        (add_mine-Sound m p p.key (k p (inl refl)) refl h)

  abbrev Has : Dict Participant → String → Type 0
  Has m i = (p : Participant) × (Dict.get m i ≡ some p)

  put-Has :
      (m : Dict Participant) (k i : String) (p : Participant) → Has m i → Has (Dict.put m k p) i
  put-Has m k i p (q, e) = elim (Bool-cases (k == i)) [
    | inl y ↦ (p, Dict.get-put m k i p ∙ ground (arith, y))
    | inr n ↦ (q, Dict.get-put m k i p ∙ ground (arith, n, e))
  ]

  add_mine-Has :
      (m : Dict Participant) (i : String) (p : Participant) (o : Option String)
      → Has m i
      → Has (add_mine m p o) i
  unfolding add_mine after_prefix
  add_mine-Has m i p none h = h
  add_mine-Has m i p (some key) h = elim (Option-cases (after_prefix unit_prefix key)) [
    | inl other ↦ rw other h
    | inr (id, after) ↦ rw after (put-Has m id i p h)
  ]

  mine_from-Has :
      (ps : List Participant) (m : Dict Participant) (i : String) → Has m i → Has (mine_from m ps) i
  unfolding mine_from
  mine_from-Has [] m i h = h
  mine_from-Has (p ∷ ps) m i h = mine_from-Has ps _ i (add_mine-Has m i p p.key h)

  add_mine-key :
      (m : Dict Participant) (i : String) (p : Participant) (o : Option String)
      → o ≡ some (unit_key i)
      → Has (add_mine m p o) i
  unfolding add_mine after_prefix
  add_mine-key m i p none e = absurd (ground (arith, e))
  add_mine-key m i p (some key) e =
      let found : after_prefix unit_prefix key ≡ some i =
        ap (after_prefix unit_prefix) (some-injective e) ∙ after_prefix-append unit_prefix i in
      rw found (p, Dict.get-put m i i p ∙ ground (arith, eq_iff i i))

  mine_from-In :
      (ps : List Participant) (m : Dict Participant) (i : String) (p : Participant)
      → In p ps
      → p.key ≡ some (unit_key i)
      → Has (mine_from m ps) i
  unfolding mine_from add_mine after_prefix
  mine_from-In [] m i p n e = elim n [ ]
  mine_from-In (q ∷ ps) m i p (inr n) e = mine_from-In ps _ i p n e
  mine_from-In (q ∷ ps) m i p (inl same) e =
      mine_from-Has ps _ i
        (add_mine-key m i q q.key (ap (λ (z : Participant). z.key) (sym same) ∙ e))

  mine_from-Distinct :
      (ps : List Participant) (m : Dict Participant) → Distinct m → Distinct (mine_from m ps)
  unfolding mine_from add_mine after_prefix
  mine_from-Distinct [] m d = d
  mine_from-Distinct (p ∷ ps) m d = mine_from-Distinct ps _ (go p.key)
    where
      go : (o : Option String) → Distinct (add_mine m p o)
      go none = d
      go (some key) = elim (Option-cases (after_prefix unit_prefix key)) [
        | inl other ↦ rw other d
        | inr (id, after) ↦ rw after (put-Distinct m id p d)
      ]

  abbrev pub mine : Dict Participant
  mine = mine_from [] (c.participants by x)

  pub mine-Distinct : Distinct mine
  mine-Distinct = mine_from-Distinct (c.participants by x) [] tt

  pub mine-Sound : Sound mine
  unfolding Dict.get
  mine-Sound =
      mine_from-Sound (c.participants by x) [] (λ p n. n) (λ i p g. absurd (ground (arith, g)))

  pub mine-some :
      (i : String) (p : Participant)
      → c.by_key x (unit_key i) ≡ some p
      → p.registered_by ≡ some by
      → Dict.get mine i ≡ some p
  mine-some i p e own =
      let (q, g) =
        mine_from-In (c.participants by x) [] i p (laws.lists x by (unit_key i) p e own)
          (laws.keyed x (unit_key i) p e) in
      g ∙ ap some (some-injective (sym (mine-Sound i q g).0 ∙ e))

-- The hub's own key is no unit's, and units have keys of their own.
pub unit_key-injective : (i j : String) → unit_key i ≡ unit_key j → i ≡ j
unit_key-injective i j e = some-injective (
    sym (after_prefix-append unit_prefix i)
    ∙ ap (after_prefix unit_prefix) e
    ∙ after_prefix-append unit_prefix j)

abbrev joined : String → String → String
joined String.[] s = s
joined (String.◌∷◌ c p) s = String.◌∷◌ c (joined p s)

append-joined : (p s : String) → p <> s ≡ joined p s
append-joined String.[] s = nil-append s
append-joined (String.◌∷◌ c p) s = cons-append c p s ∙ ap (String.◌∷◌ c) (append-joined p s)

after_prefix-runtime_key : (d : String) → after_prefix unit_prefix (runtime_key d) ≡ none
unfolding after_prefix
after_prefix-runtime_key d = ap (after_prefix unit_prefix) (append-joined "cyberlegion:hub/" d)

pub runtime_key-unit_key : (d i : String) → runtime_key d ≡ unit_key i → ⊥
runtime_key-unit_key d i e =
    let both : none ≡ some i =
      sym (after_prefix-runtime_key d)
      ∙ ap (after_prefix unit_prefix) e
      ∙ after_prefix-append unit_prefix i in
    ground (arith, both)
