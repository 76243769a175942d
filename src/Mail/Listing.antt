-- ===== src/Mail/Listing.antt =====
-- `inbox` of packages/cyberlegion/src/message.ts: what a listing shows.
use cyberlegion.Prelude.{
  String, Bool, true, false, List, [], ◌∷◌, ◌++◌, map, filter, ◌≡◌, ◌⊎◌, ◌↔◌, inl, inr, refl, sym,
  ap, ◌∙◌, In, In-filter, filter-In,
}
use cyberlegion.Prelude.Sort.{In-sort}
use cyberlegion.Hub.Types.{Hub, Message}
use cyberlegion.Hub.Mailbox.{list_inbox}
use cyberlegion.Identity.Presence.{nonempty}
use cyberlegion.Mail.{InboxItem, InboxQuery, inbox, item, from_passes, thread_passes, all_items}

In-append : {A : Type 0} (xs ys : List A) (a : A) → In a (xs ++ ys) ↔ (In a xs ⊎ In a ys)
In-append [] ys a = (λ i. inr i, λ s. elim s [ inl z ↦ absurd z | inr i ↦ i ])
In-append (x ∷ xs) ys a =
    let ih = In-append xs ys a in
    (
      λ i. elim i [
        | inl q ↦ inl (inl q)
        | inr j ↦ elim (ih.0 j) [ inl k ↦ inl (inr k) | inr k ↦ inr k ]
      ],
      λ s. elim s [
        | inl i ↦ elim i [ inl q ↦ inl q | inr j ↦ inr (ih.1 (inl j)) ]
        | inr j ↦ inr (ih.1 (inr j))
      ],
    )

-- What stands in a mapped list is the image of a member, and the other way round.
map-In :
    {A B : Type 0} (f : A → B) (xs : List A) (b : B)
    → In b (map f xs)
    → (a : A) × (In a xs × (b ≡ f a))
map-In f [] b i = elim i [ ]
map-In f (x ∷ xs) b (inl q) = (x, (inl refl, q))
map-In f (x ∷ xs) b (inr i) = let (a, (j, e)) = map-In f xs b i in (a, (inr j, e))

In-map : {A B : Type 0} (f : A → B) (xs : List A) (a : A) → In a xs → In (f a) (map f xs)
In-map f [] a i = elim i [ ]
In-map f (x ∷ xs) a (inl q) = inl (ap f q)
In-map f (x ∷ xs) a (inr i) = inr (In-map f xs a i)

-- The item is an unread message of the inbox or, where read ones are asked for, a read one.
abbrev pub IsListed : Hub → InboxQuery → InboxItem → Type 0
IsListed h q i =
    ((m : Message) × (In m (list_inbox h q.me_id).unread × (i ≡ item false m)))
    ⊎ ((q.unread ≡ false)
        × ((m : Message) × (In m (list_inbox h q.me_id).read × (i ≡ item true m))))

abbrev Passes : InboxQuery → InboxItem → Type 0
Passes q i = (from_passes (nonempty q.from) i ≡ true) × (thread_passes (nonempty q.thread) i ≡ true)

module _ (h : Hub) (q : InboxQuery) (i : InboxItem) where
  all_items-IsListed :
      (unread : Bool)
      → q.unread ≡ unread
      → In i (all_items (list_inbox h q.me_id) unread)
      → IsListed h q i
  all_items-IsListed true e m = elim ((In-append _ _ i).0 m) [
    | inl j ↦ inl (map-In (item false) _ i j)
    | inr j ↦ absurd j
  ]
  all_items-IsListed false e m = elim ((In-append _ _ i).0 m) [
    | inl j ↦ inl (map-In (item false) _ i j)
    | inr j ↦ inr (e, map-In (item true) _ i j)
  ]

  IsListed-all_items :
      (unread : Bool)
      → q.unread ≡ unread
      → IsListed h q i
      → In i (all_items (list_inbox h q.me_id) unread)
  IsListed-all_items unread e (inl (m, (j, p))) =
      rw p ((In-append _ _ (item false m)).1 (inl (In-map (item false) _ m j)))
  IsListed-all_items unread e (inr (u, (m, (j, p)))) =
      let f : unread ≡ false = sym e ∙ u in
      rw (p, f) ((In-append _ _ (item true m)).1 (inr (In-map (item true) _ m j)))

  -- A listing shows a message exactly when it is in the inbox, unread or, unless only unread mail is
  -- asked for, read, and it passes the sender and the thread filter, an empty filter being none; it
  -- shows it as unread or read as it is.
  pub inbox_lem :
      (not_after : String → String → Bool)
      → In i (inbox not_after h q) ↔ (IsListed h q i × Passes q i)
  unfolding inbox
  inbox_lem not_after =
      let all = all_items (list_inbox h q.me_id) q.unread in
      let from = from_passes (nonempty q.from) in
      let thread = thread_passes (nonempty q.thread) in
      (
        λ m.
            let a = In-filter thread (filter from all) i ((In-sort _ _ i).0 m) in
            let b = In-filter from all i a.0 in (all_items-IsListed q.unread refl b.0, (b.1, a.1)),
        λ m. (In-sort _ _ i).1 (
            filter-In thread (filter from all) i
              (filter-In from all i (IsListed-all_items q.unread refl m.0) m.1.0) m.1.1),
      )
