-- ===== src/Resource/Groups.antt =====
-- resource.go: what `ByFallbackPriority` returns.
use ffstream.Base.{
  ℕ, ◌<◌, ◌≡◌, refl, ◌∙◌, ap₂, map, Bool, true, false, List, [], ◌∷◌, ◌++◌, append_assoc,
  append-nil, arith, snoc, ◌==◌, ◌||◌, inl, inr, Bool-cases, if◌then◌else◌, All,
}
use ffstream.Resource.{
  Resource, get_fallback_priority, GroupMap, group_at, append_at, seen, collect_groups, insert,
  sort, groups_in_order, by_fallback_priority,
}

-- The resources of one priority, in their order.
unfoldable pub of_priority : ℕ → List Resource → List Resource
of_priority p [] = []
of_priority p (r ∷ rs) =
    let rest = of_priority p rs in if get_fallback_priority r == p then r ∷ rest else rest

group_at-append_at :
    (groups : GroupMap) (p q : ℕ) (r : Resource)
    → group_at (append_at groups p r) q
      ≡ (if p == q then snoc (group_at groups q) r else group_at groups q)
unfolding group_at append_at
group_at-append_at [] p q r = ground arith
group_at-append_at ((k, rs) ∷ groups) p q r = ground (arith, group_at-append_at groups p q r)

group_at-collect_groups :
    (rs : List Resource) (groups : GroupMap) (ps : List ℕ) (q : ℕ)
    → group_at (collect_groups rs groups ps).0 q ≡ group_at groups q ++ of_priority q rs
unfolding collect_groups of_priority
group_at-collect_groups [] groups ps q = rw append-nil
group_at-collect_groups (r ∷ rs) groups ps q = ground (
  arith,
  group_at-collect_groups rs (append_at groups (get_fallback_priority r) r)
      (if seen ps (get_fallback_priority r) then ps else snoc ps (get_fallback_priority r)) q,
  group_at-append_at groups (get_fallback_priority r) q r,
  append_assoc {0} (group_at groups q) (r ∷ []) (of_priority q rs),
)

-- Some resource has the priority.
unfoldable pub occurs : ℕ → List Resource → Bool
occurs p [] = false
occurs p (r ∷ rs) = get_fallback_priority r == p || occurs p rs

abbrev pub IsAscending : List ℕ → Type 0
IsAscending [] = Unit {0}
IsAscending (p ∷ ps) = All (λ q. p < q) ps × IsAscending ps

abbrev IsDistinct : List ℕ → Type 0
IsDistinct [] = Unit {0}
IsDistinct (p ∷ ps) = (seen ps p ≡ false) × IsDistinct ps

seen-snoc : (ps : List ℕ) (p q : ℕ) → seen (snoc ps p) q ≡ (seen ps q || p == q)
unfolding seen
seen-snoc [] p q = ground arith
seen-snoc (k ∷ ps) p q = ground (arith, seen-snoc ps p q)

seen-collect_groups :
    (rs : List Resource) (groups : GroupMap) (ps : List ℕ) (q : ℕ)
    → seen (collect_groups rs groups ps).1 q ≡ (seen ps q || occurs q rs)
unfolding collect_groups occurs
seen-collect_groups [] groups ps q = ground arith
seen-collect_groups (r ∷ rs) groups ps q =
    let p = get_fallback_priority r in
    elim (Bool-cases (seen ps p)) [
      | inl old ↦
          rw (old, collect_groups)
            (ground (arith, seen-collect_groups rs (append_at groups p r) ps q))
      | inr new ↦
          rw (new, collect_groups)
            (ground (
              arith,
              seen-collect_groups rs (append_at groups p r) (snoc ps p) q,
              seen-snoc ps p q,
            ))
    ]

snoc-IsDistinct : (ps : List ℕ) (p : ℕ) → IsDistinct ps → seen ps p ≡ false → IsDistinct (snoc ps p)
unfolding seen
snoc-IsDistinct [] p d h = (refl, tt)
snoc-IsDistinct (k ∷ ps) p d h = ground (arith, snoc-IsDistinct ps p d.1, seen-snoc ps p k)

collect_groups-IsDistinct :
    (rs : List Resource) (groups : GroupMap) (ps : List ℕ)
    → IsDistinct ps
    → IsDistinct (collect_groups rs groups ps).1
unfolding collect_groups
collect_groups-IsDistinct [] groups ps d = d
collect_groups-IsDistinct (r ∷ rs) groups ps d =
    collect_groups-IsDistinct rs _
      (if seen ps (get_fallback_priority r) then ps else snoc ps (get_fallback_priority r))
      (added (get_fallback_priority r) (seen ps (get_fallback_priority r)) refl)
  where
    added : (p : ℕ) (b : Bool) → seen ps p ≡ b → IsDistinct (if b then ps else snoc ps p)
    added p true e = d
    added p false e = snoc-IsDistinct ps p d e

seen-insert : (p : ℕ) (qs : List ℕ) (q : ℕ) → seen (insert p qs) q ≡ (p == q || seen qs q)
unfolding seen insert
seen-insert p [] q = refl
seen-insert p (k ∷ qs) q = ground (arith, seen-insert p qs q)

seen-sort : (ps : List ℕ) (q : ℕ) → seen (sort ps) q ≡ seen ps q
unfolding seen sort
seen-sort [] q = refl
seen-sort (p ∷ ps) q = ground (arith, seen-insert p (sort ps) q, seen-sort ps q)

All-gt-insert :
    (k p : ℕ) (qs : List ℕ) → k < p → All (λ q. k < q) qs → All (λ q. k < q) (insert p qs)
unfolding insert
All-gt-insert k p [] h a = (h, tt)
All-gt-insert k p (q ∷ qs) h a = ground (arith, All-gt-insert k p qs h a.1)

All-gt_trans : (k p : ℕ) (qs : List ℕ) → k < p → All (λ q. p < q) qs → All (λ q. k < q) qs
All-gt_trans k p [] h a = tt
All-gt_trans k p (q ∷ qs) h a = (omega arith, All-gt_trans k p qs h a.1)

insert-IsAscending :
    (p : ℕ) (qs : List ℕ) → IsAscending qs → seen qs p ≡ false → IsAscending (insert p qs)
unfolding insert seen
insert-IsAscending p [] a h = (tt, tt)
insert-IsAscending p (q ∷ qs) a h =
    ground (arith, insert-IsAscending p qs a.1, All-gt-insert q p qs, All-gt_trans p q qs)

sort-IsAscending : (ps : List ℕ) → IsDistinct ps → IsAscending (sort ps)
unfolding sort
sort-IsAscending [] d = tt
sort-IsAscending (p ∷ ps) d =
    insert-IsAscending p (sort ps) (sort-IsAscending ps d.1) (seen-sort ps p ∙ d.0)

groups_in_order_lem :
    (rs : List Resource) (groups : GroupMap) (ps : List ℕ)
    → ((q : ℕ) → group_at groups q ≡ of_priority q rs)
    → groups_in_order groups ps ≡ map (λ p. of_priority p rs) ps
unfolding groups_in_order
groups_in_order_lem rs groups [] h = refl
groups_in_order_lem rs groups (p ∷ ps) h = ap₂ ◌∷◌ (h p) (groups_in_order_lem rs groups ps h)

-- The groups are those of an ascending list of priorities, which are the ones that occur; the group
-- of a priority has all its resources and no other, in the order in which they were given.
pub by_fallback_priority_lem :
    (rs : List Resource)
    → (ps : List ℕ) × (by_fallback_priority rs ≡ map (λ p. of_priority p rs) ps)
      × IsAscending ps
      × ((q : ℕ) → seen ps q ≡ occurs q rs)
unfolding by_fallback_priority occurs
by_fallback_priority_lem [] = ([], refl, tt, λ q. refl)
by_fallback_priority_lem (r ∷ rs) =
    let all : List Resource = r ∷ rs in
    let ps = (collect_groups all [] []).1 in
    (
      sort ps,
      groups_in_order_lem all (collect_groups all [] []).0 (sort ps)
          (λ q. group_at-collect_groups all [] [] q),
      sort-IsAscending ps (collect_groups-IsDistinct all [] [] tt),
      λ q. seen-sort ps q ∙ seen-collect_groups all [] [] q,
    )
