-- ===== src/Rights/Groups.antt =====
-- `RevokeGroups`: counting the revocable rights by kind and family.
use canton_localnet.Base.{
  ℕ, ◌+◌, ◌≤◌, ◌≡◌, refl, ◌⊎◌, inl, inr, true, false, ◌&&◌, Text, equal, equal_iff, List, [], ◌∷◌,
  sum_by, arith, if◌then◌else◌, length, Bool-cases,
}
use canton_localnet.Base.Sorting.{IsSorted, sum_by-sort_by, sort_by-IsSorted}
use canton_localnet.Base.Order.{less_asym, less_split, less_total}
use canton_localnet.Rights.{Right, Plan, Group, bump, group_less, count_groups, revoke_groups}
use canton_localnet.Rights.Family.{family}

-- 1 for a right of the kind and family, and 0 for another.
abbrev pub right_hit : Text → Text → Right → ℕ
right_hit kind fam r = if equal r.kind kind && equal (family r.party) fam then 1 else 0

-- The count of a group of the kind and family, and 0 for another.
abbrev pub group_count : Text → Text → Group → ℕ
group_count kind fam g = if equal g.kind kind && equal g.family fam then g.count else 0

abbrev pub group_hit : Text → Text → Group → ℕ
group_hit kind fam g = if equal g.kind kind && equal g.family fam then 1 else 0

module _ (kind fam : Text) where
  count-bump :
      (k f : Text) (groups : List Group)
      → sum_by (group_count kind fam) (bump k f groups)
        ≡ (if equal k kind && equal f fam then 1 else 0) + sum_by (group_count kind fam) groups
  unfolding bump sum_by
  count-bump k f [] = refl
  count-bump k f (g ∷ groups) =
      ground (arith, equal_iff g.kind k, equal_iff g.family f, count-bump k f groups)

  count-count_groups :
      (rights : List Right) (groups : List Group)
      → sum_by (group_count kind fam) (count_groups rights groups)
        ≡ sum_by (right_hit kind fam) rights + sum_by (group_count kind fam) groups
  unfolding count_groups sum_by
  count-count_groups [] groups = omega arith
  count-count_groups (r ∷ rights) groups = omega (
    arith,
    count-count_groups rights (bump r.kind (family r.party) groups),
    count-bump r.kind (family r.party) groups,
  )

  hit-bump_other :
      (k f : Text) (groups : List Group)
      → (equal k kind && equal f fam) ≡ false
      → sum_by (group_hit kind fam) (bump k f groups) ≡ sum_by (group_hit kind fam) groups
  unfolding bump sum_by
  hit-bump_other k f [] h = ground arith
  hit-bump_other k f (g ∷ groups) h = ground (arith, hit-bump_other k f groups h)

  hit-bump_same :
      (k f : Text) (groups : List Group)
      → (equal k kind && equal f fam) ≡ true
      → sum_by (group_hit kind fam) groups ≤ 1
      → sum_by (group_hit kind fam) (bump k f groups) ≤ 1
  unfolding bump sum_by
  hit-bump_same k f [] e h = ground arith
  hit-bump_same k f (g ∷ groups) e h = ground (
    arith,
    hit-bump_same k f groups e,
    equal_iff g.kind k,
    equal_iff g.family f,
    equal_iff k kind,
    equal_iff f fam,
    equal_iff g.kind kind,
    equal_iff g.family fam,
  )

  hit-bump :
      (k f : Text) (groups : List Group)
      → sum_by (group_hit kind fam) groups ≤ 1
      → sum_by (group_hit kind fam) (bump k f groups) ≤ 1
  hit-bump k f groups h = elim (Bool-cases (equal k kind && equal f fam)) [
    | inl e ↦ hit-bump_same k f groups e h
    | inr e ↦ omega (arith, hit-bump_other k f groups e)
  ]

  hit-count_groups :
      (rights : List Right) (groups : List Group)
      → sum_by (group_hit kind fam) groups ≤ 1
      → sum_by (group_hit kind fam) (count_groups rights groups) ≤ 1
  unfolding count_groups
  hit-count_groups [] groups h = h
  hit-count_groups (r ∷ rights) groups h =
      hit-count_groups rights _ (hit-bump r.kind (family r.party) groups h)

total-bump :
    (k f : Text) (groups : List Group)
    → sum_by (λ g. g.count) (bump k f groups) ≡ 1 + sum_by (λ g. g.count) groups
unfolding bump sum_by
total-bump k f [] = refl
total-bump k f (g ∷ groups) = ground (arith, total-bump k f groups)

total-count_groups :
    (rights : List Right) (groups : List Group)
    → sum_by (λ g. g.count) (count_groups rights groups)
      ≡ length rights + sum_by (λ g. g.count) groups
unfolding count_groups sum_by
total-count_groups [] groups = omega arith
total-count_groups (r ∷ rights) groups = omega (
  arith,
  total-count_groups rights (bump r.kind (family r.party) groups),
  total-bump r.kind (family r.party) groups,
)

group_less_asym : (g h : Group) → group_less g h ≡ true → group_less h g ≡ false
unfolding group_less
group_less_asym g h e = ground (
  arith,
  equal_iff g.kind h.kind,
  equal_iff h.kind g.kind,
  less_asym g.kind h.kind,
  less_asym g.family h.family,
)

group_less_split :
    (f g h : Group) → group_less h f ≡ true → (group_less h g ≡ true) ⊎ (group_less g f ≡ true)
unfolding group_less
group_less_split f g h e = ground (
  arith,
  equal_iff h.kind f.kind,
  equal_iff h.kind g.kind,
  equal_iff g.kind f.kind,
  less_split f.kind g.kind h.kind,
  less_split f.family g.family h.family,
  less_asym h.kind g.kind,
  less_total g.kind f.kind,
)

-- The groups of a plan come in the order of `sort.Slice`, no two have the same kind and family,
-- the count of each is the number of revocable rights of its kind and family, a kind and family
-- with no group has no such right, and the counts add up to the number of revocable rights.
pub revoke_groups_lem :
    (p : Plan) (kind fam : Text)
    → IsSorted group_less (revoke_groups p)
      × (sum_by (group_hit kind fam) (revoke_groups p) ≤ 1)
      × (sum_by (group_count kind fam) (revoke_groups p) ≡ sum_by (right_hit kind fam) p.revoke)
      × (sum_by (λ g. g.count) (revoke_groups p) ≡ length p.revoke)
unfolding revoke_groups sum_by
revoke_groups_lem p kind fam = (
  sort_by-IsSorted group_less group_less_asym group_less_split (count_groups p.revoke []),
  omega
      (arith, sum_by-sort_by group_less (group_hit kind fam) (count_groups p.revoke []), none_hit),
  omega (
    arith,
    sum_by-sort_by group_less (group_count kind fam) (count_groups p.revoke []),
    all_counted,
  ),
  omega (arith, sum_by-sort_by group_less (λ g. g.count) (count_groups p.revoke []), total),
)
  where
    none_hit : sum_by (group_hit kind fam) (count_groups p.revoke []) ≤ 1
    none_hit = hit-count_groups kind fam p.revoke [] (omega arith)

    all_counted :
        sum_by (group_count kind fam) (count_groups p.revoke [])
        ≡ sum_by (right_hit kind fam) p.revoke
    all_counted = omega (arith, count-count_groups kind fam p.revoke [])

    total : sum_by (λ g. g.count) (count_groups p.revoke []) ≡ length p.revoke
    total = omega (arith, total-count_groups p.revoke [])
