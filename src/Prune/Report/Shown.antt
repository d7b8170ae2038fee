-- ===== src/Prune/Report/Shown.antt =====
-- The rights on the lines of `writePlan` in cli/cmd/canton-localnet/rights.go.
use canton_localnet.Base.{
  lit, ◌++◌, sym, ◌∙◌, length, equal, ◌&&◌, Bool-cases, ℕ, ◌≤◌, ◌≡◌, ◌⊎◌, refl, ap, inl, inr, true,
  false, Text, List, [], ◌∷◌, map, Has, Has-append_right, none_in, sum_by, arith, equal_iff,
}
use mathlib.Core.List.{append_assoc}
use canton_localnet.Rights.{Right, Plan, Group, revoke_groups}
use canton_localnet.Rights.Family.{family}
use canton_localnet.Rights.Groups.{right_hit, group_count, group_hit, revoke_groups_lem}
use canton_localnet.Prune.{Target}
use canton_localnet.Base.Decimal.{decimal}
use canton_localnet.Prune.Report.{
  plan_lines, head_lines, keep_line, revoke_line, group_line, key_line,
}
use canton_localnet.Prune.Report.Rows.{IsGroupRow, AreRows, map-AreRows, group_line-IsGroupRow}

Has-map : {A : Type 0} (f : A → Text) (xs : List A) (x : A) → Has x xs → Has (f x) (map f xs)
Has-map f [] x m = absurd (none_in m)
Has-map f (y ∷ xs) x (inl e) = inl (ap f e)
Has-map f (y ∷ xs) x (inr m) = inr (Has-map f xs x m)

sum_by-Has : {A : Type 0} (f : A → ℕ) (xs : List A) (x : A) → Has x xs → f x ≤ sum_by f xs
unfolding sum_by
sum_by-Has f [] x m = absurd (none_in m)
sum_by-Has f (y ∷ xs) x (inl e) = omega (arith, ap f e)
sum_by-Has f (y ∷ xs) x (inr m) = omega (arith, sum_by-Has f xs x m)

Nat-cases : (n : ℕ) → (n ≡ 0) ⊎ (1 ≤ n)
Nat-cases n = ground arith

-- A sum that is not zero has a part that is not zero.
sum_by-positive :
    {A : Type 0} (f : A → ℕ) (xs : List A) → 1 ≤ sum_by f xs → (x : A) × Has x xs × (1 ≤ f x)
unfolding sum_by
sum_by-positive f [] h = absurd (omega (arith, h))
sum_by-positive f (y ∷ xs) h = elim (Nat-cases (f y)) [
  | inl z ↦ let (x, m, p) = sum_by-positive f xs (omega (arith, h, z)) in (x, inr m, p)
  | inr p ↦ (y, inl refl, p)
]

group_count-positive :
    (kind fam : Text) (g : Group)
    → 1 ≤ group_count kind fam g
    → (g.kind ≡ kind) × (g.family ≡ fam) × (1 ≤ g.count)
group_count-positive kind fam g h = ground (arith, equal_iff g.kind kind, equal_iff g.family fam)

no_hit-count :
    (kind fam : Text) (groups : List Group)
    → sum_by (group_hit kind fam) groups ≡ 0
    → sum_by (group_count kind fam) groups ≡ 0
unfolding sum_by
no_hit-count kind fam [] h = refl
no_hit-count kind fam (g ∷ groups) h = elim (Bool-cases (equal g.kind kind && equal g.family fam)) [
  | inl e ↦ absurd (omega (arith, (rw e at h)))
  | inr n ↦ rw n (omega (arith, no_hit-count kind fam groups (omega (arith, (rw n at h)))))
]

hit-Has :
    (kind fam : Text) (g : Group) (groups : List Group)
    → Has g groups
    → g.kind ≡ kind
    → g.family ≡ fam
    → 1 ≤ sum_by (group_hit kind fam) groups
hit-Has kind fam g groups m k f =
    let one : group_hit kind fam g ≡ 1 =
      rw ((equal_iff g.kind kind).1 k, (equal_iff g.family fam).1 f) refl in
    omega (arith, one, sum_by-Has (group_hit kind fam) groups g m)

-- The count of the one group of a kind and family.
only-group :
    (kind fam : Text) (g : Group) (groups : List Group)
    → Has g groups
    → g.kind ≡ kind
    → g.family ≡ fam
    → sum_by (group_hit kind fam) groups ≤ 1
    → sum_by (group_count kind fam) groups ≡ g.count
unfolding sum_by
only-group kind fam g [] m k f h = absurd (none_in m)
only-group kind fam g (x ∷ groups) (inl e) k f h =
    let hit : equal x.kind kind && equal x.family fam ≡ true = hits (sym e) in
    rw hit (
      omega (
        arith,
        ap (λ (y : Group). y.count) e,
        no_hit-count kind fam groups (omega (arith, (rw hit at h))),
      ))
  where
    hits : x ≡ g → equal x.kind kind && equal x.family fam ≡ true
    hits e = ground (arith, equal_iff x.kind kind, equal_iff x.family fam, e, k, f)
only-group kind fam g (x ∷ groups) (inr m) k f h =
    let rest : 1 ≤ sum_by (group_hit kind fam) groups = hit-Has kind fam g groups m k f in
    elim (Bool-cases (equal x.kind kind && equal x.family fam)) [
      | inl e ↦ absurd (omega (arith, (rw e at h), rest))
      | inr n ↦
          rw n (omega (arith, only-group kind fam g groups m k f (omega (arith, (rw n at h)))))
    ]

-- The groups account for a right that is revoked.
group-Has :
    (plan : Plan) (r : Right)
    → Has r plan.revoke
    → (g : Group) × Has g (revoke_groups plan)
      × (g.kind ≡ r.kind)
      × (g.family ≡ family r.party)
      × (g.count ≡ sum_by (right_hit r.kind (family r.party)) plan.revoke)
group-Has plan r m =
    let (_, once, e, _) = revoke_groups_lem plan r.kind (family r.party) in
    let one : right_hit r.kind (family r.party) r ≡ 1 =
      rw ((equal_iff r.kind r.kind).1 refl, (equal_iff (family r.party) (family r.party)).1 refl)
        refl in
    let (g, h, p) =
      sum_by-positive (group_count r.kind (family r.party)) (revoke_groups plan)
        (omega (arith, e, one, sum_by-Has (right_hit r.kind (family r.party)) plan.revoke r m)) in
    let (k, f, c) = group_count-positive r.kind (family r.party) g p in
    (g, h, k, f, sym (only-group r.kind (family r.party) g (revoke_groups plan) h k f once) ∙ e)

Has-plan_lines :
    (slot_name json_api : Text) (t : Target) (plan : Plan) (line : Text)
    → Has line (map group_line (revoke_groups plan))
    → Has line (plan_lines slot_name json_api t plan false)
unfolding plan_lines
Has-plan_lines slot_name json_api t plan line m =
    Has-append_right line (head_lines slot_name json_api t plan) _
      (Has-append_right line (map keep_line plan.keep) _ (inr m))

full-plan_lines :
    (slot_name json_api : Text) (t : Target) (plan : Plan)
    → (above : List Text) × (plan_lines slot_name json_api t plan true
        ≡ above ++ map revoke_line plan.revoke)
unfolding plan_lines
full-plan_lines slot_name json_api t plan =
    let total = key_line (lit "to revoke") (decimal (length plan.revoke)) in
    let heads = head_lines slot_name json_api t plan in
    (
      heads ++ (map keep_line plan.keep ++ (total ∷ [])),
      sym (
          append_assoc heads (map keep_line plan.keep ++ (total ∷ [])) (map revoke_line plan.revoke)
          ∙ ap (λ x. heads ++ x)
              (append_assoc (map keep_line plan.keep) (total ∷ []) (map revoke_line plan.revoke))),
    )

-- The full form of a plan ends with one line for each right that it revokes, in order, which has the
-- right's kind and, behind spaces, its party. The short form has for each right that the plan revokes
-- a line with its kind, the family of its party and, in decimal, the number of the rights of this
-- kind and family that the plan revokes.
pub plan_lines_lem :
    (slot_name json_api : Text) (t : Target) (plan : Plan) (r : Right)
    → Has r plan.revoke
    → ((above rows : List Text) × (plan_lines slot_name json_api t plan true ≡ above ++ rows)
        × AreRows plan.revoke rows)
      × ((line : Text) × Has line (plan_lines slot_name json_api t plan false)
          × IsGroupRow
              (sum_by (right_hit r.kind (family r.party)) plan.revoke)
              r.kind
              (family r.party)
              line)
plan_lines_lem slot_name json_api t plan r m =
    let (g, h, k, f, c) = group-Has plan r m in
    let (above, e) = full-plan_lines slot_name json_api t plan in
    (
      (above, map revoke_line plan.revoke, e, map-AreRows plan.revoke),
      (
        group_line g,
        Has-plan_lines slot_name json_api t plan (group_line g)
            (Has-map group_line (revoke_groups plan) g h),
        rw (sym c, sym k, sym f) (group_line-IsGroupRow g),
      ),
    )
