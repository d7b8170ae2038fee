-- ===== src/Compose/Teardown.antt =====
-- The teardown branches of `Build` in cli/internal/compose/compose.go.
use canton_localnet.Base.{
  ◌||◌, ap, ◌≡◌, refl, sym, ◌∙◌, inl, inr, Bool, true, false, not, Text, lit, List, [], ◌∷◌, ◌++◌,
  ok, guard, >>=-eq_ok, ok-injective, All, Has, Has-append_left, Has-append_right, Bool-cases,
  filter, equal, equal_iff, is_empty, if◌then◌else◌, none_in,
}
use canton_localnet.Base.Files.{Stat}
use canton_localnet.Slot.{Slot, pqs_slots, pqs_default_slots, all, slots_where}
use canton_localnet.Compose.{
  Options, Plan, normalize_enabled_slots, pqs_profiles, enabled_pqs_default_slots, contains_slot,
  flagged, when, parse_auth_mode, no_repo_root,
}
use canton_localnet.Compose.Args.{
  compose_dir, module_file, build, plan_args, plan_env, profiles, scribe_profiles, compose_files,
  env_files, check_modules, modules_dir,
}

-- The values of one flag in arguments that come in pairs.
pair_values : Text → List Text → List Text
unfolding equal
pair_values flag [] = []
pair_values flag (x ∷ []) = []
pair_values flag (f ∷ v ∷ rest) =
    let more = pair_values flag rest in if equal f flag then v ∷ more else more

-- The values of one flag of `docker compose`.
unfoldable pub flag_values : Text → List Text → List Text
unfolding pair_values
flag_values flag [] = []
flag_values flag (command ∷ args) = pair_values flag args

pair_values-same :
    (flag : Text) (values rest : List Text)
    → pair_values flag (flagged flag values ++ rest) ≡ values ++ pair_values flag rest
unfolding pair_values flagged
pair_values-same flag [] rest = refl
pair_values-same flag (v ∷ values) rest =
    rw ((equal_iff flag flag).1 refl, pair_values-same flag values rest) refl

pair_values-other :
    (flag other : Text) (values rest : List Text)
    → equal other flag ≡ false
    → pair_values flag (flagged other values ++ rest) ≡ pair_values flag rest
unfolding pair_values flagged
pair_values-other flag other [] rest n = refl
pair_values-other flag other (v ∷ values) rest n =
    rw (n, pair_values-other flag other values rest n) refl

pair_values-all :
    (flag : Text) (values : List Text) → pair_values flag (flagged flag values) ≡ values
unfolding pair_values flagged
pair_values-all flag [] = refl
pair_values-all flag (v ∷ values) =
    rw ((equal_iff flag flag).1 refl, pair_values-all flag values) refl

pair_values-none :
    (flag other : Text) (values : List Text)
    → equal other flag ≡ false
    → pair_values flag (flagged other values) ≡ []
unfolding pair_values flagged
pair_values-none flag other [] n = refl
pair_values-none flag other (v ∷ values) n = rw (n, pair_values-none flag other values n) refl

append_nil : (xs : List Text) → xs ++ [] ≡ xs
append_nil [] = refl
append_nil (x ∷ xs) = ap (λ r. x ∷ r) (append_nil xs)

-- The first list's values all stand in the second.
unfoldable pub Within : List Text → List Text → Type 0
Within xs ys = All (λ x. Has x ys) xs

Within-weaken : (xs ys : List Text) (z : Text) → Within xs ys → Within xs (z ∷ ys)
unfolding Within
Within-weaken [] ys z h = tt
Within-weaken (x ∷ xs) ys z (m, h) = (inr m, Within-weaken xs ys z h)

Within-self : (xs : List Text) → Within xs xs
unfolding Within
Within-self [] = tt
Within-self (x ∷ xs) = (inl refl, Within-weaken xs xs x (Within-self xs))

Within-cons : (x : Text) (xs ys : List Text) → Within xs ys → Within (x ∷ xs) (x ∷ ys)
unfolding Within
Within-cons x xs ys h = (inl refl, Within-weaken xs ys x h)

Within-left : (xs ys zs : List Text) → Within xs ys → Within xs (ys ++ zs)
unfolding Within
Within-left [] ys zs h = tt
Within-left (x ∷ xs) ys zs (m, h) = (Has-append_left x ys zs m, Within-left xs ys zs h)

Within-right : (xs ys zs : List Text) → Within xs zs → Within xs (ys ++ zs)
unfolding Within
Within-right [] ys zs h = tt
Within-right (x ∷ xs) ys zs (m, h) = (Has-append_right x ys zs m, Within-right xs ys zs h)

Within-append :
    (xs xs' ys ys' : List Text) → Within xs xs' → Within ys ys' → Within (xs ++ ys) (xs' ++ ys')
unfolding Within
Within-append [] xs' ys ys' h k = Within-right ys xs' ys' k
Within-append (x ∷ xs) xs' ys ys' (m, h) k =
    (Has-append_left x xs' ys' m, Within-append xs xs' ys ys' h k)

-- The same options, for a teardown.
abbrev pub torn : Options → Options
torn o = record o { teardown = true }

profile_in :
    (slots : List Slot) (s : Slot)
    → Has s slots
    → Has (lit "pqs-" ++ s.canonical) (pqs_profiles slots)
unfolding pqs_profiles lit
profile_in [] s m = absurd (none_in m)
profile_in (r ∷ slots) s (inl e) = inl (rw e)
profile_in (r ∷ slots) s (inr m) = inr (profile_in slots s m)

pqs_profiles-Within :
    (p : Slot → Bool) (some_slots slots : List Slot)
    → All (λ s. Has s slots) some_slots
    → Within (pqs_profiles (filter p some_slots)) (pqs_profiles slots)
unfolding filter pqs_profiles lit Within
pqs_profiles-Within p [] slots h = tt
pqs_profiles-Within p (s ∷ rest) slots (m, h) = elim (Bool-cases (p s)) [
  | inl t ↦ rw t (profile_in slots s m, pqs_profiles-Within p rest slots h)
  | inr f ↦ rw f (pqs_profiles-Within p rest slots h)
]

defaults-within : All (λ s. Has s pqs_slots) pqs_default_slots
unfolding pqs_slots pqs_default_slots slots_where all filter
defaults-within = (inr (inl refl), (inr (inr (inl refl)), (inr (inr (inr (inl refl))), tt)))

when-false : (b : Bool) (xs ys : List Text) → Within xs ys → Within (when b xs) ys
unfolding Within
when-false true xs ys h = h
when-false false xs ys h = tt

scribe_profiles-Within : (o : Options) → Within (scribe_profiles o) (scribe_profiles (torn o))
scribe_profiles-Within o = elim (Bool-cases o.teardown) [
  | inl t ↦ unfold scribe_profiles in rw t (Within-self (pqs_profiles pqs_slots))
  | inr f ↦
      unfold scribe_profiles enabled_pqs_default_slots in
      rw f (
        when-false o.pqs _ _ (
          pqs_profiles-Within
            (λ s. contains_slot (normalize_enabled_slots o.enabled_slots) s.canonical)
            pqs_default_slots pqs_slots defaults-within))
]

profiles-Within : (o : Options) → Within (profiles o) (profiles (torn o))
profiles-Within o =
    unfold profiles in
    Within-append slots slots _ _ (Within-self slots) (
      Within-append _ _ _ _ (Within-self _)
        (Within-append _ _ _ _ (scribe_profiles-Within o) (Within-self _)))
  where
    slots : List Text
    slots = normalize_enabled_slots o.enabled_slots

when-Within : (a b : Bool) (xs : List Text) → Within (when (a || b) xs) (when (a || true) xs)
unfolding Within
when-Within true b xs = Within-self xs
when-Within false true xs = Within-self xs
when-Within false false xs = tt

compose_files-Within : (o : Options) → Within (compose_files o) (compose_files (torn o))
unfolding compose_files module_file modules_dir compose_dir
compose_files-Within o = Within-cons _ _ _ (
    Within-cons _ _ _ (
      Within-append _ _ _ _ (Within-self _) (
        Within-append _ _ _ _ (Within-self _)
          (Within-append _ _ _ _ (when-Within o.pqs o.teardown _) (Within-self _)))))

-- A plan's values of the flags.
plan-profiles : (o : Options) → flag_values (lit "--profile") (plan_args o) ≡ profiles o
plan-profiles o =
    unfold plan_args flag_values in
    pair_values-other (lit "--profile") (lit "-f") (compose_files o) _ (unfold equal lit in refl)
    ∙ pair_values-other (lit "--profile") (lit "--env-file") (env_files o) _
        (unfold equal lit in refl)
    ∙ pair_values-all (lit "--profile") (profiles o)

plan-files : (o : Options) → flag_values (lit "-f") (plan_args o) ≡ compose_files o
plan-files o =
    unfold plan_args flag_values in
    pair_values-same (lit "-f") (compose_files o) _
    ∙ ap (λ r. compose_files o ++ r)
        (pair_values-other (lit "-f") (lit "--env-file") (env_files o) _ (unfold equal lit in refl)
          ∙ pair_values-none (lit "-f") (lit "--profile") (profiles o) (unfold equal lit in refl))
    ∙ append_nil (compose_files o)

-- What `build` returns is the plan of the resolved options.
build-plan :
    (stat : Text → Stat) (host : Text) (o : Options) {up : Plan}
    → build stat host o ≡ ok up
    → (r : Options) × (up.args ≡ plan_args r)
      × (down : Plan) × (build stat host (torn o) ≡ ok down)
      × (down.args ≡ plan_args (torn r))
unfolding build modules_dir compose_dir
build-plan stat host o {up} h =
    let (u, g, h₁) = >>=-eq_ok (guard (not (is_empty o.repo_root)) no_repo_root) _ {b = up} h in
    let (v, c, h₂) = >>=-eq_ok (check_modules (stat (modules_dir o))) _ h₁ in
    let (m, p, h₃) = >>=-eq_ok (parse_auth_mode o.auth_mode) _ h₂ in
    let r = record o { auth_mode = m; host_os = if is_empty o.host_os then host else o.host_os } in
    (
      r,
      ap (λ q. q.args) (sym (ok-injective _ up h₃)),
      record { args = plan_args (torn r); env = plan_env (torn r) },
      rw (g, c, p) refl,
      refl,
    )

-- Where `up` has a plan, so has `down` with the same options, and each compose file and each
-- profile that `up` names is one that `down` names.
pub build-Within :
    (stat : Text → Stat) (host : Text) (o : Options) {up : Plan}
    → build stat host o ≡ ok up
    → (down : Plan) × (build stat host (torn o) ≡ ok down)
      × Within (flag_values (lit "-f") up.args) (flag_values (lit "-f") down.args)
      × Within (flag_values (lit "--profile") up.args) (flag_values (lit "--profile") down.args)
build-Within stat host o h =
    let (r, u, down, d, e) = build-plan stat host o h in
    (
      down,
      d,
      rw (u, e, plan-files r, plan-files (torn r)) (compose_files-Within r),
      rw (u, e, plan-profiles r, plan-profiles (torn r)) (profiles-Within r),
    )
