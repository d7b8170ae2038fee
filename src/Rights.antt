-- ===== src/Rights.antt =====
-- The rights of a ledger user, the policy of a prune and its plan:
-- cli/internal/rights/rights.go. The participant's document of a right is kept in `raw`.
pub mod Family
pub mod Json
pub mod Decode
pub mod Split
pub mod Checks
pub mod Groups
pub mod Client
use canton_localnet.Base.{
  ℕ, ◌+◌, Bool, true, false, not, ◌&&◌, ◌||◌, List, [], ◌∷◌, ◌++◌, Text, lit, equal, has_prefix,
  contains, is_empty, Result, ok, err, guard, ◌>>◌, ◌>>=◌, leb, ltb, ◌==◌, if◌then◌else◌, length,
  any, filter, sort_by, map, less,
}
use Json.{Value}
use Family.{family}

unfoldable pub admin_kind : Text
unfolding lit
admin_kind = lit "ParticipantAdmin"

unfoldable pub act_as_kind : Text
unfolding lit
act_as_kind = lit "CanActAs"

unfoldable pub read_as_kind : Text
unfolding lit
read_as_kind = lit "CanReadAs"

abbrev pub max_revoke_default : ℕ
max_revoke_default = 1000

pub record Right : Type 0 where
  pub raw : Value
  pub kind : Text
  pub party : Text

pub record Policy : Type 0 where
  pub party_prefix : Text
  pub max_revoke : ℕ
  pub preserve_read_as : Bool

pub data RightsError : Type 0 where
  bare_hint : Text → RightsError
  no_admin_right : RightsError
  no_own_party_right : Text → RightsError
  too_many : ℕ → ℕ → RightsError

unfoldable pub new_policy : Text → ℕ → Bool → Result RightsError Policy
unfolding lit contains
new_policy party_prefix max_revoke preserve_read_as =
    if not (is_empty party_prefix) && not (contains party_prefix (lit "::"))
    then err (bare_hint party_prefix)
    else ok (record {
      party_prefix = party_prefix;
      max_revoke = max_revoke;
      preserve_read_as = preserve_read_as;
    })

unfoldable pub preserves : Policy → Right → Bool
preserves p r =
    if equal r.kind admin_kind
    then true
    else if is_empty p.party_prefix || not (has_prefix r.party p.party_prefix)
    then false
    else if equal r.kind act_as_kind
    then true
    else p.preserve_read_as && equal r.kind read_as_kind

pub record Plan : Type 0 where
  pub keep : List Right
  pub revoke : List Right

-- The loop appends each right to one side; the sides are built from the front here.
unfoldable pub classify : List Right → Policy → Plan
classify [] policy = record { keep = []; revoke = [] }
classify (right ∷ held) policy =
    let plan = classify held policy in
    if preserves policy right
    then record plan { keep = right ∷ plan.keep }
    else record plan { revoke = right ∷ plan.revoke }

unfoldable pub keeps : Plan → Text → Bool
unfolding any
keeps p kind = any (λ r. equal r.kind kind) p.keep

unfoldable pub validate : Plan → Policy → Result RightsError (Unit {0})
validate p policy =
    if not (keeps p admin_kind)
    then err no_admin_right
    else if not (keeps p act_as_kind)
    then err (no_own_party_right policy.party_prefix)
    else if ltb policy.max_revoke (length p.revoke)
    then err (too_many (length p.revoke) policy.max_revoke)
    else ok tt

-- Two rights with one `identity()`.
unfoldable pub same_identity : Right → Right → Bool
same_identity r s = equal r.kind s.kind && equal r.party s.party

-- A lookup in a map keyed by the identities of `rights`.
unfoldable pub identity_in : List Right → Right → Bool
unfolding any
identity_in rights r = any (same_identity r) rights

-- `p.NewSince(consented)`
unfoldable pub new_since : Plan → Plan → List Right
unfolding filter
new_since p consented = filter (λ r. not (identity_in consented.revoke r)) p.revoke

pub record Group : Type 0 where
  pub kind : Text
  pub family : Text
  pub count : ℕ

-- `counts[Group{Kind: kind, Family: family}]++`; a map's entries in the order of their first key.
unfoldable pub bump : Text → Text → List Group → List Group
bump kind fam [] = record { kind = kind; family = fam; count = 1 } ∷ []
bump kind fam (g ∷ groups) =
    if equal g.kind kind && equal g.family fam
    then record g { count = g.count + 1 } ∷ groups
    else g ∷ bump kind fam groups

-- The order given to `sort.Slice`.
unfoldable pub group_less : Group → Group → Bool
unfolding less
group_less g h =
    if not (g.count == h.count)
    then ltb h.count g.count
    else if not (equal g.kind h.kind)
    then less g.kind h.kind
    else less g.family h.family

unfoldable pub count_groups : List Right → List Group → List Group
unfolding bump
count_groups [] counts = counts
count_groups (r ∷ rights) counts = count_groups rights (bump r.kind (family r.party) counts)

unfoldable pub revoke_groups : Plan → List Group
unfolding count_groups sort_by group_less
revoke_groups p = sort_by group_less (count_groups p.revoke [])
