-- ===== src/Tests/Pruning.antt =====
-- A participant that serves three rights, and the theorems on `rights prune` applied to it.
use canton_localnet.Base.{
  All, subst, all_true, all_true-All, ◌≡◌, ◌≢◌, ◌↔◌, ◌≤◌, ◌+◌, refl, inl, inr, sym, true, false,
  Text, lit, String, List, [], ◌∷◌, ◌++◌, Has, length, some, ok, err, arith, sum_by, has_prefix,
  equal, any, filter, contains, none, trim_space, trim_left_by, trim_right_by, is_space,
}
use canton_localnet.Base.Sorting.{IsSorted}
use canton_localnet.Rights.{
  Right, Policy, Plan, new_policy, classify, preserves, keeps, validate, new_since, same_identity,
  identity_in, admin_kind, act_as_kind, read_as_kind, group_less, revoke_groups,
}
use canton_localnet.Rights.Family.{family, is_hex, family-ephemeral}
use canton_localnet.Rights.Json.{
  Value, object, field, empty, string, array, item, end, get, lookup_field, as_string, as_map,
  as_slice, entries, items,
}
use canton_localnet.Rights.Decode.{
  unmarshal_right, marshal_right, unmarshal_list, unmarshal_all, decode_envelope, decode_map,
  decode_kinds, decode_kind, party_of, unmarshal_right-marshal_right,
}
use canton_localnet.Rights.Client.{
  Participant, reply, failed, rights_of, user_of, revoke_of, list_rights, revoke_rights, do_request,
  read_reply, decode_rights, check_revoked, confirmed_count, primary_party, decode_primary_party,
}
use canton_localnet.Rights.Client.Confirmed.{Confirmed, revoke_rights_iff}
use canton_localnet.Prune.Report.{plan_lines}
use canton_localnet.Prune.Report.Rows.{AreRows, IsGroupRow}
use canton_localnet.Prune.Report.Shown.{plan_lines_lem}
use canton_localnet.Rights.Split.{Preserved, classify_lem}
use canton_localnet.Rights.Checks.{Holds, ActsAsOwn, validate_iff, new_since_iff}
use canton_localnet.Rights.Groups.{revoke_groups_lem, group_hit, group_count, right_hit}
use canton_localnet.Prune.{
  Target, flag, Console, aborted, exit_code, prune, execute, agree_and_revoke, revoke, revoke_live,
  send_revoke, confirm_revoke, classify_live, resolve_policy, resolve_preserved_party,
}
use canton_localnet.Prune.Consent.{Agreed, Consents, prune_sends}
use canton_localnet.Prune.Exit.{exit_code-rights_prune}
use canton_localnet.Prune.Command.{
  Flags, with_token, target_user, resolve_rights_target, rights_prune,
}
use canton_localnet.Slot.Api
use canton_localnet.Slot.Api.{Signer, mint_token, mint_by, mint_hs256, claims}
use canton_localnet.Slot.{hs256, sv_validator}
use canton_localnet.Slot.Resolve.{Endpoints, base_endpoints, env_or, env_is_set}

-- The document of a right.
abbrev document : String → String → Value
document kind party = object (
    field (lit "kind")
      (object (
        field (lit kind)
          (object
            (field (lit "value") (object (field (lit "party") (string (lit party)) empty)) empty))
          empty))
      empty)

abbrev admin_document : Value
admin_document = document "ParticipantAdmin" ""

abbrev own_document : Value
own_document = document "CanActAs" "a::1220"

abbrev test_document : Value
test_document = document "CanActAs" "t-01234567::1220"

abbrev admin_right : Right
admin_right = record { raw = admin_document; kind = lit "ParticipantAdmin"; party = [] }

abbrev own_right : Right
own_right = record { raw = own_document; kind = lit "CanActAs"; party = lit "a::1220" }

abbrev test_right : Right
test_right = record { raw = test_document; kind = lit "CanActAs"; party = lit "t-01234567::1220" }

abbrev held_rights : List Right
held_rights = admin_right ∷ own_right ∷ test_right ∷ []

abbrev participant : Participant
participant h (user_of user) = failed
participant h (rights_of user) = reply 200 (
    some (
      object (
        field (lit "rights")
          (array (item admin_document (item own_document (item test_document end)))) empty)))
participant h (revoke_of user rights) =
    reply 200
      (some (object (field (lit "newlyRevokedRights") (array (item test_document end)) empty)))

abbrev user_name : Text
user_name = lit "u"

abbrev own_policy : Policy
own_policy = record { party_prefix = lit "a::"; max_revoke = 1000; preserve_read_as = false }

abbrev ci_target : Target
ci_target = record { user_id = user_name; policy = own_policy; preserve_source = flag }

abbrev silent : Console
silent = record { terminal = true; answer = some (lit "no") }

sent :
    (prune participant ci_target false true silent []).1
    ≡ rights_of user_name
      ∷ revoke_of user_name (test_right ∷ [])
      ∷ rights_of user_name
      ∷ rights_of user_name
      ∷ []
unfolding prune execute agree_and_revoke revoke revoke_live send_revoke confirm_revoke classify_live
    list_rights revoke_rights do_request read_reply decode_rights check_revoked confirmed_count
    unmarshal_list unmarshal_all unmarshal_right decode_envelope decode_map decode_kinds decode_kind
    party_of get lookup_field as_string as_map as_slice entries items classify preserves keeps
    validate new_since same_identity identity_in any filter equal has_prefix admin_kind act_as_kind
    read_as_kind lit
sent = refl

prune_sends_example :
    (false ≡ false)
    × Consents silent true
    × ((shown : List Right) × (live : List Right) × ((list_rights participant user_name []).0
          ≡ ok shown)
        × ((list_rights participant user_name (rights_of user_name ∷ [])).0 ≡ ok live)
        × Agreed ci_target user_name (test_right ∷ []) shown live)
prune_sends_example =
    prune_sends participant ci_target false true silent user_name (test_right ∷ [])
      (subst (Has (revoke_of user_name (test_right ∷ []))) (sym sent) (inr (inl refl)))

classify_lem_example :
    (Has test_right (classify held_rights own_policy).keep
      ↔ (Has test_right held_rights × Preserved own_policy test_right))
    × (Has test_right (classify held_rights own_policy).revoke
        ↔ (Has test_right held_rights × ¬ Preserved own_policy test_right))
    × (length (classify held_rights own_policy).keep
          + length (classify held_rights own_policy).revoke
        ≡ length held_rights)
classify_lem_example = classify_lem held_rights own_policy test_right

-- A participant that reports the user's primary party, and the same for every token.
abbrev ledger : Text → Participant
ledger token h (user_of user) = reply 200 (
    some (
      object (
        field (lit "user") (object (field (lit "primaryParty") (string (lit "a::1220")) empty))
          empty)))
ledger token h (rights_of user) = participant h (rights_of user)
ledger token h (revoke_of user rights) = participant h (revoke_of user rights)

abbrev signer : Signer
signer = record { now = 0; decimal = λ n. lit "0"; sign = λ secret claims. lit "token" }

abbrev no_server : Api.Request → Api.Reply
no_server request = Api.failed

abbrev prune_endpoints : Endpoints
prune_endpoints =
    record (base_endpoints (record sv_validator { auth_kind = hs256 }) (λ key. none)) {
      validator_user_id = user_name;
    }

abbrev prune_flags : Flags
prune_flags = record {
  preserve_party = [];
  user = [];
  preserve_base = false;
  assume_yes = false;
  dry_run = false;
  max_revoke = 1000;
}

declined :
    (rights_prune signer no_server ledger prune_endpoints prune_flags silent).result ≡ err aborted
unfolding rights_prune resolve_rights_target target_user with_token resolve_policy
    resolve_preserved_party primary_party decode_primary_party new_policy contains mint_token
    mint_by mint_hs256 base_endpoints env_or env_is_set claims sv_validator prune execute
    agree_and_revoke revoke revoke_live send_revoke confirm_revoke classify_live list_rights
    revoke_rights do_request read_reply decode_rights check_revoked confirmed_count unmarshal_list
    unmarshal_all unmarshal_right decode_envelope decode_map decode_kinds decode_kind party_of get
    lookup_field as_string as_map as_slice entries items classify preserves keeps validate new_since
    same_identity identity_in any filter equal has_prefix admin_kind act_as_kind read_as_kind lit
    trim_space trim_left_by trim_right_by is_space
declined = refl

exit_code-rights_prune_example :
    ((rights_prune signer no_server ledger prune_endpoints prune_flags silent).requests
      ≡ rights_of user_name ∷ user_of user_name ∷ [])
    × ((rights_prune signer no_server ledger prune_endpoints prune_flags silent).token_requests
        ≡ (mint_token signer no_server prune_endpoints).1)
exit_code-rights_prune_example =
    exit_code-rights_prune signer no_server ledger prune_endpoints prune_flags silent user_name
      aborted refl declined (unfold exit_code in refl)

validate_iff_example : (validate (classify held_rights own_policy) own_policy ≡ ok tt) ↔ (
    Holds admin_kind held_rights
    × ActsAsOwn own_policy held_rights
    × (length (classify held_rights own_policy).revoke ≤ 1000))
validate_iff_example = validate_iff held_rights own_policy

abbrev live_plan : Plan
live_plan = record { keep = admin_right ∷ []; revoke = own_right ∷ test_right ∷ [] }

abbrev agreed_plan : Plan
agreed_plan = record { keep = admin_right ∷ []; revoke = test_right ∷ [] }

new_since_iff_example : Has own_right (new_since live_plan agreed_plan) ↔ (
    Has own_right live_plan.revoke
    × ¬ (
        (s : Right) × Has s agreed_plan.revoke
        × (own_right.kind ≡ s.kind)
        × (own_right.party ≡ s.party)))
new_since_iff_example = new_since_iff live_plan agreed_plan own_right

revoke_groups_lem_example :
    IsSorted group_less (revoke_groups live_plan)
    × (sum_by (group_hit (lit "CanActAs") (lit "t-*")) (revoke_groups live_plan) ≤ 1)
    × (sum_by (group_count (lit "CanActAs") (lit "t-*")) (revoke_groups live_plan)
        ≡ sum_by (right_hit (lit "CanActAs") (lit "t-*")) live_plan.revoke)
    × (sum_by (λ g. g.count) (revoke_groups live_plan) ≡ length live_plan.revoke)
revoke_groups_lem_example = revoke_groups_lem live_plan (lit "CanActAs") (lit "t-*")

family-ephemeral_example :
    family (lit "t" ++ (b'-' ∷ (lit "01234567" ++ (b':' ∷ b':' ∷ lit "1220"))))
    ≡ lit "t" ++ lit "-*"
family-ephemeral_example =
    family-ephemeral (lit "t") (lit "01234567") (lit "1220") (unfold lit in (refl, tt))
      (all_true-All is_hex (lit "01234567") (unfold all_true is_hex lit in refl))
      (unfold lit in omega arith) (unfold lit any in refl)

decoded : unmarshal_right test_document ≡ ok test_right
unfolding unmarshal_right decode_envelope decode_map decode_kinds decode_kind party_of get
    lookup_field as_string as_map entries equal act_as_kind lit
decoded = refl

unmarshal_right-marshal_right_example :
    (marshal_right test_right ≡ test_document)
    × (unmarshal_right (marshal_right test_right) ≡ ok test_right)
    × (test_right.kind ≡ act_as_kind → test_right.party ≢ [])
unmarshal_right-marshal_right_example =
    unmarshal_right-marshal_right test_document {r = test_right} decoded

revoke_rights_iff_example :
    ((revoke_rights participant user_name (test_right ∷ []) []).0 ≡ ok (test_right ∷ [])) ↔ (
      (decode_rights
          (lit "newlyRevokedRights")
          (do_request participant (revoke_of user_name (test_right ∷ [])) [])
        ≡ ok (test_right ∷ []))
      × All (Confirmed (test_right ∷ [])) (test_right ∷ []))
revoke_rights_iff_example =
    revoke_rights_iff participant user_name (test_right ∷ []) (test_right ∷ []) []

plan_lines_lem_example :
    ((above rows : List Text) × (plan_lines
          (lit "a-validator-1")
          (lit "http://localhost:11975")
          ci_target
          agreed_plan
          true
        ≡ above ++ rows)
      × AreRows agreed_plan.revoke rows)
    × ((line : Text) × Has line (
          plan_lines
            (lit "a-validator-1")
            (lit "http://localhost:11975")
            ci_target
            agreed_plan
            false)
        × IsGroupRow
            (sum_by (right_hit test_right.kind (family test_right.party)) agreed_plan.revoke)
            test_right.kind
            (family test_right.party)
            line)
plan_lines_lem_example =
    plan_lines_lem (lit "a-validator-1") (lit "http://localhost:11975") ci_target agreed_plan
      test_right (inl refl)
