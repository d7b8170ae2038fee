-- ===== src/AuthCommand.antt =====
-- The endpoints that the commands use: cli/cmd/canton-localnet/auth.go. The flags, the minting of
-- tokens and the printing are left out.
pub mod Precedence
use canton_localnet.Base.{
  Bool, true, false, not, ◌&&◌, Text, lit, Option, none, some, Result, ok, err, ◌>>=◌, wrap,
  is_empty, lookup_key, if◌then◌else◌,
}
use canton_localnet.Slot.{Slot}
use canton_localnet.Slot.EnvFile.{Content}
use canton_localnet.Slot.Resolve.{Endpoints, EnvLookup, ResolveError, resolve, env_is_set, slot_key}
use canton_localnet.Config.{Config, Validator}

pub data AuthError (E : Type 0) : Type 0 where
  configuration : E → AuthError E
  endpoints : ResolveError → AuthError E

-- `yamlSlot` behind the resolution of the configuration.
unfoldable pub yaml_slot : Config × Option Text → Text → Option Validator
unfolding lookup_key
yaml_slot (cfg, none) slot_name = none
yaml_slot (cfg, some path) slot_name = lookup_key slot_name cfg.validators

-- One of the three tests of `applyYAMLOverrides`.
unfoldable pub overrides : EnvLookup → Text → Text → Bool
unfolding env_is_set
overrides lookup value key = not (is_empty value) && not (env_is_set lookup key)

unfoldable pub override : EnvLookup → Slot → Validator → Endpoints → Endpoints
unfolding overrides slot_key lit
override lookup s v ep = record ep {
  party_hint =
      if overrides lookup v.party_hint (slot_key s (lit "_PARTY_HINT"))
      then v.party_hint
      else ep.party_hint;
  client_id =
      if overrides lookup v.auth.client_id (slot_key s (lit "_CLIENT_ID"))
      then v.auth.client_id
      else ep.client_id;
  client_secret =
      if overrides lookup v.auth.client_secret (slot_key s (lit "_CLIENT_SECRET"))
      then v.auth.client_secret
      else ep.client_secret;
}

unfoldable pub apply_yaml_overrides : EnvLookup → Slot → Option Validator → Endpoints → Endpoints
unfolding override
apply_yaml_overrides lookup s none ep = ep
apply_yaml_overrides lookup s (some v) ep = override lookup s v ep

-- `resolveSlotEndpoints`, on the slot and the repository root already found; `configured` is what
-- the resolution of the configuration gives.
unfoldable pub resolve_slot_endpoints :
    {E : Type 0}
    → (Text → Content)
    → EnvLookup
    → Result E (Config × Option Text)
    → Slot
    → Text
    → Result (AuthError E) Endpoints
unfolding resolve yaml_slot apply_yaml_overrides
resolve_slot_endpoints files lookup configured s repo_root = do
  ep ← wrap endpoints (resolve files s repo_root lookup)
  found ← wrap configuration configured
  ok (apply_yaml_overrides lookup s (yaml_slot found s.canonical) ep)
