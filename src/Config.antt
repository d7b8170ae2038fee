-- ===== src/Config.antt =====
-- The consumer configuration: cli/internal/yamlconfig/yamlconfig.go. Decoding YAML is left out:
-- a document is the `rawConfig` that it decodes to. The maps keyed by slot are lists, in the
-- order in which Go happens to visit them.
pub mod Merge
pub mod Valid
pub mod Stored
pub mod Layers
pub mod Env
pub mod Profiles
pub mod Discover
use canton_localnet.Base.{Bool, true, false, Text, lit, List, [], ◌∷◌, Option, none, some, map}
use canton_localnet.Slot.{canonicals}

unfoldable pub schema_version : Text
unfolding lit
schema_version = lit "preview-1"

pub record Modules : Type 0 where
  pub obs : Bool
  pub pqs : Bool

pub record Auth : Type 0 where
  pub client_id : Text
  pub client_secret : Text

pub record Party : Type 0 where
  pub name : Text
  pub primary : Bool

pub record Validator : Type 0 where
  pub enabled : Bool
  pub party_hint : Text
  pub auth : Auth
  pub parties : List Party

pub record Config : Type 0 where
  pub version : Text
  pub modules : Modules
  pub multi_sync : Bool
  pub validators : List (Text × Validator)

pub record RawModules : Type 0 where
  pub obs : Option Bool
  pub pqs : Option Bool

pub record RawAuth : Type 0 where
  pub client_id : Option Text
  pub client_secret : Option Text

-- `none` for a list of parties that is absent.
pub record RawValidator : Type 0 where
  pub enabled : Option Bool
  pub party_hint : Option Text
  pub auth : Option RawAuth
  pub parties : Option (List Party)

-- A validator may be present with no value.
pub record RawConfig : Type 0 where
  pub version : Text
  pub modules : Option RawModules
  pub multi_sync : Option Bool
  pub validators : List (Text × Option RawValidator)

unfoldable pub default_validator : Text → Validator
default_validator slot_name = record {
  enabled = true;
  party_hint = slot_name;
  auth = record { client_id = []; client_secret = [] };
  parties = [];
}

unfoldable pub defaults : Config
unfolding schema_version default_validator
defaults = record {
  version = schema_version;
  modules = record { obs = true; pqs = true };
  multi_sync = false;
  validators = map (λ name. (name, default_validator name)) canonicals;
}
