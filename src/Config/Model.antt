-- ===== src/Config/Model.antt =====
-- The configuration that a creance.yaml describes (internal/config/config.go). A map is a function
-- from its keys; a list that is nil and one that is empty are the same list, but for a rule's paths
-- and methods.
use agent_creance.Prelude.{ℕ, Bool, List, Option, Bytes}

pub record Agent : Type 0 where
  pub command : List Bytes
  pub workdir : Bytes

pub record Safehouse : Type 0 where
  pub add_dirs_rw : List Bytes
  pub add_dirs_ro : List Bytes
  pub enable : List Bytes

pub record HostService : Type 0 where
  pub label : Bytes
  pub port : ℕ

pub record Generator : Type 0 where
  pub kind : Bytes
  pub path : Bytes

-- `none` is an omitted key, which is not an empty list.
pub record Rule : Type 0 where
  pub host : Bytes
  pub paths : Option (List Bytes)
  pub methods : Option (List Bytes)
  pub mode : Bytes
  pub inject : Bytes
  pub in_cage : Bool
  pub reason : Bytes

pub record Egress : Type 0 where
  pub generators : List Generator
  pub allow : List Rule
  pub deny_always : List Rule

pub record Network : Type 0 where
  pub host_services : List HostService
  pub egress : Egress

abbrev pub Map : Type 0 → Type 0
Map V = Bytes → Option V

pub record GithubAppMint : Type 0 where
  pub key : Bytes
  pub client_id : Bytes
  pub repo : Bytes
  pub permissions : Map Bytes

pub record Oauth2Mint : Type 0 where
  pub refresh_token : Bytes
  pub client_id : Bytes
  pub token_endpoint : Bytes
  pub scopes : List Bytes

pub record Credential : Type 0 where
  pub source : Bytes
  pub header : Bytes
  pub template : Bytes
  pub username : Bytes
  pub github_app : Option GithubAppMint
  pub oauth2 : Option Oauth2Mint

pub record Config : Type 0 where
  pub agent : Agent
  pub safehouse : Safehouse
  pub include : List Bytes
  pub network : Network
  pub env : Map Bytes
  pub credentials : Map Credential
  pub warnings : List Bytes
