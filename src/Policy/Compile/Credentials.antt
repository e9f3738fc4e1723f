-- ===== src/Policy/Compile/Credentials.antt =====
-- The credential references of a compiled policy (internal/policy/policy.go), and the compiler's
-- check that every injected credential is one of them (internal/policy/compile/compile.go).
use agent_creance.Prelude.{List, [], ◌∷◌, Option, none, some, Bytes}
use agent_creance.Policy.Rule.{Rule, RuleSet}
use agent_creance.Config.Model
use agent_creance.Config.Model.{Map}
use agent_creance.Config.Merge.{merge_map}

pub record CompiledGithubApp : Type 0 where
  pub key : Bytes
  pub client_id : Bytes
  pub repo : Bytes
  pub permissions : Map Bytes

pub record CompiledOauth2 : Type 0 where
  pub refresh_token : Bytes
  pub client_id : Bytes
  pub token_endpoint : Bytes
  pub scopes : List Bytes

pub record CompiledCredential : Type 0 where
  pub source : Bytes
  pub header : Bytes
  pub template : Bytes
  pub username : Bytes
  pub github_app : Option CompiledGithubApp
  pub oauth2 : Option CompiledOauth2

abbrev pub github_app_from_config : Option Model.GithubAppMint → Option CompiledGithubApp
github_app_from_config none = none
github_app_from_config (some m) =
    some record { key = m.key; client_id = m.client_id; repo = m.repo; permissions = m.permissions }

abbrev pub oauth2_from_config : Option Model.Oauth2Mint → Option CompiledOauth2
oauth2_from_config none = none
oauth2_from_config (some m) = some record {
  refresh_token = m.refresh_token;
  client_id = m.client_id;
  token_endpoint = m.token_endpoint;
  scopes = m.scopes;
}

abbrev pub credential_from_config : Model.Credential → CompiledCredential
credential_from_config c = record {
  source = c.source;
  header = c.header;
  template = c.template;
  username = c.username;
  github_app = github_app_from_config c.github_app;
  oauth2 = oauth2_from_config c.oauth2;
}

-- One entry of the converted map
abbrev pub entry_from_config : Option Model.Credential → Option CompiledCredential
entry_from_config none = none
entry_from_config (some c) = some (credential_from_config c)

abbrev pub credentials_from_config : Map Model.Credential → Map CompiledCredential
credentials_from_config creds name = entry_from_config (creds name)

-- The three layers, a later one winning
abbrev pub merge_credentials :
    Map Model.Credential → Map Model.Credential → Map Model.Credential → Map Model.Credential
merge_credentials global project overlay = merge_map (merge_map global project) overlay

abbrev pub undefined_unless : Bytes → Option CompiledCredential → Option Bytes
undefined_unless name none = some name
undefined_unless name (some _) = none

-- The test of one rule: its name is looked up unless it is empty.
abbrev pub undefined_inject : Map CompiledCredential → Bytes → Option Bytes
undefined_inject creds [] = none
undefined_inject creds (c ∷ name) = undefined_unless (c ∷ name) (creds (c ∷ name))

abbrev pub or_next : {A : Type 0} → Option A → Option A → Option A
or_next none next = next
or_next (some a) next = some a

-- `check`: the first undefined name in a list of rules
unfoldable pub check_injects : Map CompiledCredential → List Rule → Option Bytes
check_injects creds [] = none
check_injects creds (r ∷ rules) =
    or_next (undefined_inject creds r.inject) (check_injects creds rules)

unfoldable pub validate_inject_refs : RuleSet → Map CompiledCredential → Option Bytes
unfolding check_injects
validate_inject_refs rs creds =
    or_next (check_injects creds rs.allow) (check_injects creds rs.deny_always)
