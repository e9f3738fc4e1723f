-- ===== src/Config/Merge.antt =====
-- `merge` (internal/config/merge.go): one configuration layered over another.
pub mod Dedupe
pub mod Equality
pub mod Laws
use agent_creance.Prelude.{
  Bool, List, [], ◌∷◌, ◌++◌, Option, none, some, Bytes, if◌then◌else◌, bytes_eq,
}
use agent_creance.Config.Model.{
  Agent, Safehouse, HostService, Generator, Rule, Egress, Network, Map, Credential, Config,
}
use agent_creance.Config.Merge.Dedupe.{Equal, dedupe}
use agent_creance.Config.Merge.Equality.{of_bytes, of_host_service, of_generator, of_rule}

abbrev pub first_non_empty_string : Bytes → Bytes → Bytes
first_non_empty_string [] base = base
first_non_empty_string (c ∷ over) base = c ∷ over

abbrev pub first_non_empty_slice : List Bytes → List Bytes → List Bytes
first_non_empty_slice [] base = base
first_non_empty_slice (s ∷ over) base = s ∷ over

-- `concat`, `concatHS`, `concatGenerators` and `concatRules`.
unfoldable pub concat : {A : Type 0} → List A → List A → List A
concat [] b = b
concat (x ∷ a) [] = x ∷ a
concat (x ∷ a) (y ∷ b) = (x ∷ a) ++ (y ∷ b)

-- The union of two lists.
abbrev pub union : {A : Type 0} → Equal A → List A → List A → List A
union eq base over = dedupe eq (concat base over)

-- `mergeEnv` and `mergeCredentials`.
abbrev pub or_else : {V : Type 0} → Option V → Option V → Option V
or_else (some v) o = some v
or_else none o = o

abbrev pub merge_map : {V : Type 0} → Map V → Map V → Map V
merge_map base over k = or_else (over k) (base k)

abbrev pub merge : Config → Config → Config
merge base over = record {
  agent = record {
    command = first_non_empty_slice over.agent.command base.agent.command;
    workdir = first_non_empty_string over.agent.workdir base.agent.workdir;
  };
  safehouse = record {
    add_dirs_rw = union of_bytes base.safehouse.add_dirs_rw over.safehouse.add_dirs_rw;
    add_dirs_ro = union of_bytes base.safehouse.add_dirs_ro over.safehouse.add_dirs_ro;
    enable = union of_bytes base.safehouse.enable over.safehouse.enable;
  };
  include = [];
  network = record {
    host_services = union of_host_service base.network.host_services over.network.host_services;
    egress = record {
      generators = union of_generator base.network.egress.generators over.network.egress.generators;
      allow = union of_rule base.network.egress.allow over.network.egress.allow;
      deny_always = union of_rule base.network.egress.deny_always over.network.egress.deny_always;
    };
  };
  env = merge_map base.env over.env;
  credentials = merge_map base.credentials over.credentials;
  warnings = [];
}
