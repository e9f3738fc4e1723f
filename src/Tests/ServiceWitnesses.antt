-- ===== src/Tests/ServiceWitnesses.antt =====
-- Host services of a configuration that are read and written.
use agent_creance.Prelude.{false, ◌∷◌, ◌++◌, codes, any, arith, ◌≡◌, refl}
use agent_creance.Strings.{last_index}
use agent_creance.Config.Model.{HostService}
use agent_creance.Config.Validate.{is_control_rune}
use agent_creance.Config.HostService.{
  service, no_service, control_in_label, not_numeric, out_of_range, atoi, digits, digits_from,
  parse_host_service,
}
use agent_creance.Config.HostService.Printed.{decimal, parse_host_service-decimal}

abbrev database : HostService
database = record { label = codes "db:main"; port = 5432 }

clean_run : any is_control_rune (codes "db:main") ≡ false
unfolding is_control_rune
clean_run = refl

parse_host_service-decimal_example :
    parse_host_service (codes "db:main" ++ b':' ∷ decimal 5433 5432) ≡ service database
parse_host_service-decimal_example =
    parse_host_service-decimal (codes "db:main") 5432 5433 (λ h. cc) clean_run (omega arith)
      (omega arith) (omega arith)

-- Refused: a line break in the label, and ports that are too high, negative or no number
refused_runs :
    (parse_host_service (b'a' ∷ 10 ∷ codes ":80") ≡ no_service control_in_label)
    × (parse_host_service (codes "a:65536") ≡ no_service out_of_range)
    × (parse_host_service (codes "a:-1") ≡ no_service out_of_range)
    × (parse_host_service (codes "a:18446744073709551617") ≡ no_service not_numeric)
unfolding parse_host_service atoi digits digits_from last_index is_control_rune
refused_runs = (refl, refl, refl, refl)
