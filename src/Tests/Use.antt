-- ===== src/Tests/Use.antt =====
-- The use case on a node with one card, which a configurer brings up: a world counts its calls.
use multi_network_interface.Prelude.{
  ℕ, suc, ◌+◌, ◌*◌, ◌≡◌, refl, true, false, [], ◌∷◌, length, ltb, ◌==◌, if◌then◌else◌,
}
use multi_network_interface.Prelude.Int.{ℤ, pos}
use multi_network_interface.Prelude.Text.{
  Text, text, trim_space, to_lower, eqb, split_on, contains, strip_prefix,
}
use multi_network_interface.Prelude.Text.Words.{cut_at}
use multi_network_interface.Errors.{GoError, nil, is_nil, ok, new_validation_error}
use multi_network_interface.Entities.InterfaceName.{InterfaceName}
use multi_network_interface.Entities.Interface.{NetworkInterface, configured}
use multi_network_interface.Host.Queries.{find_interface_name_by_mac, is_interface_up}
use multi_network_interface.Naming.{new_naming}
use multi_network_interface.Configure.{
  ubuntu, Services, Float, retry_policy, is_link_up, preflight_check,
}
use multi_network_interface.Configure.Process.{process}
use multi_network_interface.Configure.Process.Laws.{process-success}
use multi_network_interface.Configure.Execute.{
  round, after_hook, Output, Shared, execute, begin_work,
}
use multi_network_interface.Pool.{Envelope, Pool, RetryPolicy, failed}
use multi_network_interface.Configure.Execute.Refused.{round-preflight}
use multi_network_interface.Configure.Execute.Laws.{execute_counts}
use multi_network_interface.Tests.Files.{decode}
use multi_network_interface.Tests.{ipv4, card, iface, node_with}

abbrev one_name : InterfaceName
one_name = record { value = text "multinic0"; index = 0 }

-- The card is down until it is configured.
unfoldable pub services : GoError → Services ℕ
unfolding node_with
services answer = record {
  host = λ w. node_with (if w == 0 then text "state DOWN" else text "state UP") [];
  getenv = λ key. [];
  detect_os = ok ubuntu;
  all_node_interfaces = λ node. ok (iface ∷ []);
  update_status = λ id status w. (nil, w);
  configure = λ i name w. (answer, suc w);
  config_dir = text "/etc/netplan";
  rollback = λ name w. (nil, w + 10);
  parse_yaml = decode;
}

abbrev pub natural : Float ℕ
natural = record {
  one = 1;
  two = 2;
  is_positive = λ x. ltb 0 x;
  times = λ x y. x * y;
  of_duration = λ n. n;
  to_duration = λ n. pos n;
}

-- An interface whose card the node does not have.
abbrev missing : NetworkInterface
missing = record iface { mac_address = record { value = text "fa:16:3e:00:00:09"; mac = [] } }

is_missing : is_nil (preflight_check (services nil) 0 missing) ≡ false
unfolding preflight_check services node_with eqb new_validation_error find_interface_name_by_mac
    split_on cut_at strip_prefix to_lower trim_space
is_missing = refl

abbrev shared : Shared ℕ
unfolding services
shared = begin_work ipv4 (services nil) natural (pos 3) 2 [] new_naming 0

succeeds : process (services nil) iface one_name 0 ≡ (nil, 1)
unfolding process services find_interface_name_by_mac split_on cut_at strip_prefix to_lower
    trim_space is_link_up is_interface_up contains
succeeds = refl

process-success_example :
    (w₁ : ℕ) × (found : Text) × ((services nil).configure iface one_name 0 ≡ (nil, w₁))
    × (find_interface_name_by_mac ((services nil).host w₁) card ≡ ok found)
    × (is_link_up (services nil) w₁ found ≡ true)
    × ((services nil).update_status (pos 0) configured w₁ ≡ (nil, 1))
process-success_example = process-success (services nil) iface one_name 0 1 succeeds

execute_counts_example :
    (out : Output) × ((execute ipv4 (services nil) natural (pos 3) 2 (text "node-1") new_naming 0).0
      ≡ ok out)
    × (out.processed_count + out.failed_count ≡ out.total_count)
    × (out.total_count ≡ 1)
    × (length out.results ≡ out.processed_count)
    × (length out.failures ≡ out.failed_count)
unfolding services
execute_counts_example =
    execute_counts ipv4 (services nil) natural (pos 3) 2 (text "node-1") new_naming 0 ubuntu
      (iface ∷ []) refl refl

abbrev policy : RetryPolicy NetworkInterface ℤ
unfolding retry_policy
policy = retry_policy natural (pos 3) 2

abbrev second_try : Envelope NetworkInterface
second_try = record { payload = missing; attempt = 1 }

shared_missing : is_nil (preflight_check (services nil) shared.world missing) ≡ false
unfolding shared
shared_missing = is_missing

round-preflight_example :
    round ipv4 (services nil) ubuntu (retry_policy natural (pos 3) 2) second_try [] shared ≡ (
      [],
      after_hook ipv4
          (services nil)
          missing
          failed
          (preflight_check (services nil) shared.world missing)
          shared,
    )
round-preflight_example =
    round-preflight ipv4 (services nil) natural (pos 3) 2 ubuntu second_try [] shared shared_missing
