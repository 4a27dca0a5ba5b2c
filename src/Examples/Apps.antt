-- ===== src/Examples/Apps.antt =====
-- A planner of apps that keeps the keys it registers, and decoders that take what they are given.
use Prim.Native.String.{◌++◌}
use cli_plugin_gcp.Common.{
  ℕ, ◌*◌, String, true, false, not, ◌||◌, List, [], ◌∷◌, some, if◌then◌else◌, string_eq, nat_beq,
  any,
}
use cli_plugin_gcp.Common.Int.{pos, is_zero, int_ltb}
use cli_plugin_gcp.Common.Action.{ok, err, text, pure}
use cli_plugin_gcp.Examples.Numbers.{number}
use cli_plugin_gcp.Apps.{AppPlanner, AppArgs}
use cli_plugin_gcp.Apps.Options.{ServiceAppDeployOptions, Library, or_default}

abbrev pub Options : Type 0
Options = ServiceAppDeployOptions ℕ

-- a float by its thousandths
abbrev pub rule_defaults : Options → Options
rule_defaults o = record o {
  skip_runsd = if o.skip_runsd then o.skip_runsd else true;
  container_concurrency = or_default 250 o.container_concurrency;
  cpu_throttling = some true;
  startup_cpu_boost = some false;
}

abbrev pub lib : Library
lib = record {
  Input = Options;
  Float = ℕ;
  float = λ n. n * 1000;
  is_zero_float = λ f. nat_beq f 0;
  milli = λ f. pos f;
  decode_service = λ o. ok o;
  decode_static = λ o. err (text "no object");
  decode_function = λ o. err (text "no object");
  set_defaults = λ o. ok (rule_defaults o);
  set_function_defaults = λ o. ok o;
  in_ok = λ fs f. any (λ g. nat_beq g f) fs;
  min_ok = λ m v. is_zero v || not (int_ltb v m);
  max_ok = λ m v. is_zero v || not (int_ltb m v);
  invalid = text "invalid";
}

abbrev pub planner : AppPlanner
planner = record {
  World = List String;
  Vars = Unit {0};
  Url = String;
  register = λ app key r w. (ok tt, key ∷ w);
  register_plugin = λ name key r w. (ok tt, key ∷ w);
  is_existing = λ app key. pure false;
  get_archive = λ app o. pure o;
  id = λ s. s ++ "-dev";
  image_id = λ s. "dev/" ++ s;
  global_id = λ project s. s ++ project;
  image_ref = λ i. i.name.wanted;
  parse_url = λ s. ok s;
  resolve_url = λ base u. base ++ u;
  itoa = λ n. number (pos n);
  itoa_int = number;
  expand = λ vars s. ok s;
  docker = pure tt;
  image_inspect = λ s. pure (record { id = "sha"; user = ""; entrypoint = []; cmd = [] });
  mkdir_temp = pure "/tmp/runsd";
  remove_all = λ dir. pure tt;
  join_path = λ a b. a ++ "/" ++ b;
  write_file = λ path content. pure tt;
  run_build = λ dir tag. pure tt;
  wait_build = pure tt;
  build_stderr = pure "";
  project_dir = "/src";
  check_dir = λ dir. pure (some dir);
  find_files = λ dir patterns. pure [];
  type_by_path = λ path. "";
}

abbrev pub place : AppArgs
place = record { project_id = "gcp-shop"; region = "eu" }
