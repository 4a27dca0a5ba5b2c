-- ===== src/Sql/Tests.antt =====
-- Runs of the modules on Cloud SQL on concrete inputs.
use cli_plugin_gcp.Common.{◌≡◌, refl, String, true, false, List, [], ◌∷◌, none, some, Dict, lookup}
use cli_plugin_gcp.Common.Int.{pos}
use cli_plugin_gcp.Common.Action.{ok, panic, fail, pure, api}
use cli_plugin_gcp.Fields.{Input}
use cli_plugin_gcp.Sql.{
  CloudSql, IpMapping, first_two, instance_with, make_database_instance, read_instance,
}
use cli_plugin_gcp.Sql.Calls.{SqlService}
use cli_plugin_gcp.Sql.Users.{CloudSqlUser, users_by_name, read_user, read_user-new}
use cli_plugin_gcp.Sql.Roundtrip.{IsApplied, created, read_instance-make_database_instance}

asked : {A : Type 0} → A → Input A
asked a = record { current = none; wanted = a }

abbrev shop_in : String → CloudSql
shop_in region = record {
  name = asked "shop-x1";
  project_id = asked "gcp-shop";
  region = asked region;
  database_version = asked "POSTGRES_15";
  public_ip = none;
  private_ip = none;
  connection_name = none;
  tier = asked "db-f1-micro";
  availability_zone = asked "ZONAL";
  ipv4_enabled = asked true;
  backup_enabled = asked true;
  backup_start_time = asked "05:00";
  insights_enabled = asked true;
  database_flags = asked (("max_connections", "100") ∷ []);
  settings_version = pos 0;
}

abbrev ips : List IpMapping
ips = record { kind = "PRIMARY"; ip_address = "34.1.2.3" } ∷ []

read_instance-make_database_instance_example :
    (make_database_instance (shop_in "europe-west1") "pw"
      ≡ ok (instance_with (shop_in "europe-west1") "pw" "eu"))
    × ((o' : CloudSql) × (read_instance "gcp-shop" "shop-x1"
            (created (shop_in "europe-west1") "pw" "eu" "shop:eu" ips)
            (shop_in "europe-west1")
          ≡ ok o')
        × IsApplied o'
        × (o'.connection_name ≡ some "shop:eu")
        × ((flags : Dict String) × (o'.database_flags.current ≡ some flags)
            × ((k : String) → lookup k flags ≡ lookup k (("max_connections", "100") ∷ []))))
unfolding asked first_two
read_instance-make_database_instance_example =
    read_instance-make_database_instance (shop_in "europe-west1") "pw" "eu" "shop:eu" ips refl refl

-- a region of one character
short_region : make_database_instance (shop_in "e") "pw" ≡ panic
unfolding make_database_instance first_two asked
short_region = refl

-- every call of the API ends with an error of the quota
abbrev exhausted : SqlService
exhausted = record {
  World = Unit {0};
  client = pure tt;
  get_instance = λ project name. fail (api 429 []);
  insert_instance = λ project inst. fail (api 429 []);
  update_instance = λ project name inst. fail (api 429 []);
  delete_instance = λ project name. fail (api 429 []);
  get_database = λ project inst name. fail (api 429 []);
  insert_database = λ project inst name. fail (api 429 []);
  delete_database = λ project inst name. fail (api 429 []);
  list_users = λ project inst. fail (api 429 []);
  insert_user = λ project inst u. fail (api 429 []);
  update_user = λ project inst name host u. fail (api 429 []);
  delete_user = λ project inst name. fail (api 429 []);
  get_operation = λ project name. fail (api 429 []);
  tick = pure tt;
  lock = λ key. pure tt;
  unlock = λ key. pure tt;
  cached = λ key list. list;
  random_password = pure "pw";
  any = λ f. f.wanted;
  current = λ f. f.wanted;
}

abbrev admin : CloudSqlUser
admin = record {
  project_id = asked "gcp-shop";
  instance_name = asked "shop-x1";
  name = asked "admin";
  password = asked "secret";
  hostname = asked "";
}

read_user-new_example : (read_user exhausted admin tt).0 ≡ ok (false, admin)
unfolding users_by_name
read_user-new_example = read_user-new exhausted admin tt tt (api 429 []) refl refl
