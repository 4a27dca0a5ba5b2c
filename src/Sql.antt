-- ===== src/Sql.antt =====
-- gcp/cloud_sql.go: the resource `CloudSQL`, the instance that is sent, and what `Read` takes from one. A
-- nil pointer of the API's types is `none`.
pub mod Calls
pub mod Users
pub mod Roundtrip
mod Tests
use Prim.Native.String.{◌++◌, [], ◌∷◌}
use mathlib.Core.List.{[] as nil, ◌∷◌ as cons}
use cli_plugin_gcp.Common.{
  String, Bool, true, false, List, Option, none, some, if◌then◌else◌, ◌==◌, string_eq, Dict,
  insert_all,
}
use cli_plugin_gcp.Common.Int.{ℤ, is_zero}
use cli_plugin_gcp.Common.Action.{Result, ok, panic}
use cli_plugin_gcp.Fields.{Input, set_current}

pub record CloudSql : Type 0 where
  pub name : Input String
  pub project_id : Input String
  pub region : Input String
  pub database_version : Input String
  pub public_ip : Option String
  pub private_ip : Option String
  pub connection_name : Option String
  pub tier : Input String
  pub availability_zone : Input String
  pub ipv4_enabled : Input Bool
  pub backup_enabled : Input Bool
  pub backup_start_time : Input String
  pub insights_enabled : Input Bool
  pub database_flags : Input (Dict String)
  pub settings_version : ℤ

-- sqladmin.BackupConfiguration, Settings, IpMapping and DatabaseInstance
pub record BackupConfiguration : Type 0 where
  pub enabled : Bool
  pub start_time : String
  pub location : String

pub record SqlSettings : Type 0 where
  pub edition : String
  pub tier : String
  pub availability_type : String
  pub ipv4_enabled : Option Bool
  pub backup_configuration : Option BackupConfiguration
  pub query_insights_enabled : Option Bool
  pub database_flags : List (String × String)
  pub settings_version : ℤ

pub record IpMapping : Type 0 where
  pub kind : String
  pub ip_address : String

pub record DatabaseInstance : Type 0 where
  pub name : String
  pub region : String
  pub database_version : String
  pub root_password : String
  pub settings : Option SqlSettings
  pub ip_addresses : List IpMapping
  pub connection_name : String

-- region[:2] of an ASCII text: a panic where it is shorter
unfoldable pub first_two : String → Result String
first_two [] = panic
first_two (a ∷ []) = panic
first_two (a ∷ b ∷ s) = ok (a ∷ b ∷ [])

abbrev pub instance_with : CloudSql → String → String → DatabaseInstance
instance_with o password location = record {
  name = o.name.wanted;
  region = o.region.wanted;
  database_version = o.database_version.wanted;
  root_password = password;
  settings = some (record {
    edition = "ENTERPRISE";
    tier = o.tier.wanted;
    availability_type = o.availability_zone.wanted;
    ipv4_enabled = some o.ipv4_enabled.wanted;
    backup_configuration = some (record {
      enabled = o.backup_enabled.wanted;
      start_time = o.backup_start_time.wanted;
      location = location;
    });
    query_insights_enabled = some o.insights_enabled.wanted;
    database_flags = o.database_flags.wanted;
    settings_version = o.settings_version;
  });
  ip_addresses = nil;
  connection_name = "";
}

abbrev made_instance : CloudSql → String → Result String → Result DatabaseInstance
made_instance o password (ok location) = ok (instance_with o password location)
made_instance o password other = panic

-- with the password of the root user, which is random
unfoldable pub make_database_instance : CloudSql → String → Result DatabaseInstance
make_database_instance o password = made_instance o password (first_two o.region.wanted)

abbrev pub with_ip : IpMapping → CloudSql → CloudSql
with_ip ip o =
    if ip.kind == "PRIVATE"
    then record o { private_ip = some ip.ip_address }
    else if ip.kind == "PRIMARY"
    then record o { public_ip = some ip.ip_address }
    else o

abbrev pub with_ips : List IpMapping → CloudSql → CloudSql
with_ips nil o = o
with_ips (cons ip ips) o = with_ips ips (with_ip ip o)

unfoldable pub set_output_fields : DatabaseInstance → CloudSql → CloudSql
set_output_fields inst o = record (with_ips inst.ip_addresses o) {
  connection_name = some inst.connection_name;
}

abbrev or_off : Option Bool → Bool
or_off none = false
or_off (some b) = b

-- the fields that are set of the settings; a nil configuration is read through
abbrev pub read_settings :
    SqlSettings → Option Bool → Option BackupConfiguration → CloudSql → Result CloudSql
read_settings st none backup o = panic
read_settings st (some ipv4) none o = panic
read_settings st (some ipv4) (some backup) o = ok (record o {
  tier = set_current o.tier st.tier;
  availability_zone = set_current o.availability_zone st.availability_type;
  ipv4_enabled = set_current o.ipv4_enabled ipv4;
  backup_enabled = set_current o.backup_enabled backup.enabled;
  backup_start_time = set_current o.backup_start_time backup.start_time;
  insights_enabled = set_current o.insights_enabled (or_off st.query_insights_enabled);
  database_flags = set_current o.database_flags (insert_all st.database_flags nil);
  settings_version = st.settings_version;
})

abbrev pub read_all_settings : Option SqlSettings → CloudSql → Result CloudSql
read_all_settings none o = panic
read_all_settings (some st) o = read_settings st st.ipv4_enabled st.backup_configuration o

-- what `Read` takes from an instance, with the project and the name that it was asked for
unfoldable pub read_instance : String → String → DatabaseInstance → CloudSql → Result CloudSql
read_instance project name inst o = read_all_settings inst.settings (
    set_output_fields inst (record o {
      project_id = set_current o.project_id project;
      name = set_current o.name name;
      region = set_current o.region inst.region;
      database_version = set_current o.database_version inst.database_version;
    }))
