-- ===== src/DumpArgs.antt =====
-- plugin/command_dbdump.go: the image and the arguments of the dump of a database. The tables are texts,
-- and `itoa` is the "%d" of fmt.Sprintf.
mod Tests
use Prim.Native.String.{◌++◌}
use mathlib.Core.List.{◌++◌ as append}
use cli_plugin_gcp.Common.{
  ℕ, List, [], ◌∷◌, map, String, Bool, true, false, ◌||◌, if◌then◌else◌, ◌==◌, string_eq,
}
use cli_plugin_gcp.Common.Texts.{has_prefix}
use cli_plugin_gcp.Common.Action.{Result, ok, panic}

unfoldable pub database_docker_image : String → String
unfolding has_prefix
database_docker_image version =
    if has_prefix version "MYSQL_"
    then "schnitzler/mysqldump:3.18"
    else if version == "POSTGRES_9_6"
    then "postgres:9-alpine"
    else if version == "POSTGRES_10"
    then "postgres:10-alpine"
    else if version == "POSTGRES_11"
    then "postgres:11-alpine"
    else if version == "POSTGRES_12"
    then "postgres:12-alpine"
    else if version == "POSTGRES_13"
    then "postgres:13-alpine"
    else if version == "POSTGRES_14"
    then "postgres:14-alpine"
    else if version == "POSTGRES_15"
    then "postgres:15-alpine"
    else if version == "POSTGRES_16"
    then "postgres:16-alpine"
    else if version == "POSTGRES_17"
    then "postgres:17-alpine"
    else ""

pub record Dump : Type 0 where
  pub port : ℕ
  pub database : String
  pub user : String
  pub password : String
  pub tables : List String
  pub exclude_tables : List String
  pub verbose : Bool
  pub override : Bool
  pub additional_args : List String

abbrev flags_if : Bool → List String → List String
flags_if b flags = if b then flags else []

-- strings.Join(ts, ",")
unfoldable pub join_commas : List String → String
join_commas [] = ""
join_commas (t ∷ []) = t
join_commas (t ∷ u ∷ ts) = t ++ "," ++ join_commas (u ∷ ts)

abbrev ignored : List String → List String
ignored [] = []
ignored (t ∷ ts) = ("--ignore-table={" ++ join_commas (t ∷ ts) ++ "}") ∷ []

-- the arguments and the environment
module _ (itoa : ℕ → String) where
  unfoldable pub database_docker_postgres_dump_args : Dump → List String × List String
  database_docker_postgres_dump_args d = (
    append ("pg_dump" ∷ []) (
        append (if d.override then [] else "--format=custom" ∷ "--clean" ∷ "--no-owner" ∷ []) (
          append (flags_if d.verbose ("--verbose" ∷ [])) (
            append (map (λ t. "--table=" ++ t) d.tables)
              (append (map (λ t. "--exclude-table=" ++ t) d.exclude_tables) d.additional_args)))),
    "PGHOST=host.docker.internal"
        ∷ ("PGPORT=" ++ itoa d.port)
        ∷ ("PGDATABASE=" ++ d.database)
        ∷ ("PGUSER=" ++ d.user)
        ∷ ("PGPASSWORD=" ++ d.password)
        ∷ [],
  )

  unfoldable pub database_docker_mysql_dump_args : Dump → List String × List String
  unfolding join_commas
  database_docker_mysql_dump_args d = (
    append ("mysqldump" ∷ ("--user=" ++ d.user) ∷ []) (
        append
          (if d.override then [] else "--single-transaction" ∷ "--compress" ∷ "--routines" ∷ [])
          (append (flags_if d.verbose ("--verbose" ∷ [])) (
            append (ignored (map (λ t. d.database ++ "." ++ t) d.exclude_tables))
              (append d.additional_args (d.database ∷ d.tables))))),
    "MYSQL_HOST=host.docker.internal"
        ∷ ("MYSQL_TCP_PORT=" ++ itoa d.port)
        ∷ ("MYSQL_PWD=" ++ d.password)
        ∷ [],
  )

  unfoldable pub database_docker_dump_args : String → Dump → Result (List String × List String)
  unfolding has_prefix database_docker_postgres_dump_args database_docker_mysql_dump_args
  database_docker_dump_args version d =
      if has_prefix version "POSTGRES_"
      then ok (database_docker_postgres_dump_args d)
      else if has_prefix version "MYSQL_"
      then ok (database_docker_mysql_dump_args d)
      else panic

unfoldable pub has_help_param : List String → Bool
has_help_param [] = false
has_help_param (a ∷ args) = if (a == "-h") || (a == "--help") then true else has_help_param args
