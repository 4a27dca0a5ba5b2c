-- ===== src/DumpArgs/Tests.antt =====
-- Runs of the module on the dumps of databases on concrete inputs.
use cli_plugin_gcp.Common.{◌≡◌, refl, true, false, [], ◌∷◌}
use cli_plugin_gcp.Common.Action.{ok}
use cli_plugin_gcp.Common.Texts.{has_prefix}
use cli_plugin_gcp.DumpArgs.{
  Dump, database_docker_dump_args, database_docker_mysql_dump_args, database_docker_image,
  has_help_param, join_commas,
}

abbrev dump : Dump
dump = record {
  port = 13306;
  database = "shop";
  user = "ada";
  password = "secret";
  tables = [];
  exclude_tables = "logs" ∷ "jobs" ∷ [];
  verbose = false;
  override = true;
  additional_args = [];
}

-- the tables that are left out are one argument, with braces
excluded :
    database_docker_dump_args (λ n. "13306") "MYSQL_8_0" dump
    ≡ ok (
      "mysqldump" ∷ "--user=ada" ∷ "--ignore-table={shop.logs,shop.jobs}" ∷ "shop" ∷ [],
      "MYSQL_HOST=host.docker.internal" ∷ "MYSQL_TCP_PORT=13306" ∷ "MYSQL_PWD=secret" ∷ [],
    )
unfolding database_docker_dump_args database_docker_mysql_dump_args has_prefix join_commas
excluded = refl

image : database_docker_image "POSTGRES_16" ≡ "postgres:16-alpine"
unfolding database_docker_image has_prefix
image = refl

help : has_help_param ("shop" ∷ "--help" ∷ []) ≡ true
unfolding has_help_param
help = refl
