-- ===== src/Sql/Roundtrip.antt =====
-- What `Read` of gcp/cloud_sql.go finds in an instance that `Create` or `Update` has sent.
use cli_plugin_gcp.Common.{
  ◌≡◌, refl, String, true, List, [], ◌∷◌, Option, some, Dict, lookup, insert_all, lookup-insert_all,
  is_distinct, keys, arith, ◌∙◌, ◌==◌, string_eq, Bool-cases, inl, inr,
}
use cli_plugin_gcp.Common.Action.{ok}
use cli_plugin_gcp.Fields.{Agrees, set_current}
use cli_plugin_gcp.Sql.{
  CloudSql, IpMapping, DatabaseInstance, first_two, instance_with, make_database_instance, with_ip,
  with_ips, set_output_fields, read_instance,
}

-- the state holds what is asked for
pub record IsApplied (o : CloudSql) : Type 0 where
  pub name : Agrees o.name
  pub project_id : Agrees o.project_id
  pub region : Agrees o.region
  pub database_version : Agrees o.database_version
  pub tier : Agrees o.tier
  pub availability_zone : Agrees o.availability_zone
  pub ipv4_enabled : Agrees o.ipv4_enabled
  pub backup_enabled : Agrees o.backup_enabled
  pub backup_start_time : Agrees o.backup_start_time
  pub insights_enabled : Agrees o.insights_enabled

-- The addresses of an instance change no other field.
with_addresses : Option String → Option String → CloudSql → CloudSql
with_addresses public private o = record o { public_ip = public; private_ip = private }

with_ip-eq :
    (ip : IpMapping) (o : CloudSql) (public private : Option String)
    → with_addresses public private (with_ip ip o) ≡ with_addresses public private o
unfolding with_addresses
with_ip-eq ip o public private = elim (Bool-cases (ip.kind == "PRIVATE")) [
  | inl e ↦ rw e refl
  | inr e ↦ elim (Bool-cases (ip.kind == "PRIMARY")) [
    | inl e' ↦ rw (e, e') refl
    | inr e' ↦ rw (e, e') refl
  ]
]

with_ips-eq :
    (ips : List IpMapping) (o : CloudSql)
    → (public : Option String) × (private : Option String) × (with_ips ips o
        ≡ with_addresses public private o)
unfolding with_addresses
with_ips-eq [] o = (o.public_ip, o.private_ip, refl)
with_ips-eq (ip ∷ ips) o =
    let (public, private, same) = with_ips-eq ips (with_ip ip o) in
    (public, private, same ∙ with_ip-eq ip o public private)

module _ (o : CloudSql) (password location connection : String) (ips : List IpMapping) where
  -- the instance that is made, once it has its addresses and its connection name
  abbrev pub created : DatabaseInstance
  created = record (instance_with o password location) {
    ip_addresses = ips;
    connection_name = connection;
  }

  -- What `Create` sends is what `Read` finds: where the region has two characters or more, the instance is
  -- made, and read back, with whatever addresses it has by then, it has every field as it is asked for,
  -- each flag with its value if no flag is there twice, and its connection name.
  pub read_instance-make_database_instance :
      first_two o.region.wanted ≡ ok location
      → is_distinct (keys o.database_flags.wanted) ≡ true
      → (make_database_instance o password ≡ ok (instance_with o password location))
        × ((o' : CloudSql) × (read_instance o.project_id.wanted o.name.wanted created o ≡ ok o')
            × IsApplied o'
            × (o'.connection_name ≡ some connection)
            × ((flags : Dict String) × (o'.database_flags.current ≡ some flags)
                × ((k : String) → lookup k flags ≡ lookup k o.database_flags.wanted)))
  unfolding make_database_instance read_instance set_output_fields with_addresses
  read_instance-make_database_instance long distinct =
      let seen : CloudSql = record o {
        project_id = set_current o.project_id o.project_id.wanted;
        name = set_current o.name o.name.wanted;
        region = set_current o.region o.region.wanted;
        database_version = set_current o.database_version o.database_version.wanted;
      } in
      let (public, private, same) = with_ips-eq ips seen in
      let found : CloudSql = record o {
        project_id = set_current o.project_id o.project_id.wanted;
        name = set_current o.name o.name.wanted;
        region = set_current o.region o.region.wanted;
        database_version = set_current o.database_version o.database_version.wanted;
        public_ip = public;
        private_ip = private;
        connection_name = some connection;
        tier = set_current o.tier o.tier.wanted;
        availability_zone = set_current o.availability_zone o.availability_zone.wanted;
        ipv4_enabled = set_current o.ipv4_enabled o.ipv4_enabled.wanted;
        backup_enabled = set_current o.backup_enabled o.backup_enabled.wanted;
        backup_start_time = set_current o.backup_start_time o.backup_start_time.wanted;
        insights_enabled = set_current o.insights_enabled o.insights_enabled.wanted;
        database_flags = set_current o.database_flags (insert_all o.database_flags.wanted []);
      } in
      (
        rw long refl,
        (
          found,
          rw same refl,
          record {
            name = refl;
            project_id = refl;
            region = refl;
            database_version = refl;
            tier = refl;
            availability_zone = refl;
            ipv4_enabled = refl;
            backup_enabled = refl;
            backup_start_time = refl;
            insights_enabled = refl;
          },
          refl,
          (
            insert_all o.database_flags.wanted [],
            refl,
            λ k. ground (arith, lookup-insert_all o.database_flags.wanted [] k distinct),
          ),
        ),
      )
