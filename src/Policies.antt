-- ===== src/Policies.antt =====
-- The access policies of run/v1 and cloudfunctions/v1, as far as gcp/cloud_run.go and
-- gcp/cloud_function.go use them: lists of bindings.
use cli_plugin_gcp.Common.{String, List}

pub record Binding : Type 0 where
  pub role : String
  pub members : List String

-- ACLAllUsers of gcp/consts.go
abbrev pub all_users : String
all_users = "allUsers"
