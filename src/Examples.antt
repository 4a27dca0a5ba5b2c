-- ===== src/Examples.antt =====
-- Values for the parameters of the model, at which the tests and the examples run it. It is no part
-- of the program.
pub mod Numbers
pub mod Apps
use cli_plugin_gcp.Common.{
  ℕ, ◌≤◌, String, false, len, leb, [], ◌∷◌, if◌then◌else◌, arith, Bool-cases, inl, inr,
}
use cli_plugin_gcp.Common.Action.{ok, pure}
use cli_plugin_gcp.Gcs.{BucketAttrs}
use cli_plugin_gcp.Gcs.Memory.{Memory, memory, blank}
use cli_plugin_gcp.Naming.{Util, IsUtil, Env}
use cli_plugin_gcp.State.{Host, Plugin}

abbrev cut : String → ℕ → String
cut s n = if leb (len s) n then s else ""

-- names that are clean already, and one digest
abbrev pub util : Util
util = record {
  sanitize_name = λ s lower dash. s;
  limit_string = cut;
  sha_string = λ s. "0a1b2c3d";
}

cut_le : (s : String) (n : ℕ) → len (cut s n) ≤ n
cut_le s n = elim (Bool-cases (leb (len s) n)) [
  | inl short ↦ rw short (ground arith)
  | inr long ↦ rw long (omega arith)
]

pub util-IsUtil : IsUtil util
util-IsUtil = record { limit_len = cut_le; limit_short = λ s n h. ground arith }

abbrev pub dev : Env
dev = record { env = "dev"; project_name = "shop"; project_id = "shop-1" }

abbrev pub plugin : Plugin
plugin = record { env = dev; project_id = "gcp-shop"; region = "us" }

-- Without any property, so each has its default.
abbrev pub host : Host
host = record {
  gcs = memory;
  util = util;
  Fields = Unit {0};
  optional_string = λ d f k m. ok d;
  storage_client = pure tt;
  send_state = λ r. pure tt;
}

abbrev plain : BucketAttrs
plain = record { location = "us"; versioning_enabled = false; rules = []; cors = [] }

-- the buckets of the state and of the locks, with nothing in them
abbrev pub empty : Memory
empty = record blank {
  buckets = ("shop-0a1b2c3d", plain) ∷ ("shop-locks-0a1b2c3d", plain) ∷ ("locks", plain) ∷ [];
}
