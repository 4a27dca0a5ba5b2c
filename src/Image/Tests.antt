-- ===== src/Image/Tests.antt =====
-- Runs of the modules on images on concrete inputs.
use cli_plugin_gcp.Common.{ℕ, zero, suc, ◌≡◌, refl, String, true, false, List, [], ◌∷◌, none, some}
use cli_plugin_gcp.Common.Action.{ok, pure}
use cli_plugin_gcp.Common.Texts.{split_second, before_first, after_first, has_prefix, strip}
use cli_plugin_gcp.Fields.{Input}
use cli_plugin_gcp.Image.{Image, ImageService, push, push_loop, ensure_repository}
use cli_plugin_gcp.Image.Pushed.{push-seen}

abbrev asked : {A : Type 0} → A → Input A
asked a = record { current = none; wanted = a }

-- the digest is there from the second inspection on
abbrev inspected : ℕ → List String
inspected zero = []
inspected (suc n) = "shop/web@sha256:1f" ∷ []

abbrev docker : ImageService
docker = record {
  World = ℕ;
  registry = pure tt;
  token = pure "token";
  auth = λ t. t;
  docker = pure tt;
  ping = pure tt;
  image_pull = λ source auth. pure tt;
  drain = pure tt;
  close = pure tt;
  image_tag = λ source name. pure tt;
  image_push = λ name auth. pure tt;
  image_inspect = λ name w. (ok (inspected w), suc w);
  sleep = pure tt;
  get_docker_image = λ path. pure tt;
  create_repository = λ parent repo name. pure none;
  get_operation = λ name. pure (record { name = name; done = true; error = none });
  tick = pure tt;
  get_tag = λ path. pure "versions/sha256:1f";
  delete_tag = λ path. pure tt;
  delete_version = λ path. pure (record { name = path; done = true; error = none });
  any = λ f. f.wanted;
  current = λ f. f.wanted;
  is_changed = λ f. false;
}

abbrev web : Image
web = record {
  name = asked "prod-1a2b/web";
  tag = asked "v1";
  project_id = asked "shop";
  region = asked "europe-west1";
  digest = none;
  source = asked "nginx";
  source_hash = asked "";
  pull = true;
  pull_auth = false;
}

push-seen_example :
    (v : ℕ) × (d : String) × (ds : List String) × (digest : String) × ((docker.image_inspect
        "europe-west1-docker.pkg.dev/shop/prod-1a2b/web:v1" v).0
      ≡ ok (d ∷ ds))
    × (split_second "@" d ≡ some digest)
    × (record web { digest = some "sha256:1f" } ≡ record web { digest = some digest })
unfolding push push_loop ensure_repository split_second before_first after_first has_prefix strip
push-seen_example = push-seen docker 1 web 0 (record web { digest = some "sha256:1f" }) refl
