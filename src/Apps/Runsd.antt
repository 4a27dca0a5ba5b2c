-- ===== src/Apps/Runsd.antt =====
-- deploy/app_service.go: `addRunsd`. What starts and waits for docker build is a parameter, with what the
-- command writes to its standard error.
use Prim.Native.String.{◌++◌}
use mathlib.Core.List.{◌++◌ as append}
use cli_plugin_gcp.Common.{String, Bool, true, false, List, [], ◌∷◌, if◌then◌else◌, ◌==◌, string_eq}
use cli_plugin_gcp.Common.Texts.{before_first, join}
use cli_plugin_gcp.Common.Action.{
  Action, Result, ok, err, panic, Fault, text, try, pure, fail, crash, ◌>>=◌, ◌>>◌,
}
use cli_plugin_gcp.Image.{Image}
use cli_plugin_gcp.Apps.{AppBuild, AppPlanner, Inspect, asked}

-- strings.SplitN(image, ":", 2)[0] + "/runsd"
abbrev pub runsd_image : AppBuild → String
runsd_image b = before_first ":" b.local_docker_image ++ "/runsd"

abbrev is_nil : List String → Bool
is_nil [] = true
is_nil (x ∷ xs) = false

abbrev user_args : String → List String
user_args user = if user == "" then [] else "--user" ∷ user ∷ []

-- the entrypoint of the image, behind runsd
unfoldable pub entrypoint_of : Inspect → List String
entrypoint_of i = append ("/bin/runsd" ∷ []) (
    append (user_args i.user)
      (append ("--" ∷ []) (if is_nil i.entrypoint then i.cmd else i.entrypoint)))

abbrev home_env : String → String
home_env user = if user == "" then "" else "ENV HOME=/home/" ++ user

abbrev docker_suffix : Inspect → String
docker_suffix i =
    if is_nil i.entrypoint
    then ""
    else if is_nil i.cmd
    then ""
    else "CMD [\"" ++ join "\" , \"" i.cmd ++ "\"]"

-- RunsdDownloadLink of gcp/consts.go
abbrev download_link : String
download_link = "https://github.com/outblocks/runsd/releases/download/v0.0.2-rc.2/runsd"

unfoldable pub dockerfile_content : AppBuild → Inspect → String
unfolding entrypoint_of
dockerfile_content b i =
    "\nFROM "
    ++ b.local_docker_image
    ++ "\nUSER root\n"
    ++ home_env i.user
    ++ "\n\nADD "
    ++ download_link
    ++ " /bin/runsd\nRUN chmod +x /bin/runsd\n\nENTRYPOINT [\""
    ++ join "\", \"" (entrypoint_of i)
    ++ "\"]\n"
    ++ docker_suffix i

module _ (l : AppPlanner) where
  open l use {World}

  -- an action with a deferred one, whose error is dropped
  abbrev deferred : {A : Type 0} → Action World (Unit {0}) → Action World A → Action World A
  deferred after m = λ w. ((m w).0, (after (m w).1).1)

  -- the error of the command, or what it has written
  abbrev build_failed : Fault → Action World (Unit {0})
  build_failed e = l.build_stderr >>= λ s. if s == "" then fail e else fail (text s)

  abbrev waited_build : Result (Unit {0}) → Action World (Unit {0})
  waited_build (ok u) = pure u
  waited_build (err e) = build_failed e
  waited_build panic = crash

  abbrev built : AppBuild → Inspect → String → Action World (Unit {0})
  built b i dir =
      l.write_file (l.join_path dir "Dockerfile") (dockerfile_content b i)
      >> l.run_build dir (runsd_image b)
      >> try l.wait_build
      >>= waited_build

  abbrev with_runsd : AppBuild → Image → Action World Image
  with_runsd b o = l.image_inspect (runsd_image b) >>= λ i.
      pure (record o { source_hash = asked i.id; source = asked (runsd_image b) })

  -- the image is built in a directory that is removed in the end
  unfoldable pub add_runsd : AppBuild → Image → Bool → Action World Image
  add_runsd b o apply =
      l.docker
      >> (if apply
          then with_runsd b o
          else (l.image_inspect b.local_docker_image >>= λ i. l.mkdir_temp >>= λ dir.
              deferred (l.remove_all dir) (built b i dir >> with_runsd b o)))
