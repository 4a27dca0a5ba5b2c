-- ===== src/Apps/Options.antt =====
-- The deploy options of the three kinds of apps, and their defaults and limits: `NewServiceAppDeployOptions`
-- of deploy/app_service.go, `NewStaticAppDeployOptions` of deploy/app_static.go and
-- `NewFunctionAppDeployOptions` of deploy/app_function.go. Decoding, creasty/defaults and
-- ozzo-validation are parameters, and so is float64.
use cli_plugin_gcp.Common.{ℕ, String, Bool, ◌&&◌, List, [], ◌∷◌, Option, if◌then◌else◌}
use cli_plugin_gcp.Common.Int.{ℤ, pos, is_zero, int_ltb}
use cli_plugin_gcp.Common.Action.{Result, ok, err, panic, Fault, wrap}

pub record ServiceAppDeployOptions (Float : Type 0) : Type 0 where
  pub cpu_limit : Float
  pub memory_limit : ℤ
  pub min_scale : ℤ
  pub max_scale : ℤ
  pub timeout : ℤ
  pub skip_runsd : Bool
  pub container_concurrency : ℤ
  pub execution_environment : String
  pub cpu_throttling : Option Bool
  pub startup_cpu_boost : Option Bool
  pub service_account_name : String
  pub egress_network : String
  pub egress_subnet : String
  pub egress_mode : String

pub record StaticAppDeployOptions : Type 0 where
  pub min_scale : ℤ
  pub max_scale : ℤ
  pub timeout : ℤ
  pub patterns : List String

pub record FunctionAppDeployOptions : Type 0 where
  pub memory_limit : ℤ
  pub min_scale : ℤ
  pub max_scale : ℤ
  pub timeout : ℤ

-- `decode` is MapstructureJSONDecode and `set_defaults` defaults.Set; `in_ok`, `min_ok` and `max_ok` are
-- the rules In, Min and Max of ozzo-validation, and `invalid` is the error of ValidateStruct.
pub record Library : Type 1 where
  pub Input : Type 0
  pub Float : Type 0
  pub float : ℕ → Float
  pub is_zero_float : Float → Bool
  pub milli : Float → ℤ
  pub decode_service : Input → Result (ServiceAppDeployOptions Float)
  pub decode_static : Input → Result StaticAppDeployOptions
  pub decode_function : Input → Result FunctionAppDeployOptions
  pub set_defaults : ServiceAppDeployOptions Float → Result (ServiceAppDeployOptions Float)
  pub set_function_defaults : FunctionAppDeployOptions → Result FunctionAppDeployOptions
  pub in_ok : List Float → Float → Bool
  pub min_ok : ℤ → ℤ → Bool
  pub max_ok : ℤ → ℤ → Bool
  pub invalid : Fault

abbrev pub then_result : {A B : Type 0} → (A → Result B) → Result A → Result B
then_result k (ok a) = k a
then_result k (err e) = err e
then_result k panic = panic

-- err, wrapped
abbrev pub decoding : {A : Type 0} → String → Result A → Result A
decoding what (ok a) = ok a
decoding what (err e) = err (wrap what e)
decoding what panic = panic

-- if x == 0 { x = d }
abbrev pub or_default : ℕ → ℤ → ℤ
or_default d x = if is_zero x then pos d else x

module _ (l : Library) where
  open l use {Input, Float}

  abbrev pub service_defaults : ServiceAppDeployOptions Float → ServiceAppDeployOptions Float
  service_defaults o = record o {
    cpu_limit = if l.is_zero_float o.cpu_limit then l.float 1 else o.cpu_limit;
    memory_limit = or_default 256 o.memory_limit;
    max_scale = or_default 100 o.max_scale;
    timeout = or_default 300 o.timeout;
  }

  -- if MinScale > MaxScale
  abbrev pub clamped : ServiceAppDeployOptions Float → ServiceAppDeployOptions Float
  clamped o = if int_ltb o.max_scale o.min_scale then record o { min_scale = o.max_scale } else o

  abbrev pub service_valid : ServiceAppDeployOptions Float → Bool
  service_valid o =
      l.in_ok (l.float 1 ∷ l.float 2 ∷ l.float 4 ∷ l.float 6 ∷ l.float 8 ∷ []) o.cpu_limit
      && (l.min_ok (pos 128) o.memory_limit && l.max_ok (pos 32768) o.memory_limit)
      && (l.min_ok (pos 0) o.min_scale && l.max_ok (pos 20000) o.min_scale)
      && (l.min_ok (pos 1) o.max_scale && l.max_ok (pos 20000) o.max_scale)
      && (l.min_ok (pos 1) o.timeout && l.max_ok (pos 3600) o.timeout)
      && (l.min_ok (pos 1) o.container_concurrency && l.max_ok (pos 1000) o.container_concurrency)

  abbrev validated : {A : Type 0} → Bool → A → Result A
  validated valid o = if valid then ok o else err l.invalid

  abbrev pub service_checked :
      ServiceAppDeployOptions Float → Result (ServiceAppDeployOptions Float)
  service_checked o = let o' = clamped (service_defaults o) in validated (service_valid o') o'

  unfoldable pub new_service_app_deploy_options : Input → Result (ServiceAppDeployOptions Float)
  new_service_app_deploy_options input =
      then_result (λ o. then_result service_checked (l.set_defaults o))
        (decoding "error decoding service app deploy options" (l.decode_service input))

  abbrev pub static_defaults : StaticAppDeployOptions → StaticAppDeployOptions
  static_defaults o = record o {
    max_scale = or_default 100 o.max_scale;
    timeout = or_default 300 o.timeout;
  }

  abbrev pub static_valid : StaticAppDeployOptions → Bool
  static_valid o =
      (l.min_ok (pos 0) o.min_scale && l.max_ok (pos 100) o.min_scale)
      && l.min_ok (pos 1) o.max_scale

  unfoldable pub new_static_app_deploy_options : Input → Result StaticAppDeployOptions
  new_static_app_deploy_options input =
      then_result (λ o. validated (static_valid (static_defaults o)) (static_defaults o))
        (decoding "error decoding static app deploy options" (l.decode_static input))

  abbrev pub function_defaults : FunctionAppDeployOptions → FunctionAppDeployOptions
  function_defaults o = record o {
    memory_limit = or_default 256 o.memory_limit;
    timeout = or_default 300 o.timeout;
  }

  abbrev pub function_valid : FunctionAppDeployOptions → Bool
  function_valid o =
      (l.min_ok (pos 128) o.memory_limit && l.max_ok (pos 8192) o.memory_limit)
      && l.min_ok (pos 0) o.min_scale
      && l.min_ok (pos 1) o.max_scale
      && (l.min_ok (pos 1) o.timeout && l.max_ok (pos 540) o.timeout)

  unfoldable pub new_function_app_deploy_options : Input → Result FunctionAppDeployOptions
  new_function_app_deploy_options input =
      then_result
        (λ o.
          then_result
            (λ o'. validated (function_valid (function_defaults o')) (function_defaults o'))
            (l.set_function_defaults o))
        (decoding "error decoding function app deploy options" (l.decode_function input))
