-- ===== src/ApiErrors.antt =====
-- gcp/util.go, the errors of Google's APIs: `checkErrCode`, `ErrIs400`, `ErrIs403`, `ErrIs404`,
-- `ErrIs409` and `ErrExtractMissingAPI`. A nil error is `none`.
use cli_plugin_gcp.Common.{
  ℕ, String, Bool, false, List, [], ◌∷◌, Option, none, some, if◌then◌else◌, ◌==◌, string_eq,
  nat_beq, Dict, lookup,
}
use cli_plugin_gcp.Common.Action.{
  Result, ok, panic, Fault, sentinel, api, transport, canceled, text, wrap, locked, Detail, opaque,
  info,
}

-- Type assertions: nothing is unwrapped.
abbrev pub has_code : ℕ → Fault → Bool
has_code code (transport c) = nat_beq c code
has_code code (api c details) = nat_beq c code
has_code code (sentinel s) = false
has_code code canceled = false
has_code code (text m) = false
has_code code (wrap m e) = false
has_code code (locked l) = false

abbrev pub check_err_code : Option Fault → ℕ → Bool
check_err_code none code = false
check_err_code (some e) code = has_code code e

abbrev pub err_is_400 : Option Fault → Bool
err_is_400 e = check_err_code e 400

abbrev pub err_is_403 : Option Fault → Bool
err_is_403 e = check_err_code e 403

abbrev pub err_is_404 : Option Fault → Bool
err_is_404 e = check_err_code e 404

abbrev pub err_is_409 : Option Fault → Bool
err_is_409 e = check_err_code e 409

-- metamap["service"].(string): a panic where there is no such text
abbrev service_of : Dict String → Result String
service_of meta = elim (lookup "service" meta) [ none ↦ panic | some s ↦ ok s ]

-- the loop over the details of a googleapi error
unfoldable pub missing_in : List Detail → Result String
missing_in [] = ok ""
missing_in (opaque ∷ ds) = missing_in ds
missing_in (info kind none ∷ ds) = missing_in ds
missing_in (info kind (some meta) ∷ ds) =
    if kind == "type.googleapis.com/google.rpc.ErrorInfo" then service_of meta else missing_in ds

-- errors.As finds the googleapi error under wraps.
unfoldable pub missing_api : Fault → Result String
unfolding missing_in
missing_api (api c details) = missing_in details
missing_api (wrap m e) = missing_api e
missing_api (sentinel s) = ok ""
missing_api (transport c) = ok ""
missing_api canceled = ok ""
missing_api (text m) = ok ""
missing_api (locked l) = ok ""

-- `ErrExtractMissingAPI`
unfoldable pub err_extract_missing_api : Option Fault → Result String
unfolding missing_api
err_extract_missing_api none = ok ""
err_extract_missing_api (some e) = missing_api e
