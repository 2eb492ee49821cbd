-- ===== src/Command/Context.antt =====
-- cmd/ffstream/context.go and print_build_info.go: the log's hooks, its fields and the revision in them.
-- The rotation of the log file is in the child.
pub mod Rotation
pub mod Laws
use ffstream.Base.{
  ℕ, String, str_eq, Bool, true, false, not, ◌&&◌, ◌||◌, Option, none, some, List, [], ◌∷◌, ◌++◌,
  Result, ok, err, panic, ◌>>=◌, if◌then◌else◌,
}
use ffstream.Command.Settings.{FlagsApi, Flags}
use ffstream.Command.Context.Rotation.{LogRotation, no_file, rotate}

-- `debug.BuildInfo`: the version of the main module and the settings of the build.
pub record ModuleInfo : Type 0 where
  pub main_version : String
  pub settings : List (String × String)

pub record BuildVars : Type 0 where
  pub version : String
  pub git_commit : String
  pub build_date : String

pub record BuildInfo : Type 0 where
  pub build_info : Option ModuleInfo
  pub build_vars : Option BuildVars

unfoldable pub is_empty_vars : BuildVars → Bool
is_empty_vars vars =
    str_eq vars.version "" && str_eq vars.git_commit "" && str_eq vars.build_date ""

-- `getBuildInfo`: what the linker has set, and what `debug.ReadBuildInfo` gives.
unfoldable pub get_build_info : BuildVars → Option ModuleInfo → BuildInfo
unfolding is_empty_vars
get_build_info vars info = record {
  build_info = info;
  build_vars = if is_empty_vars vars then none else some vars;
}

abbrev pub find_setting : String → List (String × String) → String
find_setting key [] = ""
find_setting key ((k, v) ∷ settings) = if str_eq k key then v else find_setting key settings

unfoldable pub find_build_info_setting : BuildInfo → String → String
find_build_info_setting b key = elim b.build_info [
  | none ↦ ""
  | some info ↦ find_setting key info.settings
]

abbrev pub is_released : Option ModuleInfo → Bool
is_released none = false
is_released (some info) =
    not (str_eq info.main_version "") && not (str_eq info.main_version "(devel)")

abbrev pub is_committed : Option BuildVars → Bool
is_committed none = false
is_committed (some vars) = not (str_eq vars.git_commit "")

abbrev pub version_of : Option ModuleInfo → String
version_of none = ""
version_of (some info) = info.main_version

abbrev pub commit_of : Option BuildVars → String
commit_of none = ""
commit_of (some vars) = vars.git_commit

-- The switch that chooses the field `revision`.
unfoldable pub revision : BuildInfo → Option String
unfolding find_build_info_setting
revision b =
    if is_released b.build_info
    then some (version_of b.build_info)
    else if is_committed b.build_vars
    then some (commit_of b.build_vars)
    else if not (str_eq (find_build_info_setting b "vcs.revision") "")
    then some (find_build_info_setting b "vcs.revision")
    else none

-- The filters of the log.
pub data Hook : Type 0 where
  log_level_filter : Hook
  struct_field_secrets_filter : Hook
  secret_values_filter : Hook
  remove_insecure_debug_filter : Hook
  error_monitor_hook : Hook

unfoldable pub log_pre_hooks : Bool → List Hook
log_pre_hooks remove_secrets =
    log_level_filter
    ∷ (if remove_secrets then struct_field_secrets_filter ∷ secret_values_filter ∷ [] else [])

unfoldable pub log_hooks : Bool → List Hook
log_hooks insecure = if insecure then [] else remove_insecure_debug_filter ∷ []

-- What the system and the libraries give: the path that a pattern stands for, whether a file can be
-- opened, whether there is a Sentry client for a DSN, and what the fields of the log say.
pub record ContextApi : Type 0 where
  pub expand : String → Option String
  pub opens : String → Bool
  pub new_sentry_client : String → Bool
  pub hostname : Option String
  pub uid : String
  pub pid : String
  pub user : Option String
  pub to_lower : String → String
  pub vars : BuildVars
  pub module_info : Option ModuleInfo

-- The log that `getContext` sets up, with the path whose file is rotated.
pub record Context : Type 0 where
  pub pre_hooks : List Hook
  pub hooks : List Hook
  pub is_secret : Bool
  pub log_path : Option String
  pub rotation : LogRotation
  pub logstash : Option String
  pub fields : List (String × String)

pub data ContextError : Type 0 where
  no_sentry : ContextError

abbrev pub app_name : String
app_name = "ffstream"

abbrev pub log_field : String → Option String → List (String × String)
log_field name none = []
log_field name (some value) = (name, value) ∷ []

abbrev pub lowered : (String → String) → Option String → Option String
lowered f none = none
lowered f (some s) = some (f s)

module _ (api : ContextApi) where
  unfoldable pub log_fields : List (String × String)
  unfolding revision get_build_info
  log_fields =
      ("program", api.to_lower app_name) ∷ log_field "hostname" (lowered api.to_lower api.hostname)
      ++ ("uid", api.uid) ∷ ("pid", api.pid) ∷ log_field "user" api.user
      ++ log_field "revision" (revision (get_build_info api.vars api.module_info))

  -- The path of the log file, if one is asked for and its pattern stands for a path.
  unfoldable pub log_path_of : String → Option String
  log_path_of log_file = if str_eq log_file "" then none else api.expand log_file

  abbrev pub first_rotation : Option String → LogRotation
  first_rotation none = no_file
  first_rotation (some path) = rotate (api.opens path) no_file

  abbrev pub sentry_hook : String → Result ContextError (List Hook)
  sentry_hook dsn =
      if str_eq dsn ""
      then ok []
      else if api.new_sentry_client dsn
      then ok (error_monitor_hook ∷ [])
      else err no_sentry

  -- The log, with the hooks for Sentry.
  unfoldable pub context_of :
      {flags_api : FlagsApi} {Level : Type 0} → Flags flags_api Level → List Hook → Context
  unfolding log_pre_hooks log_hooks log_fields log_path_of rotate
  context_of flags monitors = record {
    pre_hooks = log_pre_hooks flags.remove_secrets_from_logs ++ monitors;
    hooks = log_hooks flags.insecure_debug;
    is_secret = not flags.insecure_debug;
    log_path = log_path_of flags.log_file;
    rotation = first_rotation (log_path_of flags.log_file);
    logstash = if str_eq flags.logstash_addr "" then none else some flags.logstash_addr;
    fields = log_fields;
  }

  unfoldable pub get_context :
      {flags_api : FlagsApi} {Level : Type 0} → Flags flags_api Level → Result ContextError Context
  unfolding context_of
  get_context flags =
      if flags.remove_secrets_from_logs && flags.insecure_debug
      then panic
      else sentry_hook flags.sentry_dsn >>= λ monitors. ok (context_of flags monitors)
