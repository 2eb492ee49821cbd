-- ===== src/Tests/Contexts.antt =====
-- The log of a run that removes secrets, with Sentry, and the rotation of its file.
use ffstream.Base.{ℕ, ◌≡◌, refl, true, false, none, some, [], ◌∷◌, snoc, negsuc}
use ffstream.Command.Settings.{Flags}
use ffstream.Command.Main.Laws.{default_flags}
use ffstream.Command.Context.{
  ContextApi, Context, context_of, error_monitor_hook, get_context, revision, get_build_info,
}
use ffstream.Command.Context.Rotation.{no_file, and_file, rotate_all, rotate_all_lem}
use ffstream.Command.Context.Laws.{IsFiltered, get_context-IsFiltered}
use ffstream.Tests.Programs.{flags_api}

abbrev context_api : ContextApi
context_api = record {
  expand = λ path. some path;
  opens = λ path. true;
  new_sentry_client = λ dsn. true;
  hostname = some "Box";
  uid = "1000";
  pid = "7";
  user = none;
  to_lower = λ s. s;
  vars = record { version = ""; git_commit = ""; build_date = "" };
  module_info = some (record {
    main_version = "(devel)";
    settings = ("GOARCH", "amd64") ∷ ("vcs.revision", "f00") ∷ [];
  });
}

abbrev logged : Flags flags_api ℕ
logged = record (default_flags flags_api 4 (negsuc 0) [] []) {
  remove_secrets_from_logs = true;
  sentry_dsn = "https://sentry";
  log_file = "ffstream.log";
}

abbrev monitored : Context
monitored = context_of context_api logged (error_monitor_hook ∷ [])

get_context-IsFiltered_example : IsFiltered true false "https://sentry" monitored
unfolding get_context
get_context-IsFiltered_example = get_context-IsFiltered context_api logged monitored refl

revision_test : revision (get_build_info context_api.vars context_api.module_info) ≡ some "f00"
unfolding revision get_build_info
revision_test = refl

rotate_all_lem_example :
    let r = rotate_all (true ∷ []) no_file in
    let after = rotate_all (snoc (true ∷ []) true) no_file in
    let failed = rotate_all (snoc (true ∷ []) false) no_file in
    let lost = rotate_all (snoc (snoc (true ∷ []) true) false) no_file in
    (after.open_files ≡ r.opened ∷ [])
    × (after.output ≡ and_file r.opened)
    × (failed.open_files ≡ [])
    × (failed.output ≡ r.output)
    × (lost.open_files ≡ [])
    × (lost.output ≡ and_file r.opened)
rotate_all_lem_example = rotate_all_lem (true ∷ [])
