-- ===== src/Tests/Requests.antt =====
-- A run of requests against its replay.
use ffstream.Base.{ℕ, ◌≡◌, List, [], ◌∷◌, arith, parse_uint}
use ffstream.Resource.{resource, get_fallback_priority}
use ffstream.Stream.Inputs.Laws.{IsValid}
use ffstream.Server.{new_grpc_server}
use ffstream.Server.Inputs.Requests.{
  Request, add_resource, set_custom_option, run, replay, contents,
}
use ffstream.Server.Inputs.Refinement.{run-replay}
use ffstream.Tests.Apis.{inputs_api, inputs_lawful, with_priority}
use ffstream.Tests.Servers.{chains_api, with_input-IsValid, server, pts}

abbrev requests : List Request
requests =
    add_resource (with_priority "2")
    ∷ set_custom_option 0 0 pts
    ∷ set_custom_option 3 0 pts
    ∷ set_custom_option 2 1 pts
    ∷ []

run-replay_example :
    IsValid inputs_api (run inputs_api chains_api server requests).ff_stream
    × ((q : ℕ)
        → contents inputs_api chains_api (run inputs_api chains_api server requests) q
          ≡ replay inputs_api chains_api (contents inputs_api chains_api server) requests q)
unfolding new_grpc_server get_fallback_priority resource parse_uint
run-replay_example =
    run-replay inputs_api chains_api inputs_lawful server requests with_input-IsValid (omega arith)
