-- ===== src/Server/Inputs/Requests.antt =====
-- grpc_server.go and ffstream.go: runs of requests on the inputs, and a map from priorities to lists of
-- resources on which they can be replayed.
use ffstream.Base.{
  ℕ, ◌<◌, ◌^◌, List, [], ◌∷◌, snoc, modify, ◌==◌, if◌then◌else◌, Result, ok, err, panic,
}
use ffstream.Resource.{DictionaryItem, Resource, get_fallback_priority}
use ffstream.Stream.{InputsApi, FfStream, StreamError}
use ffstream.Stream.Inputs.{add_input}
use ffstream.Stream.Inputs.Laws.{info_at}
use ffstream.Server.{Code, GrpcServer}
use ffstream.Server.Inputs.{ChainsApi, set_option, set_input_custom_option}

-- A call of `AddInput`, or a request `SetInputCustomOption` with its priority and number.
pub data Request : Type 0 where
  add_resource : Resource → Request
  set_custom_option : ℕ → ℕ → DictionaryItem → Request

-- Priorities and numbers that fit an `int`.
abbrev pub Fits : Request → Type 0
Fits (add_resource r) = get_fallback_priority r < 2 ^ 63
Fits (set_custom_option priority num item) = (priority < 2 ^ 63) × (num < 2 ^ 63)

-- The abstract inputs: the resources of each priority.
abbrev pub Contents : Type 0
Contents = ℕ → List Resource

module _ (api : InputsApi) (chains : ChainsApi api) where
  -- What each request does to the abstract inputs.
  abbrev pub replay_one : Contents → Request → Contents
  replay_one c (add_resource r) q = if get_fallback_priority r == q then snoc (c q) r else c q
  replay_one c (set_custom_option priority num item) q =
      if priority == q then modify (c q) num (set_option api chains item) else c q

  abbrev pub replay : Contents → List Request → Contents
  replay c [] = c
  replay c (request ∷ requests) = replay (replay_one c request) requests

  module _ {Mux : Type 0} where
    abbrev pub or_same :
        GrpcServer api.State Mux → Result Code (GrpcServer api.State Mux) → GrpcServer api.State Mux
    or_same srv (ok srv') = srv'
    or_same srv (err code) = srv
    or_same srv panic = srv

    abbrev pub with_stream :
        GrpcServer api.State Mux
        → Result StreamError (FfStream api.State Mux)
        → GrpcServer api.State Mux
    with_stream srv (ok s) = record srv { ff_stream = s }
    with_stream srv (err e) = srv
    with_stream srv panic = srv

    -- A request that fails leaves the server as it was.
    unfoldable pub run_one : GrpcServer api.State Mux → Request → GrpcServer api.State Mux
    run_one srv (add_resource r) = with_stream srv (add_input api srv.ff_stream r)
    run_one srv (set_custom_option priority num item) =
        or_same srv (set_input_custom_option api chains srv priority num item)

    unfoldable pub run : GrpcServer api.State Mux → List Request → GrpcServer api.State Mux
    unfolding run_one
    run srv [] = srv
    run srv (request ∷ requests) = run (run_one srv request) requests

    abbrev pub contents : GrpcServer api.State Mux → Contents
    contents srv = info_at srv.ff_stream.inputs_info
