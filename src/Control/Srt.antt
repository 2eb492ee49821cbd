-- ===== src/Control/Srt.antt =====
-- commands_srt.go and srt_flag.go: the commands on SRT sockets.
use ffstream.Base.{
  ℕ, suc, String, ◌<>◌, Bool, Option, none, some, List, [], ◌∷◌, ok, err, panic, ◌≡◌, ◌⊎◌, inl, inr,
  refl, ℤ, pos, negsuc, if◌then◌else◌, print_uint, parse_int,
}
use ffstream.Convert.SrtStats.{Tracebstats, OutputSrtStats}
use ffstream.Stream.Outputs.{MuxApi}
use ffstream.Stream.SrtOutput.{SrtApi}
use ffstream.Server.{GrpcServer}
use ffstream.Server.Srt.{SocketApi}
use ffstream.Client.{GrpcApi, Answer}
use ffstream.Client.Process.{
  Failed, client_get_srt_flag_int, client_set_srt_flag_int, flag_calls-Failed,
}
use ffstream.Client.Srt.{client_get_output_srt_stats}
use ffstream.Control.{
  Outcome, printed, aborted, wrong_arguments, assert_ok, silent, with_argument, json_output,
}

-- The library's `sockopt`: the name of an option, and whether its value is an integer.
pub record SockoptApi : Type 0 where
  pub from_string : String → Option ℕ
  pub is_int_opt : ℕ → Bool

-- `fmt.Fprintf` with `%d` of an `int64`
unfoldable pub print_int : ℤ → String
unfolding print_uint
print_int (pos n) = print_uint n
print_int (negsuc n) = "-" <> print_uint (suc n)

unfoldable pub srt_flag_name_to_id : SockoptApi → String → Option ℕ
srt_flag_name_to_id sockopt name = elim (sockopt.from_string name) [
  | none ↦ none
  | some id ↦ if sockopt.is_int_opt id then some id else none
]

module _ (grpc : GrpcApi) (remote_addr : String) where
  unfoldable pub stats_output_srt :
      {Float : Type 0} {mux : MuxApi} (api : SrtApi mux) (socket : SocketApi Float api)
      {Inputs : Type 0}
      → OutputSrtStats Float
      → (Tracebstats Float → Option String)
      → api.World
      → GrpcServer Inputs mux.Mux
      → List String
      → api.World × Outcome
  unfolding json_output
  stats_output_srt api socket empty to_json w srv [] =
      assert_ok (json_output to_json)
        (client_get_output_srt_stats grpc api socket empty remote_addr w srv)
  stats_output_srt api socket empty to_json w srv (arg ∷ args) = (w, wrong_arguments)

  module _ (sockopt : SockoptApi) (sockopt_latency : ℕ) {Inputs Mux : Type 0} where
    unfoldable pub srt_flag_int_get :
        GrpcServer Inputs Mux → List String → GrpcServer Inputs Mux × Outcome
    unfolding srt_flag_name_to_id print_int
    srt_flag_int_get srv (name ∷ []) = with_argument srv (srt_flag_name_to_id sockopt name) λ id.
        assert_ok (λ value. printed (print_int value <> "\n"))
          (client_get_srt_flag_int grpc sockopt_latency remote_addr srv id)
    srt_flag_int_get srv _ = (srv, wrong_arguments)

    unfoldable pub srt_flag_int_set :
        GrpcServer Inputs Mux → List String → GrpcServer Inputs Mux × Outcome
    unfolding srt_flag_name_to_id
    srt_flag_int_set srv (name ∷ value ∷ []) =
        with_argument srv (srt_flag_name_to_id sockopt name) λ id.
          with_argument srv (parse_int value) λ value'.
            assert_ok silent
              (client_set_srt_flag_int grpc sockopt_latency remote_addr srv id value')
    srt_flag_int_set srv _ = (srv, wrong_arguments)

    -- The command stopped with a panic, or was refused, and the server is as it was.
    pub IsFruitless : GrpcServer Inputs Mux → GrpcServer Inputs Mux × Outcome → Type 0
    IsFruitless srv r = (r.0 ≡ srv) × ((r.1 ≡ aborted) ⊎ (r.1 ≡ wrong_arguments))

    assert-Failed :
        {A : Type 0} (srv : GrpcServer Inputs Mux) (f : A → Outcome)
        (answer : Answer (GrpcServer Inputs Mux) A)
        → Failed grpc srv answer
        → IsFruitless srv (assert_ok f answer)
    unfolding IsFruitless
    assert-Failed srv f (srv', ok a) (e, (_, h)) = absurd (cc)
    assert-Failed srv f (srv', err c) (e, (_, h)) = (e, inl refl)
    assert-Failed srv f (srv', panic) (e, (_, h)) = absurd (cc)

    with-IsFruitless :
        {A : Type 0} (srv : GrpcServer Inputs Mux) (arg : Option A)
        (f : A → GrpcServer Inputs Mux × Outcome)
        → ((a : A) → IsFruitless srv (f a))
        → IsFruitless srv (with_argument srv arg f)
    unfolding IsFruitless
    with-IsFruitless srv none f h = (refl, inl refl)
    with-IsFruitless srv (some a) f h = h a

    -- Neither the command that reads a flag of an SRT socket nor the one that sets it ever prints a result
    -- or changes the server, whatever its arguments are and whatever the network does.
    pub srt_flag_int-IsFruitless :
        (srv : GrpcServer Inputs Mux) (args : List String)
        → IsFruitless srv (srt_flag_int_get srv args) × IsFruitless srv (srt_flag_int_set srv args)
    unfolding srt_flag_int_get srt_flag_int_set IsFruitless
    srt_flag_int-IsFruitless srv [] = ((refl, inr refl), (refl, inr refl))
    srt_flag_int-IsFruitless srv (name ∷ []) = (
      with-IsFruitless srv (srt_flag_name_to_id sockopt name) _ λ id.
          let (refused, _) = flag_calls-Failed grpc remote_addr srv sockopt_latency id (pos 0) in
          assert-Failed srv _ (client_get_srt_flag_int grpc sockopt_latency remote_addr srv id)
            refused,
      (refl, inr refl),
    )
    srt_flag_int-IsFruitless srv (name ∷ value ∷ []) = (
      (refl, inr refl),
      with-IsFruitless srv (srt_flag_name_to_id sockopt name) _ λ id.
          with-IsFruitless srv (parse_int value) _ λ value'.
            let (_, refused) = flag_calls-Failed grpc remote_addr srv sockopt_latency id value' in
            assert-Failed srv silent
              (client_set_srt_flag_int grpc sockopt_latency remote_addr srv id value') refused,
    )
    srt_flag_int-IsFruitless srv (name ∷ value ∷ other ∷ args) =
        ((refl, inr refl), (refl, inr refl))
