-- ===== src/Control/Laws.antt =====
-- commands.go: commands from the command line of ffstreamctl to the stream and back.
use ffstream.Base.{
  ℕ, ◌<◌, ◌^◌, ◌≡◌, ◌⊎◌, refl, ◌∙◌, String, ◌<>◌, none, some, List, [], ◌∷◌, ok, err, panic,
  get_elem?, modify, u32, print_uint, parse_uint-print_uint, arith,
}
use ffstream.Resource.{DictionaryItem, Resource}
use ffstream.Stream.{InputsApi}
use ffstream.Stream.Factory.{InputFactory}
use ffstream.Stream.Inputs.Laws.{IsValid}
use ffstream.Stream.Outputs.{MuxApi, IsMuxApi, set_fps_fraction}
use ffstream.Stream.Outputs.Laws.{IsIntegerFraction, set_fps_fraction_iff}
use ffstream.Server.{GrpcServer}
use ffstream.Server.Inputs.{ChainsApi, set_option}
use ffstream.Server.Inputs.Laws.{set_input_custom_option_lem}
use ffstream.Client.{GrpcApi, IsReachable, Answer}
use ffstream.Client.Inputs.{client_set_input_custom_option_ok}
use ffstream.Client.Outputs.{client_set_fps_fraction}
use ffstream.Client.Outputs.Laws.{client_set_fps_fraction_ok, client_get-client_set_fps_fraction}
use ffstream.Control.{
  printed, assert_ok, silent, encoder_fps_fraction_get, encoder_fps_fraction_set,
}
use ffstream.Control.Inputs.{inputs_set_custom_option}

u32_small : (n : ℕ) → n < 2 ^ 32 → u32 n ≡ n
unfolding u32
u32_small n h = omega arith

silent_ok :
    {Server : Type 0} (a : Answer Server (Unit {0}))
    → a.1 ≡ ok tt
    → assert_ok silent a ≡ (a.0, printed "")
silent_ok (srv, ok done) h = refl
silent_ok (srv, err e) h = absurd (cc)
silent_ok (srv, panic) h = absurd (cc)

module _ (grpc : GrpcApi) (mux : MuxApi) {Inputs : Type 0} (remote_addr : String) where
  set_lem :
      (srv : GrpcServer Inputs mux.Mux) (num den : ℕ)
      → num < 2 ^ 32
      → den < 2 ^ 32
      → encoder_fps_fraction_set grpc mux remote_addr srv (print_uint num ∷ print_uint den ∷ [])
        ≡ assert_ok silent (client_set_fps_fraction grpc mux remote_addr srv num den)
  unfolding encoder_fps_fraction_set
  set_lem srv num den hn hd =
      rw (parse_uint-print_uint 32 num hn)
        (rw (parse_uint-print_uint 32 den hd) (rw (u32_small num hn) (rw (u32_small den hd) refl)))

  -- On a started stream that can be reached, setting the frame rate to an integer fraction, written in
  -- decimal, prints nothing, and reading it then prints the same two numbers.
  pub encoder_fps_fraction_get-encoder_fps_fraction_set :
      (srv : GrpcServer Inputs mux.Mux) (m : mux.Mux) (num den : ℕ)
      → IsMuxApi mux
      → IsReachable grpc remote_addr
      → srv.ff_stream.stream_mux ≡ some m
      → num < 2 ^ 32
      → den < 2 ^ 32
      → IsIntegerFraction num den
      → (srv' : GrpcServer Inputs mux.Mux) × (encoder_fps_fraction_set grpc mux remote_addr srv
            (print_uint num ∷ print_uint den ∷ [])
          ≡ (srv', printed ""))
        × (encoder_fps_fraction_get grpc mux remote_addr srv' []
            ≡ (srv', printed (print_uint num <> " " <> print_uint den <> "\n")))
  unfolding encoder_fps_fraction_get
  encoder_fps_fraction_get-encoder_fps_fraction_set srv m num den lawful r started hn hd f =
      let accepted : (set_fps_fraction mux srv.ff_stream num den).1 ≡ none =
        (set_fps_fraction_iff mux srv.ff_stream num den).0.1 ((λ e. cc), f) in
      let done = client_set_fps_fraction_ok grpc mux remote_addr srv num den r accepted in
      let set = client_set_fps_fraction grpc mux remote_addr srv num den in
      let read =
        client_get-client_set_fps_fraction grpc mux remote_addr srv num den lawful hn hd done in
      (set.0, set_lem srv num den hn hd ∙ silent_ok set done, rw read refl)

module _ (grpc : GrpcApi) (api : InputsApi) (chains : ChainsApi api) {Mux : Type 0}
    (remote_addr : String) where
  -- On a valid stream that can be reached, the command that sets an option of a resource that is there
  -- prints nothing. The resource then has the option, by `SetFirst`, all other resources are as before,
  -- and the stream is valid.
  pub inputs_set_custom_option_lem :
      (srv : GrpcServer api.State Mux) (priority num : ℕ) (key value : String) {f : InputFactory}
      {rs : List Resource} {r : Resource}
      → IsReachable grpc remote_addr
      → IsValid api srv.ff_stream
      → priority < 2 ^ 32
      → num < 2 ^ 32
      → get_elem? (api.input_chains srv.ff_stream.inputs) priority ≡ some f
      → get_elem? srv.ff_stream.inputs_info priority ≡ some rs
      → get_elem? rs num ≡ some r
      → let item : DictionaryItem = record { key = key; value = value } in
        (t : GrpcServer api.State Mux) × (inputs_set_custom_option grpc api chains remote_addr srv
            (print_uint priority ∷ print_uint num ∷ key ∷ value ∷ [])
          ≡ (t, printed ""))
        × IsValid api t.ff_stream
        × (get_elem? t.ff_stream.inputs_info priority
            ≡ some (modify rs num (set_option api chains item)))
        × ((q : ℕ)
            → (priority ≡ q)
              ⊎ (get_elem? t.ff_stream.inputs_info q ≡ get_elem? srv.ff_stream.inputs_info q))
  unfolding inputs_set_custom_option
  inputs_set_custom_option_lem srv priority num key value {f} {rs} {r} reach valid hp hn hf hrs hr =
      let item : DictionaryItem = record { key = key; value = value } in
      let (t, done, valid', written, others) =
        set_input_custom_option_lem api chains srv priority num item {f = f} {rs = rs} {r = r} valid
          (omega arith) (omega arith) hf hrs hr in
      (
        t,
        rw (parse_uint-print_uint 32 priority hp) (
            rw (parse_uint-print_uint 32 num hn) (
              rw
                (client_set_input_custom_option_ok grpc api chains remote_addr srv t priority num
                  item reach done)
                refl)),
        valid',
        written,
        others,
      )
