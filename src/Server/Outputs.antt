-- ===== src/Server/Outputs.antt =====
-- grpc_server.go: the handlers of the outputs. An error of the stream is answered with `Unknown`.
use ffstream.Base.{ℕ, Option, none, some, Result, ok, err, panic}
use ffstream.Convert.Rates.{BitRatesGrpc, bit_rates_to_grpc, LatenciesGrpc, latencies_to_grpc}
use ffstream.Convert.Config.{Devices, ConfigGrpc, transcoder_config_from_grpc}
use ffstream.Stream.{FfStream, StreamError}
use ffstream.Stream.Outputs.{MuxApi, switch_output_by_props, get_fps_fraction, set_fps_fraction}
use ffstream.Stream.AutoBitRate.{
  RatesApi, get_auto_bit_rate_video_config, set_auto_bit_rate_video_config,
  get_auto_bit_rate_calculator, set_auto_bit_rate_calculator, get_bit_rates, get_latencies,
}
use ffstream.Server.{Code, unknown, GrpcServer}

-- `goconvavp`: the conversions of the auto-bitrate settings. `none` is an error.
pub record Protos (mux : MuxApi) (rates : RatesApi mux) : Type 1 where
  pub Config : Type 0
  pub Calculator : Type 0
  pub config_to_proto : Option mux.AutoBitRate → Option Config
  pub config_from_proto : Config → Option (Option mux.AutoBitRate)
  pub calculator_to_proto : rates.Calculator → Option Calculator
  pub calculator_from_proto : Calculator → Option (Option rates.Calculator)

abbrev pub or_unknown : {A : Type 0} → Option A → Result Code A
or_unknown none = err unknown
or_unknown (some a) = ok a

abbrev pub reply_code : Option StreamError → Result Code (Unit {0})
reply_code none = ok tt
reply_code (some e) = err unknown

abbrev pub reply_with : {A B : Type 0} → (A → B) → Result StreamError A → Result Code B
reply_with f (ok a) = ok (f a)
reply_with f (err e) = err unknown
reply_with f panic = panic

abbrev fraction_reply : ℕ × ℕ × Option StreamError → Result Code (ℕ × ℕ)
fraction_reply (num, den, none) = ok (num, den)
fraction_reply (num, den, some e) = err unknown

module _ (mux : MuxApi) {Inputs : Type 0} where
  -- A handler that changes the stream keeps what the stream's operation leaves.
  unfoldable pub answer :
      GrpcServer Inputs mux.Mux
      → FfStream Inputs mux.Mux × Option StreamError
      → GrpcServer Inputs mux.Mux × Result Code (Unit {0})
  answer srv (s, error) = (record srv { ff_stream = s }, reply_code error)

  unfoldable pub get_fps_fraction_reply : GrpcServer Inputs mux.Mux → Result Code (ℕ × ℕ)
  get_fps_fraction_reply srv = fraction_reply (get_fps_fraction mux srv.ff_stream)

  unfoldable pub set_fps_fraction_reply :
      GrpcServer Inputs mux.Mux → ℕ → ℕ → GrpcServer Inputs mux.Mux × Result Code (Unit {0})
  unfolding answer
  set_fps_fraction_reply srv num den = answer srv (set_fps_fraction mux srv.ff_stream num den)

  unfoldable pub switch_output_reply :
      Devices mux.Device
      → GrpcServer Inputs mux.Mux
      → ConfigGrpc
      → GrpcServer Inputs mux.Mux × Result Code (Unit {0})
  unfolding answer
  switch_output_reply devices srv req =
      answer srv
        (switch_output_by_props mux srv.ff_stream (transcoder_config_from_grpc devices req))

  module _ (rates : RatesApi mux) where
    unfoldable pub get_bit_rates_reply :
        GrpcServer Inputs mux.Mux → Result Code (Option BitRatesGrpc)
    get_bit_rates_reply srv = reply_with bit_rates_to_grpc (get_bit_rates mux rates srv.ff_stream)

    unfoldable pub get_latencies_reply :
        GrpcServer Inputs mux.Mux → Result Code (Option LatenciesGrpc)
    get_latencies_reply srv = reply_with latencies_to_grpc (get_latencies mux rates srv.ff_stream)

    module _ (protos : Protos mux rates) where
      unfoldable pub get_config_reply : GrpcServer Inputs mux.Mux → Result Code protos.Config
      get_config_reply srv = elim (get_auto_bit_rate_video_config mux rates srv.ff_stream) [
        | err e ↦ err unknown
        | panic ↦ panic
        | ok cfg ↦ or_unknown (protos.config_to_proto cfg)
      ]

      unfoldable pub set_config_reply :
          GrpcServer Inputs mux.Mux
          → protos.Config
          → GrpcServer Inputs mux.Mux × Result Code (Unit {0})
      unfolding answer
      set_config_reply srv req = elim (protos.config_from_proto req) [
        | none ↦ (srv, err unknown)
        | some cfg ↦ answer srv (set_auto_bit_rate_video_config mux rates srv.ff_stream cfg)
      ]

      unfoldable pub get_calculator_reply :
          GrpcServer Inputs mux.Mux → Result Code protos.Calculator
      get_calculator_reply srv = elim (get_auto_bit_rate_calculator mux rates srv.ff_stream) [
        | none ↦ err unknown
        | some calculator ↦ or_unknown (protos.calculator_to_proto calculator)
      ]

      unfoldable pub set_calculator_reply :
          GrpcServer Inputs mux.Mux
          → protos.Calculator
          → GrpcServer Inputs mux.Mux × Result Code (Unit {0})
      unfolding answer
      set_calculator_reply srv req = elim (protos.calculator_from_proto req) [
        | none ↦ (srv, err unknown)
        | some calculator ↦
            answer srv (set_auto_bit_rate_calculator mux rates srv.ff_stream calculator)
      ]
