-- ===== src/Stream/AutoBitRate.antt =====
-- ffstream.go: the operations on the rates of a stream, from `GetAutoBitRateVideoConfig` to
-- `SetAutoBitRateCalculator`, `GetBitRates` and `GetLatencies`.
use ffstream.Base.{Option, none, some, Result, ok, err}
use ffstream.Convert.Rates.{BitRates, Latencies}
use ffstream.Stream.{FfStream, StreamError, not_started, mux_failed}
use ffstream.Stream.Outputs.{MuxApi, after_call, with_mux}

-- More of the library's multiplexer: what it measures, with `none` for an error, and its auto-bitrate
-- handler, of which there may be none. A calculator may be nil.
pub record RatesApi (mux : MuxApi) : Type 1 where
  pub Calculator : Type 0
  pub get_bit_rates : mux.Mux → Option (Option BitRates)
  pub get_latencies : mux.Mux → Option (Option Latencies)
  pub handler_config : mux.Mux → Option mux.AutoBitRate
  pub handler_calculator : mux.Mux → Option (Option Calculator)
  pub set_handler_calculator : mux.Mux → Option Calculator → mux.Mux

abbrev or_mux_failed : {A : Type 0} → Option A → Result StreamError A
or_mux_failed none = err mux_failed
or_mux_failed (some a) = ok a

module _ (mux : MuxApi) (rates : RatesApi mux) {Inputs : Type 0} where
  unfoldable pub get_auto_bit_rate_video_config :
      FfStream Inputs mux.Mux → Result StreamError (Option mux.AutoBitRate)
  get_auto_bit_rate_video_config s = elim s.stream_mux [
    | none ↦ err not_started
    | some m ↦ ok (rates.handler_config m)
  ]

  unfoldable pub set_auto_bit_rate_video_config :
      FfStream Inputs mux.Mux
      → Option mux.AutoBitRate
      → FfStream Inputs mux.Mux × Option StreamError
  unfolding after_call
  set_auto_bit_rate_video_config s cfg = elim s.stream_mux [
    | none ↦ (s, some not_started)
    | some m ↦ after_call mux s (mux.set_auto_bit_rate_video_config m cfg)
  ]

  unfoldable pub get_auto_bit_rate_calculator : FfStream Inputs mux.Mux → Option rates.Calculator
  get_auto_bit_rate_calculator s = elim s.stream_mux [
    | none ↦ none
    | some m ↦ elim (rates.handler_calculator m) [ none ↦ none | some calculator ↦ calculator ]
  ]

  unfoldable pub set_auto_bit_rate_calculator :
      FfStream Inputs mux.Mux
      → Option rates.Calculator
      → FfStream Inputs mux.Mux × Option StreamError
  set_auto_bit_rate_calculator s calculator = elim s.stream_mux [
    | none ↦ (s, some not_started)
    | some m ↦ elim (rates.handler_calculator m) [
      | none ↦ (s, some not_started)
      | some old ↦ (with_mux mux s (rates.set_handler_calculator m calculator), none)
    ]
  ]

  unfoldable pub get_bit_rates : FfStream Inputs mux.Mux → Result StreamError (Option BitRates)
  get_bit_rates s = elim s.stream_mux [
    | none ↦ err not_started
    | some m ↦ or_mux_failed (rates.get_bit_rates m)
  ]

  unfoldable pub get_latencies : FfStream Inputs mux.Mux → Result StreamError (Option Latencies)
  get_latencies s = elim s.stream_mux [
    | none ↦ err not_started
    | some m ↦ or_mux_failed (rates.get_latencies m)
  ]
