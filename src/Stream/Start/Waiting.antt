-- ===== src/Stream/Start/Waiting.antt =====
-- ffstream.go: the end of `Start`, which waits for the multiplexer, and `Wait`. The outputs created in
-- between are in MoreOutputs; serving the inputs in the background changes no field of the stream.
use ffstream.Base.{Option, none, some, Result, ◌≡◌, ◌<◌, refl, length}
use ffstream.Transcoder.{TranscoderConfig}
use ffstream.Stream.{InputsApi, FfStream, StreamError, mux_failed}
use ffstream.Stream.Outputs.{MuxApi, after_call}
use ffstream.Stream.Start.{PushApi, start, start_guards}

-- `WaitForStop` of the multiplexer, which is nil before the start.
pub record StopApi (mux : MuxApi) : Type 0 where
  pub wait_for_stop : Option mux.Mux → Result (Unit {0}) (Unit {0})

-- `Wait`
unfoldable pub wait :
    (mux : MuxApi) {Inputs : Type 0}
    → StopApi mux
    → FfStream Inputs mux.Mux
    → Result (Unit {0}) (Unit {0})
wait mux stop s = stop.wait_for_stop s.stream_mux

module _ (api : InputsApi) (mux : MuxApi) (push : PushApi api mux) where
  -- A switch without an error leaves a multiplexer, so that the first `none` of two is never met.
  unfoldable pub wait_started :
      FfStream api.State mux.Mux × Option StreamError
      → FfStream api.State mux.Mux × Option StreamError
  unfolding after_call
  wait_started (s, some e) = (s, some e)
  wait_started (s, none) = elim s.stream_mux [
    | none ↦ (s, some mux_failed)
    | some m ↦ after_call mux s (mux.wait_for_start m)
  ]

  -- `Start` as a whole.
  unfoldable pub start_and_wait :
      FfStream api.State mux.Mux
      → mux.Mode
      → Option mux.AutoBitRate
      → TranscoderConfig mux.Device
      → FfStream api.State mux.Mux × Option StreamError
  unfolding start wait_started
  start_and_wait s mode auto props = wait_started (start api mux push s mode auto props)

  wait_started_ok :
      (r : FfStream api.State mux.Mux × Option StreamError) → (wait_started r).1 ≡ none → r.1 ≡ none
  unfolding wait_started
  wait_started_ok (s, some e) h = absurd (cc)
  wait_started_ok (s, none) h = refl

  -- The guards of a start that ends without an error.
  pub start_and_wait_guards :
      (s : FfStream api.State mux.Mux) (mode : mux.Mode) (auto : Option mux.AutoBitRate)
      (props : TranscoderConfig mux.Device)
      → (start_and_wait s mode auto props).1 ≡ none
      → (s.stream_mux ≡ none)
        × (0 < api.get_input_chains_count s.inputs)
        × (length s.output_templates ≡ 1)
  unfolding start_and_wait
  start_and_wait_guards s mode auto props h =
      let h' = wait_started_ok (start api mux push s mode auto props) h in
      let (unused, some_input, one, _) = start_guards api mux push s mode auto props h' in
      (unused, some_input, one)
