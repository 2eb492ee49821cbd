-- ===== src/Sender/Output.antt =====
-- sender_factory.go: `NewSender` and what it opens, and set_drop_on_close.go. The output kernels
-- belong to the library `avpipeline`; a call of theirs takes the world and gives the world after it.
pub mod Laws
use ffstream.Base.{
  ℕ, ◌*◌, ◌/◌, ◌%◌, ◌^◌, String, Bool, true, false, Option, none, some, List, [], ◌∷◌, ◌==◌, ltb,
  if◌then◌else◌, ℤ, pos, length, Result, ok, err, panic, ◌≡◌, ◌⊎◌,
}
use mathlib.Core.Option
use ffstream.Resource.{DictionaryItem}
use ffstream.Transcoder.{Resolution}
use ffstream.Command.Templates.{SenderTemplate}
use ffstream.Stream.{FfStream}
use ffstream.Stream.Outputs.{MuxApi}
use ffstream.Sender.{SenderKey, get_url}

-- `streammuxtypes.MuxMode`; `unknown_mode` is any other value.
pub data MuxMode : Type 0 where
  undefined_mode : MuxMode
  forbid : MuxMode
  same_output_same_tracks : MuxMode
  same_output_different_tracks : MuxMode
  different_outputs_same_tracks : MuxMode
  different_outputs_same_tracks_split_av : MuxMode
  unknown_mode : ℕ → MuxMode

-- `kernel.OutputConfig`; `video_before_audio` is the only field of `WaitForOutputStreams` in use.
pub record OutputConfig : Type 0 where
  pub custom_options : List DictionaryItem
  pub send_buffer_size : ℕ
  pub video_before_audio : Option Bool
  pub ignore_no_source_format_ctx_errors : Bool

-- An error of the library, by whether it is `ErrUnableToSetSendBufferSize`.
pub data OpenError : Type 0 where
  unable_to_set_send_buffer_size : OpenError
  not_opened : OpenError

pub data SenderError : Type 0 where
  one_template_required : ℕ → SenderError
  undefined_mux_mode : SenderError
  unknown_mux_mode : ℕ → SenderError
  unable_to_create_output : OpenError → SenderError
  kernel_is_nil : SenderError
  linger_failed : SenderError

-- What the stream's code uses of the multiplexer and of the output kernels. The bit rates are
-- `BitrateHigh.ToBps()` of the configuration that `Find` or `Best` gives, with `none` for nil.
pub record SenderApi (mux : MuxApi) : Type 1 where
  pub World : Type 0
  pub Kernel : Type 0
  pub Measurer : Type 0
  pub Handler : Type 0
  pub mux_mode : mux.Mux → MuxMode
  pub auto_bit_rate_handler : mux.Mux → Option Handler
  pub find : Handler → Resolution → Option ℕ
  pub best : Handler → Option ℕ
  pub canonicalize : String → String
  pub new_output_from_url : World → String → OutputConfig → World × Result OpenError Kernel
  pub unsafe_set_linger : World → Kernel → ℕ → ℕ → World × Bool

-- `kernel.Output` with its `Filter`.
pub record OutputKernel (Kernel Measurer : Type 0) : Type 0 where
  pub kernel : Kernel
  pub filter : Measurer

-- The node that sends: of a kernel that is open, or of one that is opened and opened again by the
-- library's `Retryable`.
pub data SendingNode (Kernel Measurer : Type 0) : Type 0 where
  opened : OutputKernel Kernel Measurer → SendingNode Kernel Measurer
  retryable : SenderTemplate → String → ℕ → ℤ → SendingNode Kernel Measurer

-- The streams that are waited for, by the mode of the multiplexer.
unfoldable pub wait_for_streams : Option MuxMode → Result SenderError (Option Bool)
wait_for_streams none = ok none
wait_for_streams (some undefined_mode) = err undefined_mux_mode
wait_for_streams (some different_outputs_same_tracks_split_av) = ok (some false)
wait_for_streams (some (unknown_mode m)) = err (unknown_mux_mode m)
wait_for_streams (some forbid) = ok none
wait_for_streams (some same_output_same_tracks) = ok none
wait_for_streams (some same_output_different_tracks) = ok none
wait_for_streams (some different_outputs_same_tracks) = ok none

-- The buffer of a known bit rate: at least 10 KiB.
unfoldable pub send_buffer_size : ℕ → ℕ
send_buffer_size bps =
    let size = (bps * 1000) % 2 ^ 64 / 1000 in if ltb size 10240 then 10240 else size

unfoldable pub output_config : SenderTemplate → ℕ → Option Bool → OutputConfig
output_config t size wait = record {
  custom_options = t.options;
  send_buffer_size = size;
  video_before_audio = wait;
  ignore_no_source_format_ctx_errors = true;
}

abbrev pub is_zero : ℤ → Bool
is_zero (pos n) = n == 0
is_zero (ℤ.negsuc n) = false

unfoldable pub on_off : Bool → ℕ
on_off true = 1
on_off false = 0

module _ {mux : MuxApi} (api : SenderApi mux) where
  abbrev pub Opening : Type 0
  Opening = api.World × Result SenderError (OutputKernel api.Kernel api.Measurer)

  -- The error of the last attempt, or the kernel with its filter.
  abbrev pub finish_opening : api.Measurer → api.World × Result OpenError api.Kernel → Opening
  finish_opening measurer (w, ok kernel) = (w, ok (record { kernel = kernel; filter = measurer }))
  finish_opening measurer (w, err e) = (w, err (unable_to_create_output e))
  finish_opening measurer (w, panic) = (w, panic)

  -- A second attempt, with no buffer, if the buffer was what failed.
  abbrev pub again :
      api.Measurer → String → OutputConfig → api.World × Result OpenError api.Kernel → Opening
  again measurer url cfg (w, err unable_to_set_send_buffer_size) =
      finish_opening measurer (api.new_output_from_url w url (record cfg { send_buffer_size = 0 }))
  again measurer url cfg (w, err not_opened) = finish_opening measurer (w, err not_opened)
  again measurer url cfg (w, ok kernel) = finish_opening measurer (w, ok kernel)
  again measurer url cfg (w, panic) = finish_opening measurer (w, panic)

  abbrev pub Sending : Type 0
  Sending = api.World × Result SenderError (SendingNode api.Kernel api.Measurer)

  abbrev pub node_of : Opening → Sending
  node_of (w, ok kernel) = (w, ok (opened kernel))
  node_of (w, err e) = (w, err e)
  node_of (w, panic) = (w, panic)

  -- The buffer of an output: none is asked for without auto-bitrate, and a resolution without a
  -- configuration takes the best one.
  unfoldable pub buffer_of : api.Handler → Resolution → Result SenderError ℕ
  unfolding send_buffer_size
  buffer_of handler resolution = elim (api.find handler resolution) [
    | some bps ↦ ok (send_buffer_size bps)
    | none ↦ elim (api.best handler) [ some bps ↦ ok (send_buffer_size bps) | none ↦ panic ]
  ]

  unfoldable pub buffer_size :
      {Inputs : Type 0} → FfStream Inputs mux.Mux → Resolution → Result SenderError ℕ
  unfolding buffer_of
  buffer_size s resolution = elim s.stream_mux [
    | none ↦ ok 0
    | some m ↦ elim (api.auto_bit_rate_handler m) [
      | none ↦ ok 0
      | some handler ↦ buffer_of handler resolution
    ]
  ]

  abbrev pub linger_result : api.World × Bool → api.World × Option SenderError
  linger_result (w, true) = (w, none)
  linger_result (w, false) = (w, some linger_failed)

  -- `SetDropOnClose` of an open kernel
  unfoldable pub set_drop_on_close : api.World → api.Kernel → Bool → api.World × Option SenderError
  unfolding on_off
  set_drop_on_close w kernel drop = linger_result (api.unsafe_set_linger w kernel (on_off drop) 0)

  -- `SetDropOnClose` of a retryable kernel, which may be nil
  unfoldable pub retry_set_drop_on_close :
      api.World → Option api.Kernel → Bool → api.World × Option SenderError
  unfolding on_off
  retry_set_drop_on_close w none drop = (w, some kernel_is_nil)
  retry_set_drop_on_close w (some kernel) drop =
      linger_result (api.unsafe_set_linger w kernel (on_off drop) 0)

module _ {mux : MuxApi} (api : SenderApi mux) (measurer : api.Measurer) {Inputs : Type 0} where
  unfoldable pub new_output_kernel :
      api.World → FfStream Inputs mux.Mux → SenderTemplate → String → ℕ → Opening api
  unfolding output_config wait_for_streams
  new_output_kernel w s t url size =
      elim (wait_for_streams (Option.map api.mux_mode s.stream_mux)) [
        | err e ↦ (w, err e)
        | panic ↦ (w, panic)
        | ok wait ↦
            let cfg = output_config t size wait in
            again api measurer url cfg (api.new_output_from_url w url cfg)
      ]

  unfoldable pub new_output :
      api.World → FfStream Inputs mux.Mux → SenderTemplate → String → ℕ → Sending api
  unfolding new_output_kernel
  new_output w s t url size = node_of api (new_output_kernel w s t url size)

  -- Nothing is opened before the library asks for it.
  unfoldable pub new_output_with_retry :
      api.World → FfStream Inputs mux.Mux → SenderTemplate → String → ℕ → ℤ → Sending api
  new_output_with_retry w s t url size timeout = (w, ok (retryable t url size timeout))

  abbrev pub send_with :
      api.World
      → FfStream Inputs mux.Mux
      → SenderTemplate
      → String
      → Result SenderError ℕ
      → Sending api
  send_with w s t url panic = (w, panic)
  send_with w s t url (err e) = (w, err e)
  send_with w s t url (ok size) =
      if is_zero t.retry_output_timeout_on_failure
      then new_output w s t url size
      else new_output_with_retry w s t url size t.retry_output_timeout_on_failure

  unfoldable pub sender_of :
      api.World → FfStream Inputs mux.Mux → SenderKey → List SenderTemplate → Sending api
  unfolding new_output new_output_with_retry buffer_size get_url
  sender_of w s key [] = (w, err (one_template_required 0))
  sender_of w s key (t ∷ []) =
      send_with w s t (get_url api.canonicalize t key) (buffer_size api s key.video_resolution)
  sender_of w s key (t ∷ u ∷ ts) = (w, err (one_template_required (length (t ∷ u ∷ ts))))

  unfoldable pub new_sender : api.World → FfStream Inputs mux.Mux → SenderKey → Sending api
  unfolding sender_of
  new_sender w s key = sender_of w s key s.output_templates
