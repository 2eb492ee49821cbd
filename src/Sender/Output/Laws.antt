-- ===== src/Sender/Output/Laws.antt =====
-- sender_factory.go: what an output that `NewSender` gives is made of.
use mathlib.Core.Option
use ffstream.Base.{
  ℕ, ◌≡◌, refl, String, Bool, true, false, Option, List, [], ◌∷◌, ◌⊎◌, inl, inr, Result, ok, err,
  panic, arith, Bool-cases,
}
use ffstream.Command.Templates.{SenderTemplate}
use ffstream.Stream.{FfStream}
use ffstream.Stream.Outputs.{MuxApi}
use ffstream.Sender.{SenderKey, get_url}
use ffstream.Sender.Output.{
  SenderApi, OutputConfig, OutputKernel, OpenError, SendingNode, opened, retryable,
  unable_to_set_send_buffer_size, output_config, wait_for_streams, buffer_size, again,
  finish_opening, node_of, is_zero, send_with, sender_of, new_output_kernel, new_output,
  new_output_with_retry, new_sender, SenderError, Opening,
}

module _ {mux : MuxApi} (api : SenderApi mux) where
  -- The kernel is one that the library opened at this address with this configuration.
  pub record IsOpened (url : String) (cfg : OutputConfig) (kernel : api.Kernel) : Type 0 where
    pub before : api.World
    pub after : api.World
    pub call : api.new_output_from_url before url cfg ≡ (after, ok kernel)

  -- It has the stream's filter, and a buffer of the size asked for or none.
  abbrev pub IsOutput :
      api.Measurer → String → OutputConfig → OutputKernel api.Kernel api.Measurer → Type 0
  IsOutput measurer url cfg k =
      (k.filter ≡ measurer)
      × (IsOpened url cfg k.kernel ⊎ IsOpened url (record cfg { send_buffer_size = 0 }) k.kernel)

  finish_ok :
      (measurer : api.Measurer) (url : String) (cfg : OutputConfig) (w : api.World)
      (r : api.World × Result OpenError api.Kernel) (k : OutputKernel api.Kernel api.Measurer)
      → api.new_output_from_url w url cfg ≡ r
      → (finish_opening api measurer r).1 ≡ ok k
      → (k.filter ≡ measurer) × IsOpened url cfg k.kernel
  finish_ok measurer url cfg w (v, ok kernel) k e h =
      (cc, record { before = w; after = v; call = ground arith })
  finish_ok measurer url cfg w (v, panic) k e h = absurd (cc)
  finish_ok measurer url cfg w (v, err _) k e h = absurd (cc)

  again_ok :
      (measurer : api.Measurer) (url : String) (cfg : OutputConfig) (w : api.World)
      (r : api.World × Result OpenError api.Kernel) (k : OutputKernel api.Kernel api.Measurer)
      → api.new_output_from_url w url cfg ≡ r
      → (again api measurer url cfg r).1 ≡ ok k
      → IsOutput measurer url cfg k
  again_ok measurer url cfg w (v, ok kernel) k e h =
      let (f, o) = finish_ok measurer url cfg w (v, ok kernel) k e h in (f, inl o)
  again_ok measurer url cfg w (v, panic) k e h = absurd (cc)
  again_ok measurer url cfg w (v, err OpenError.not_opened) k e h = absurd (cc)
  again_ok measurer url cfg w (v, err unable_to_set_send_buffer_size) k e h =
      let cfg' = record cfg { send_buffer_size = 0 } in
      let (f, o) = finish_ok measurer url cfg' v (api.new_output_from_url v url cfg') k refl h in
      (f, inr o)

  node_ok :
      (o : Opening api) (node : SendingNode api.Kernel api.Measurer)
      → (node_of api o).1 ≡ ok node
      → (k : OutputKernel api.Kernel api.Measurer) × (node ≡ opened k) × (o.1 ≡ ok k)
  node_ok (w, ok k) node h = (k, ground arith, refl)
  node_ok (w, err e) node h = absurd (cc)
  node_ok (w, panic) node h = absurd (cc)

module _ {mux : MuxApi} (api : SenderApi mux) (measurer : api.Measurer) {Inputs : Type 0} where
  -- What a sender is made of, by its kind.
  abbrev pub IsSender :
      FfStream Inputs mux.Mux
      → SenderTemplate
      → String
      → ℕ
      → SendingNode api.Kernel api.Measurer
      → Type 0
  IsSender s t url size (opened k) =
      (is_zero t.retry_output_timeout_on_failure ≡ true)
      × ((wait : Option Bool) × (wait_for_streams (Option.map api.mux_mode s.stream_mux) ≡ ok wait)
          × IsOutput api measurer url (output_config t size wait) k)
  IsSender s t url size (retryable t' url' size' timeout) =
      (is_zero t.retry_output_timeout_on_failure ≡ false)
      × (t' ≡ t)
      × (url' ≡ url)
      × (size' ≡ size)
      × (timeout ≡ t.retry_output_timeout_on_failure)

  new_output_kernel_ok :
      (w : api.World) (s : FfStream Inputs mux.Mux) (t : SenderTemplate) (url : String) (size : ℕ)
      (r : Result SenderError (Option Bool)) (k : OutputKernel api.Kernel api.Measurer)
      → wait_for_streams (Option.map api.mux_mode s.stream_mux) ≡ r
      → (new_output_kernel api measurer w s t url size).1 ≡ ok k
      → (wait : Option Bool) × (r ≡ ok wait)
        × IsOutput api measurer url (output_config t size wait) k
  unfolding new_output_kernel
  new_output_kernel_ok w s t url size (err e) k p h =
      let h' = rw (p, new_output_kernel) at h in absurd (cc)
  new_output_kernel_ok w s t url size panic k p h =
      let h' = rw (p, new_output_kernel) at h in absurd (cc)
  new_output_kernel_ok w s t url size (ok wait) k p h =
      let cfg = output_config t size wait in
      (
        wait,
        refl,
        again_ok api measurer url cfg w (api.new_output_from_url w url cfg) k refl
            (rw (p, new_output_kernel) at h),
      )

  once :
      (w : api.World) (s : FfStream Inputs mux.Mux) (t : SenderTemplate) (url : String) (n : ℕ)
      (node : SendingNode api.Kernel api.Measurer)
      → is_zero t.retry_output_timeout_on_failure ≡ true
      → (new_output api measurer w s t url n).1 ≡ ok node
      → IsSender s t url n node
  unfolding new_output
  once w s t url n node z h =
      let (k, e, made) = node_ok api (new_output_kernel api measurer w s t url n) node h in
      let mode = wait_for_streams (Option.map api.mux_mode s.stream_mux) in
      rw e (z, new_output_kernel_ok w s t url n mode k refl made)

  with_retry :
      (w : api.World) (s : FfStream Inputs mux.Mux) (t : SenderTemplate) (url : String) (n : ℕ)
      (node : SendingNode api.Kernel api.Measurer)
      → is_zero t.retry_output_timeout_on_failure ≡ false
      → (new_output_with_retry api measurer w s t url n t.retry_output_timeout_on_failure).1
        ≡ ok node
      → IsSender s t url n node
  unfolding new_output_with_retry
  with_retry w s t url n (opened k) z h = absurd (cc)
  with_retry w s t url n (retryable t' url' n' timeout) z h = ground arith

  send_with_ok :
      (w : api.World) (s : FfStream Inputs mux.Mux) (t : SenderTemplate) (url : String)
      (size : Result SenderError ℕ) (node : SendingNode api.Kernel api.Measurer)
      → (send_with api measurer w s t url size).1 ≡ ok node
      → (n : ℕ) × (size ≡ ok n) × IsSender s t url n node
  send_with_ok w s t url panic node h = absurd (cc)
  send_with_ok w s t url (err e) node h = absurd (cc)
  send_with_ok w s t url (ok n) node h =
      elim (Bool-cases (is_zero t.retry_output_timeout_on_failure)) [
        | inl z ↦ (n, refl, once w s t url n node z (rw z at h))
        | inr z ↦ (n, refl, with_retry w s t url n node z (rw z at h))
      ]

  sender_of_ok :
      (w : api.World) (s : FfStream Inputs mux.Mux) (key : SenderKey) (ts : List SenderTemplate)
      (node : SendingNode api.Kernel api.Measurer)
      → (sender_of api measurer w s key ts).1 ≡ ok node
      → (t : SenderTemplate) × (n : ℕ) × (ts ≡ t ∷ [])
        × (buffer_size api s key.video_resolution ≡ ok n)
        × IsSender s t (get_url api.canonicalize t key) n node
  unfolding sender_of
  sender_of_ok w s key [] node h = absurd (cc)
  sender_of_ok w s key (t ∷ u ∷ ts) node h = absurd (cc)
  sender_of_ok w s key (t ∷ []) node h =
      let url = get_url api.canonicalize t key in
      let size = buffer_size api s key.video_resolution in
      let (n, e, made) = send_with_ok w s t url size node h in (t, n, refl, e, made)

  -- A sender without an error is made from the only output template there is, for the address that
  -- `GetURL` gives. With no retry timeout it is a kernel that the library opened there with the
  -- template's options, the buffer computed for the resolution or none, audio waiting for video
  -- as the mode of the multiplexer says, and the stream's filter; with one it opens nothing yet and
  -- keeps exactly these to open later.
  pub new_sender_ok :
      (w : api.World) (s : FfStream Inputs mux.Mux) (key : SenderKey)
      (node : SendingNode api.Kernel api.Measurer)
      → (new_sender api measurer w s key).1 ≡ ok node
      → (t : SenderTemplate) × (n : ℕ) × (s.output_templates ≡ t ∷ [])
        × (buffer_size api s key.video_resolution ≡ ok n)
        × IsSender s t (get_url api.canonicalize t key) n node
  unfolding new_sender
  new_sender_ok w s key node h = sender_of_ok w s key s.output_templates node h
