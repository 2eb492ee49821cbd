-- ===== src/Stream/SrtOutput.antt =====
-- pkg/ffstream/transcoder_srt.go and transcoder_nosrt.go: `WithSRTOutput`, in the build with libsrt and
-- in the one without.
use ffstream.Base.{
  ◌↔◌, ap, inl, inr, Option, Option-cases, Result-cases, ok-injective, none, some, Result, ok, err,
  panic, ◌≡◌, refl, ℤ,
}
use mathlib.Core.Option.{some-injective}
use ffstream.Stream.{FfStream}
use ffstream.Stream.Outputs.{MuxApi}

-- The outputs of the multiplexer, and how far each one leads to a socket: the processor of its sending
-- node, the kernel of a processor that has one, the kernel as one with a socket, and its socket. The
-- sockets' own state is part of `World`.
pub record SrtApi (mux : MuxApi) : Type 1 where
  pub World : Type 0
  pub Output : Type 0
  pub Processor : Type 0
  pub Kernel : Type 0
  pub SrtKernel : Type 0
  pub Socket : Type 0
  pub load_output : mux.Mux → ℤ → Option Output
  pub get_processor : Output → Processor
  pub get_kernel : Processor → Option Kernel
  pub as_srt : Kernel → Option SrtKernel
  pub srt : World → SrtKernel → Option Socket

pub data SrtError : Type 0 where
  output_not_initialized : SrtError
  no_kernel : SrtError
  not_srt : SrtError
  no_socket : SrtError
  callback_failed : SrtError
  without_libsrt : SrtError

module _ {mux : MuxApi} (api : SrtApi mux) where
  -- The kernel that has the socket of an output.
  unfoldable pub kernel_of : api.Output → Result SrtError api.SrtKernel
  kernel_of output = elim (api.get_kernel (api.get_processor output)) [
    | none ↦ err no_kernel
    | some kernel ↦ elim (api.as_srt kernel) [ none ↦ err not_srt | some kernel' ↦ ok kernel' ]
  ]

  abbrev pub callback_result : {A : Type 0} → api.World × Option A → api.World × Result SrtError A
  callback_result (w, none) = (w, err callback_failed)
  callback_result (w, some a) = (w, ok a)

  -- The call of `SRT` and of the callback.
  abbrev pub run_callback :
      {A : Type 0}
      → (api.World → api.Socket → api.World × Option A)
      → api.World
      → Option api.Socket
      → api.World × Result SrtError A
  run_callback callback w none = (w, err no_socket)
  run_callback callback w (some socket) = callback_result (callback w socket)

module _ {mux : MuxApi} (api : SrtApi mux) {Inputs : Type 0} where
  -- Before `Start` there is no multiplexer to lock.
  unfoldable pub find_kernel : FfStream Inputs mux.Mux → ℤ → Result SrtError api.SrtKernel
  unfolding kernel_of
  find_kernel s output_id = elim s.stream_mux [
    | none ↦ panic
    | some m ↦ elim (api.load_output m output_id) [
      | none ↦ err output_not_initialized
      | some output ↦ kernel_of api output
    ]
  ]

  -- `WithSRTOutput`; the callback gives what it leaves in the variables around it, or an error.
  unfoldable pub with_srt_output :
      {A : Type 0}
      → api.World
      → FfStream Inputs mux.Mux
      → ℤ
      → (api.World → api.Socket → api.World × Option A)
      → api.World × Result SrtError A
  unfolding find_kernel
  with_srt_output w s output_id callback = elim (find_kernel s output_id) [
    | err e ↦ (w, err e)
    | panic ↦ (w, panic)
    | ok kernel ↦ run_callback api callback w (api.srt w kernel)
  ]

-- The same without libsrt.
unfoldable pub without_srt_output : {A : Type 0} → Result SrtError A
without_srt_output = err without_libsrt

module _ {mux : MuxApi} (api : SrtApi mux) {Inputs A : Type 0} (w : api.World)
    (s : FfStream Inputs mux.Mux) (output_id : ℤ)
    (callback : api.World → api.Socket → api.World × Option A) where
  pub with_srt_output_ok :
      (k : api.SrtKernel) (sock : api.Socket)
      → find_kernel api s output_id ≡ ok k
      → api.srt w k ≡ some sock
      → with_srt_output api w s output_id callback ≡ callback_result api (callback w sock)
  unfolding with_srt_output
  with_srt_output_ok k sock found has = rw (found, with_srt_output) (rw has refl)

  pub with_srt_output_panic :
      s.stream_mux ≡ none → with_srt_output api w s output_id callback ≡ (w, panic)
  unfolding with_srt_output find_kernel
  with_srt_output_panic e = rw (e, with_srt_output) refl

  callback_result_iff :
      (r : api.World × Option A) (a : A) → ((callback_result api r).1 ≡ ok a) ↔ (r.1 ≡ some a)
  callback_result_iff (w', none) a = (λ h. absurd (cc), λ h. absurd (cc))
  callback_result_iff (w', some b) a =
      (λ h. ap some (ok-injective b a h), λ h. ap ok (some-injective b a h))

  -- The callback's result is there exactly if the output has a socket and the callback gives it.
  pub with_srt_output_iff :
      (a : A)
      → ((with_srt_output api w s output_id callback).1 ≡ ok a) ↔ (
          (k : api.SrtKernel) × (sock : api.Socket) × (find_kernel api s output_id ≡ ok k)
          × (api.srt w k ≡ some sock)
          × ((callback w sock).1 ≡ some a))
  unfolding with_srt_output
  with_srt_output_iff a = (
    λ h. elim (Result-cases (find_kernel api s output_id)) [
      | inl (k, found) ↦ elim (Option-cases (api.srt w k)) [
        | inl lost ↦ absurd (let h' = rw (with_srt_output, found, lost) at h in cc)
        | inr (sock, has) ↦
            let h' = rw (with_srt_output, found, has) at h in
            (k, sock, found, has, (callback_result_iff (callback w sock) a).0 h')
      ]
      | inr (inl (e, failed)) ↦ absurd (let h' = rw (with_srt_output, failed) at h in cc)
      | inr (inr panics) ↦ absurd (let h' = rw (with_srt_output, panics) at h in cc)
    ],
    λ (k, sock, found, has, gives).
        rw (with_srt_output, found, has) ((callback_result_iff (callback w sock) a).1 gives),
  )
