-- ===== src/Server/Srt/Laws.antt =====
-- grpc_server_libsrt.go: which requests about the flags of an SRT socket succeed.
use ffstream.Base.{
  Bool, true, false, some, ok, err, panic, Result, ◌≡◌, ◌↔◌, refl, ℤ, Option, ok-injective,
}
use ffstream.Convert.Quality.{SrtFlagInt, undefined, unnamed, latency, srt_sockopt_from_grpc}
use ffstream.Stream.Outputs.{MuxApi}
use ffstream.Stream.SrtOutput.{SrtApi, SrtError, with_srt_output, with_srt_output_iff, find_kernel}
use ffstream.Server.{GrpcServer}
use ffstream.Server.Srt.{SocketApi, answered, done_if, set_flag_int, get_flag_int}

answered_iff :
    {World A B : Type 0} (f : A → B) (r : World × Result SrtError A) (b : B)
    → ((answered f r).1 ≡ ok b) ↔ ((a : A) × (r.1 ≡ ok a) × (f a ≡ b))
answered_iff f (w, ok a) b =
    (λ h. (a, refl, ok-injective (f a) b h), λ (a', e, h). let e' = ok-injective a a' e in cc)
answered_iff f (w, err e) b = (λ h. absurd (cc), λ (a, g, h). absurd (cc))
answered_iff f (w, panic) b = (λ h. absurd (cc), λ (a, g, h). absurd (cc))

done_if-some : {World : Type 0} (r : World × Bool) → ((done_if r).1 ≡ some tt) ↔ (r.1 ≡ true)
done_if-some (w, true) = (λ h. refl, λ h. refl)
done_if-some (w, false) = (λ h. absurd (cc), λ h. absurd (cc))

module _ {Float : Type 0} {mux : MuxApi} (api : SrtApi mux) (socket : SocketApi Float api)
    {Inputs : Type 0} where
  -- The output has an SRT socket, of which this is true.
  pub OnSocket : api.World → GrpcServer Inputs mux.Mux → ℤ → (api.Socket → Type 0) → Type 0
  OnSocket w srv output_id P =
      (k : api.SrtKernel) × (sock : api.Socket) × (find_kernel api srv.ff_stream output_id ≡ ok k)
      × (api.srt w k ≡ some sock)
      × P sock

  module _ (w : api.World) (srv : GrpcServer Inputs mux.Mux) (output_id : ℤ) where
    set_latency_iff :
        (value : ℤ)
        → ((set_flag_int api socket w srv output_id latency value).1 ≡ ok tt)
          ↔ OnSocket w srv output_id (λ sock.
            (socket.setsockflag w sock socket.sockopt_latency (socket.blob_int value)).1 ≡ true)
    unfolding set_flag_int srt_sockopt_from_grpc OnSocket
    set_latency_iff value =
        let callback : api.World → api.Socket → api.World × Option (Unit {0}) = λ w' sock.
          done_if (socket.setsockflag w' sock socket.sockopt_latency (socket.blob_int value)) in
        let called = with_srt_output_iff api w srv.ff_stream output_id callback tt in
        let answer =
          answered_iff (λ done. done) (with_srt_output api w srv.ff_stream output_id callback) tt in
        (
          λ h.
              let (a, e, _) = answer.0 h in
              let (k, sock, found, has, gives) = called.0 e in
              (
                k,
                sock,
                found,
                has,
                (done_if-some
                      (socket.setsockflag w sock socket.sockopt_latency (socket.blob_int value))).0
                    gives,
              ),
          λ (k, sock, found, has, set). answer.1 (
            tt,
            called.1 (
              k,
              sock,
              found,
              has,
              (done_if-some
                    (socket.setsockflag w sock socket.sockopt_latency (socket.blob_int value))).1
                  set,
            ),
            refl,
          ),
        )

    get_latency_iff :
        (value : ℤ)
        → ((get_flag_int api socket w srv output_id latency).1 ≡ ok value)
          ↔ OnSocket w srv output_id (λ sock.
            (blob : socket.Blob) × ((socket.getsockflag w sock socket.sockopt_latency).1
              ≡ some blob)
            × (socket.int_of_blob blob ≡ value))
    unfolding get_flag_int srt_sockopt_from_grpc OnSocket
    get_latency_iff value =
        let callback : api.World → api.Socket → api.World × Option socket.Blob =
          λ w' sock. socket.getsockflag w' sock socket.sockopt_latency in
        let answer =
          answered_iff socket.int_of_blob (with_srt_output api w srv.ff_stream output_id callback)
            value in
        (
          λ h.
              let (blob, e, v) = answer.0 h in
              let (k, sock, found, has, gives) =
                (with_srt_output_iff api w srv.ff_stream output_id callback blob).0 e in
              (k, sock, found, has, (blob, gives, v)),
          λ (k, sock, found, has, (blob, gives, v)). answer.1 (
            blob,
            (with_srt_output_iff api w srv.ff_stream output_id callback blob).1
                (k, sock, found, has, gives),
            v,
          ),
        )

    -- Whatever the flag of the request: setting it succeeds exactly if it is the latency and the output
    -- has an SRT socket that takes the value for its option of the latency, and reading it gives a value
    -- exactly if it is the latency and the output has an SRT socket whose option has this value.
    pub flag_int_iff :
        (flag : SrtFlagInt) (value : ℤ)
        → (((set_flag_int api socket w srv output_id flag value).1 ≡ ok tt) ↔ (
            (flag ≡ latency)
            × OnSocket w srv output_id (λ sock.
              (socket.setsockflag w sock socket.sockopt_latency (socket.blob_int value)).1 ≡ true)))
          × (((get_flag_int api socket w srv output_id flag).1 ≡ ok value) ↔ (
              (flag ≡ latency)
              × OnSocket w srv output_id (λ sock.
                (blob : socket.Blob) × ((socket.getsockflag w sock socket.sockopt_latency).1
                  ≡ some blob)
                × (socket.int_of_blob blob ≡ value))))
    unfolding set_flag_int get_flag_int srt_sockopt_from_grpc
    flag_int_iff latency value =
        let (set, set') = set_latency_iff value in
        let (get, get') = get_latency_iff value in
        ((λ h. (refl, set h), λ h. set' h.1), (λ h. (refl, get h), λ h. get' h.1))
    flag_int_iff undefined value =
        ((λ h. absurd (cc), λ h. absurd (cc (h.0))), (λ h. absurd (cc), λ h. absurd (cc (h.0))))
    flag_int_iff (unnamed n) value =
        ((λ h. absurd (cc), λ h. absurd (cc (h.0))), (λ h. absurd (cc), λ h. absurd (cc (h.0))))
