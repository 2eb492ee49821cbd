-- ===== src/Server/Pipelines.antt =====
-- grpc_server.go and grpc_server_monitor.go: the nodes of the inputs, their monitoring, the current
-- output and the wait for the end.
use ffstream.Base.{
  ℕ, suc, ◌-◌, ◌≡◌, refl, Bool, Option, none, some, List, map, Result, ok, err, panic, arith,
  Result-cases, inl, inr,
}
use ffstream.Transcoder.{TranscoderConfig}
use ffstream.Convert.Config.{Devices, ConfigGrpc, transcoder_config_to_grpc}
use ffstream.Stream.{InputsApi}
use ffstream.Stream.Outputs.{MuxApi}
use ffstream.Stream.Start.Waiting.{StopApi, wait}
use ffstream.Server.{Code, unknown, GrpcServer}

-- The nodes of the inputs, some of which may be nil; `NonNil`, and the message of a node.
pub record NodesApi (api : InputsApi) : Type 1 where
  pub Node : Type 0
  pub NodeGrpc : Type 0
  pub get_inputs : api.State → List (Option Node)
  pub non_nil : List (Option Node) → List Node
  pub node_to_grpc : Node → NodeGrpc

-- `MonitorRequest`
pub record MonitorRequest (EventType : Type 0) : Type 0 where
  pub node_id : ℕ
  pub event_type : EventType
  pub include_packet_payload : Bool
  pub include_frame_payload : Bool
  pub do_decode : Bool

-- `FindNodeByObjectID`, `monitor.New` and `Close`, whose error is only logged, and `WrapChan`, which sends
-- the events until the channel or the connection ends.
pub record MonitorsApi (Node : Type 0) (EventType : Type 0) : Type 1 where
  pub World : Type 0
  pub Monitor : Type 0
  pub find_node : ℕ → List (Option Node) → Result (Unit {0}) Node
  pub new : World → Node → MonitorRequest EventType → World × Option Monitor
  pub close : World → Monitor → World
  pub wrap_chan : World → Monitor → World × Result (Unit {0}) (Unit {0})

pub data MonitorFailure : Type 0 where
  node_not_found : MonitorFailure
  monitor_not_created : MonitorFailure
  chan_failed : MonitorFailure

abbrev pub chan_result : Result (Unit {0}) (Unit {0}) → Result MonitorFailure (Unit {0})
chan_result (ok done) = ok tt
chan_result (err e) = err chan_failed
chan_result panic = panic

module _ {Node EventType : Type 0} (monitors : MonitorsApi Node EventType) where
  -- What is done once there is a monitor: its closing is deferred.
  unfoldable pub watch :
      monitors.World × Option monitors.Monitor → monitors.World × Result MonitorFailure (Unit {0})
  watch (w, none) = (w, err monitor_not_created)
  watch (w, some m) =
      let (w', result) = monitors.wrap_chan w m in (monitors.close w' m, chan_result result)

  -- What is relied on, with the number of monitors that are open: a new one is one more, unless it
  -- could not be made, sending events opens and closes none, and closing one leaves one less.
  pub record IsMonitorsApi (opened : monitors.World → ℕ) : Type 0 where
    pub opened-new :
        (w w' : monitors.World) (node : Node) (req : MonitorRequest EventType)
        (m : monitors.Monitor)
        → monitors.new w node req ≡ (w', some m)
        → opened w' ≡ suc (opened w)
    pub opened-not_new :
        (w w' : monitors.World) (node : Node) (req : MonitorRequest EventType)
        → monitors.new w node req ≡ (w', none)
        → opened w' ≡ opened w
    pub opened-wrap_chan :
        (w : monitors.World) (m : monitors.Monitor) → opened (monitors.wrap_chan w m).0 ≡ opened w
    pub opened-close :
        (w : monitors.World) (m : monitors.Monitor) → opened (monitors.close w m) ≡ opened w - 1

  watch_lem :
      (opened : monitors.World → ℕ) (w : monitors.World) (node : Node)
      (req : MonitorRequest EventType) (made : monitors.World × Option monitors.Monitor)
      → IsMonitorsApi opened
      → monitors.new w node req ≡ made
      → opened (watch made).0 ≡ opened w
  unfolding watch
  watch_lem opened w node req (w', none) lawful e = lawful.opened-not_new w w' node req e
  watch_lem opened w node req (w', some m) lawful e =
      let more = lawful.opened-new w w' node req m e in
      let same = lawful.opened-wrap_chan w' m in
      let less = lawful.opened-close (monitors.wrap_chan w' m).0 m in omega arith

module _ (api : InputsApi) {Mux : Type 0} (nodes : NodesApi api) where
  unfoldable pub get_pipelines : GrpcServer api.State Mux → List nodes.NodeGrpc
  get_pipelines srv = map nodes.node_to_grpc (nodes.non_nil (nodes.get_inputs srv.ff_stream.inputs))

  -- Unlike `GetPipelines`, this keeps nodes that are nil.
  unfoldable pub get_pipeline : GrpcServer api.State Mux → List (Option nodes.Node)
  get_pipeline srv = nodes.get_inputs srv.ff_stream.inputs

  module _ {EventType : Type 0} (monitors : MonitorsApi nodes.Node EventType) where
    -- `Monitor`
    unfoldable pub monitor_node :
        monitors.World
        → GrpcServer api.State Mux
        → MonitorRequest EventType
        → monitors.World × Result MonitorFailure (Unit {0})
    unfolding get_pipeline watch
    monitor_node w srv req = elim (monitors.find_node req.node_id (get_pipeline srv)) [
      | err e ↦ (w, err node_not_found)
      | panic ↦ (w, panic)
      | ok node ↦ watch monitors (monitors.new w node req)
    ]

    -- A request to monitor a node leaves as many monitors open as there were, whether there is no such
    -- node, the monitor cannot be made, the events end, or sending them fails or panics.
    pub opened-monitor_node :
        (opened : monitors.World → ℕ) (w : monitors.World) (srv : GrpcServer api.State Mux)
        (req : MonitorRequest EventType)
        → IsMonitorsApi monitors opened
        → opened (monitor_node w srv req).0 ≡ opened w
    unfolding monitor_node
    opened-monitor_node opened w srv req lawful =
        elim (Result-cases (monitors.find_node req.node_id (get_pipeline srv))) [
          | inl (node, e) ↦
              rw (e, monitor_node)
                (watch_lem monitors opened w node req (monitors.new w node req) lawful refl)
          | inr (inl (x, e)) ↦ rw (e, monitor_node) refl
          | inr (inr e) ↦ rw (e, monitor_node) refl
        ]

-- `GetTranscoderConfig` of the multiplexer, which is nil before the start; `none` is a panic.
pub record CurrentApi (mux : MuxApi) : Type 0 where
  pub get_transcoder_config : Option mux.Mux → Option (TranscoderConfig mux.Device)

-- What `Send` gives, once the stream has stopped.
abbrev pub sent : Result (Unit {0}) (Unit {0}) → Result Code (Unit {0}) → Result Code (Unit {0})
sent (ok done) send = send
sent (err e) send = err unknown
sent panic send = panic

module _ (mux : MuxApi) {Inputs : Type 0} where
  unfoldable pub get_current_output :
      Devices mux.Device → CurrentApi mux → GrpcServer Inputs mux.Mux → Result Code ConfigGrpc
  unfolding transcoder_config_to_grpc
  get_current_output devices current srv =
      elim (current.get_transcoder_config srv.ff_stream.stream_mux) [
        | some cfg ↦ ok (transcoder_config_to_grpc devices cfg)
        | none ↦ panic
      ]

  -- `WaitChan`
  unfoldable pub wait_chan :
      StopApi mux → GrpcServer Inputs mux.Mux → Result Code (Unit {0}) → Result Code (Unit {0})
  unfolding wait
  wait_chan stop srv send = sent (wait mux stop srv.ff_stream) send
