-- ===== src/Client/Outputs.antt =====
-- client.go: the methods on the outputs, their rates and the auto-bitrate.
pub mod Laws
use ffstream.Base.{ℕ, String, Option, none, some, [], List, Result, ok, err, panic}
use ffstream.Convert.Rates.{BitRates, bit_rates_from_grpc, Latencies, latencies_from_grpc}
use ffstream.Convert.Config.{Devices, ConfigGrpc, VideoCodecConfig, AudioCodecConfig}
use ffstream.Stream.Outputs.{MuxApi}
use ffstream.Stream.AutoBitRate.{RatesApi}
use ffstream.Server.{GrpcServer}
use ffstream.Server.Outputs.{
  Protos, get_fps_fraction_reply, set_fps_fraction_reply, switch_output_reply, get_bit_rates_reply,
  get_latencies_reply, get_config_reply, set_config_reply, get_calculator_reply,
  set_calculator_reply,
}
use ffstream.Client.{
  GrpcApi, ClientError, no_client, not_converted, grpc_client, call, Answer, with_answer, on_reply,
  convert_reply,
}

-- The message `SwitchOutputByPropsRequest`
pub record SwitchRequest : Type 0 where
  pub config : ConfigGrpc
  pub max_bit_rate : ℕ

-- The request of `SwitchOutputByProps`: codec, width, height and bit rate of the video, codec, sample
-- rate and bit rate of the audio, and the greatest bit rate.
unfoldable pub switch_request : String → ℕ → ℕ → ℕ → String → ℕ → ℕ → ℕ → SwitchRequest
switch_request video_codec width height video_rate audio_codec sample_rate audio_rate max_rate =
    record {
      config = record {
        video = some (record {
          codec_name = video_codec;
          averaging_period = 0;
          average_bit_rate = video_rate;
          custom_options = [];
          hardware_device_type = "";
          hardware_device_name = "";
          width = width;
          height = height;
        });
        audio = some (record {
          codec_name = audio_codec;
          averaging_period = 0;
          average_bit_rate = audio_rate;
          custom_options = [];
          sample_rate = sample_rate;
        });
      };
      max_bit_rate = max_rate;
    }

module _ (grpc : GrpcApi) (mux : MuxApi) {Inputs : Type 0} where
  unfoldable pub client_get_fps_fraction :
      String → GrpcServer Inputs mux.Mux → Answer (GrpcServer Inputs mux.Mux) (ℕ × ℕ)
  client_get_fps_fraction target srv =
      call grpc target (0, 0) srv (srv, get_fps_fraction_reply mux srv)

  unfoldable pub client_set_fps_fraction :
      String → GrpcServer Inputs mux.Mux → ℕ → ℕ → Answer (GrpcServer Inputs mux.Mux) (Unit {0})
  client_set_fps_fraction target srv num den =
      call grpc target tt srv (set_fps_fraction_reply mux srv num den)

  -- The handler reads the configuration of the request alone.
  unfoldable pub client_switch_output :
      Devices mux.Device
      → String
      → GrpcServer Inputs mux.Mux
      → SwitchRequest
      → Answer (GrpcServer Inputs mux.Mux) (Unit {0})
  client_switch_output devices target srv req =
      call grpc target tt srv (switch_output_reply mux devices srv req.config)

  module _ (rates : RatesApi mux) where
    unfoldable pub client_get_bit_rates :
        String → GrpcServer Inputs mux.Mux → Answer (GrpcServer Inputs mux.Mux) (Option BitRates)
    client_get_bit_rates target srv =
        with_answer (on_reply bit_rates_from_grpc)
          (call grpc target none srv (srv, get_bit_rates_reply mux rates srv))

    unfoldable pub client_get_latencies :
        String → GrpcServer Inputs mux.Mux → Answer (GrpcServer Inputs mux.Mux) (Option Latencies)
    client_get_latencies target srv =
        with_answer (on_reply latencies_from_grpc)
          (call grpc target none srv (srv, get_latencies_reply mux rates srv))

    -- The methods of the auto-bitrate; the messages of an empty reply are nil. What is sent is
    -- converted once there is a client.
    module _ (protos : Protos mux rates) where
      unfoldable pub client_get_config :
          protos.Config
          → String
          → GrpcServer Inputs mux.Mux
          → Answer (GrpcServer Inputs mux.Mux) (Option mux.AutoBitRate)
      client_get_config nil_message target srv =
          with_answer (convert_reply protos.config_from_proto)
            (call grpc target nil_message srv (srv, get_config_reply mux rates protos srv))

      unfoldable pub client_get_calculator :
          protos.Calculator
          → String
          → GrpcServer Inputs mux.Mux
          → Answer (GrpcServer Inputs mux.Mux) (Option rates.Calculator)
      client_get_calculator nil_message target srv =
          with_answer (convert_reply protos.calculator_from_proto)
            (call grpc target nil_message srv (srv, get_calculator_reply mux rates protos srv))

      unfoldable pub client_set_config :
          String
          → GrpcServer Inputs mux.Mux
          → Option mux.AutoBitRate
          → Answer (GrpcServer Inputs mux.Mux) (Unit {0})
      client_set_config target srv cfg = elim (grpc_client grpc target) [
        | none ↦ (srv, err no_client)
        | some dialed ↦ elim (protos.config_to_proto cfg) [
          | none ↦ (srv, err not_converted)
          | some message ↦ call grpc target tt srv (set_config_reply mux rates protos srv message)
        ]
      ]

      unfoldable pub client_set_calculator :
          String
          → GrpcServer Inputs mux.Mux
          → rates.Calculator
          → Answer (GrpcServer Inputs mux.Mux) (Unit {0})
      client_set_calculator target srv calculator = elim (grpc_client grpc target) [
        | none ↦ (srv, err no_client)
        | some dialed ↦ elim (protos.calculator_to_proto calculator) [
          | none ↦ (srv, err not_converted)
          | some message ↦
              call grpc target tt srv (set_calculator_reply mux rates protos srv message)
        ]
      ]
