-- ===== src/Tests/Srt.antt =====
-- One output with an SRT socket, whose only flag is its latency.
use ffstream.Base.{
  ◌≡◌, ◌↔◌, refl, str_eq, true, none, some, [], ◌∷◌, ℤ, pos, negsuc, ok, ◌==◌, if◌then◌else◌,
}
use ffstream.Convert.SrtStats.Functions.{output_srt_stats_from_grpc}
use ffstream.Convert.Quality.{latency}
use ffstream.Stream.SrtOutput.{SrtApi, find_kernel}
use ffstream.Server.{new_grpc_server}
use ffstream.Server.Srt.{SocketApi, set_flag_int, get_flag_int}
use ffstream.Server.Srt.Laws.{OnSocket, flag_int_iff}
use ffstream.Client.Srt.{
  client_get_output_srt_stats, client_get_output_srt_stats_lem, client_get_output_srt_stats_unused,
}
use ffstream.Control.Commands.{Action, output_switch, root_commands, find_command, find_in_command}
use ffstream.Control.Commands.Paths.{path_of, find_iff}
use ffstream.Control.Srt.{
  SockoptApi, IsFruitless, srt_flag_int_get, srt_flag_int_set, srt_flag_int-IsFruitless,
}
use ffstream.Tests.Apis.{mux_api, empty_stream}
use ffstream.Tests.Clients.{grpc_api, grpc_lawful, here, reachable, started_server}
use ffstream.Tests.SrtStats.{stats, reply}

abbrev srt_api : SrtApi mux_api
srt_api = record {
  World = ℤ;
  Output = Unit {0};
  Processor = Unit {0};
  Kernel = Unit {0};
  SrtKernel = Unit {0};
  Socket = Unit {0};
  load_output =
      λ m output_id. elim output_id [ pos n ↦ if n == 0 then some tt else none | negsuc n ↦ none ];
  get_processor = λ output. output;
  get_kernel = λ processor. some processor;
  as_srt = λ kernel. some kernel;
  srt = λ w kernel. some tt;
}

abbrev socket_api : SocketApi ℤ srt_api
socket_api = record {
  Blob = ℤ;
  blob_int = λ z. z;
  int_of_blob = λ z. z;
  sockopt_latency = 23;
  bistats = λ w sock. (w, some stats);
  setsockflag = λ w sock opt value. (value, true);
  getsockflag = λ w sock opt. (w, some w);
}

flag_int_iff_example :
    (((set_flag_int srt_api socket_api (pos 120) started_server (pos 0) latency (pos 500)).1
        ≡ ok tt)
      ↔ ((latency ≡ latency)
          × OnSocket srt_api socket_api
              (pos 120)
              started_server
              (pos 0)
              (λ sock. (socket_api.setsockflag (pos 120) sock 23 (pos 500)).1 ≡ true)))
    × (((get_flag_int srt_api socket_api (pos 120) started_server (pos 0) latency).1 ≡ ok (pos 500))
        ↔ ((latency ≡ latency)
            × OnSocket srt_api socket_api (pos 120) started_server (pos 0) (λ sock.
              (blob : ℤ) × ((socket_api.getsockflag (pos 120) sock 23).1 ≡ some blob)
              × (socket_api.int_of_blob blob ≡ pos 500))))
flag_int_iff_example =
    flag_int_iff srt_api socket_api (pos 120) started_server (pos 0) latency (pos 500)

-- What was set is read.
set_flag_int_test :
    set_flag_int srt_api socket_api (pos 120) started_server (pos 0) latency (pos 500)
    ≡ (pos 500, ok tt)
unfolding set_flag_int new_grpc_server
set_flag_int_test = refl

get_flag_int_test :
    get_flag_int srt_api socket_api (pos 500) started_server (pos 0) latency
    ≡ (pos 500, ok (pos 500))
unfolding get_flag_int new_grpc_server
get_flag_int_test = refl

client_get_output_srt_stats_lem_example :
    client_get_output_srt_stats grpc_api srt_api socket_api reply here (pos 120) started_server
    ≡ (pos 120, ok stats)
unfolding new_grpc_server find_kernel
client_get_output_srt_stats_lem_example =
    client_get_output_srt_stats_lem grpc_api srt_api socket_api reply here (pos 120) (pos 120)
      started_server tt tt stats reachable refl refl refl

client_get_output_srt_stats_unused_test :
    client_get_output_srt_stats grpc_api srt_api socket_api reply here
      (pos 120)
      (new_grpc_server empty_stream)
    ≡ (pos 120, ok (output_srt_stats_from_grpc reply))
unfolding new_grpc_server
client_get_output_srt_stats_unused_test =
    client_get_output_srt_stats_unused grpc_api srt_api socket_api reply here (pos 120)
      (new_grpc_server empty_stream) grpc_lawful reachable refl

abbrev sockopt_api : SockoptApi
sockopt_api = record {
  from_string = λ name. if str_eq name "latency" then some 23 else none;
  is_int_opt = λ opt. true;
}

srt_flag_int-IsFruitless_test :
    IsFruitless grpc_api here sockopt_api 23 started_server
      (srt_flag_int_get grpc_api here sockopt_api 23 started_server ("latency" ∷ []))
    × IsFruitless grpc_api here sockopt_api 23 started_server
        (srt_flag_int_set grpc_api here sockopt_api 23 started_server ("latency" ∷ []))
unfolding new_grpc_server
srt_flag_int-IsFruitless_test =
    srt_flag_int-IsFruitless grpc_api here sockopt_api 23 started_server ("latency" ∷ [])

-- The words of a function, and those that a comment in commands.go gives for `auto_bit_rate_calculator_set`.
find_iff_test :
    ((a : Action) × (find_command root_commands "output" ("switch" ∷ []) ≡ some a)
      × (a.run ≡ output_switch))
    ↔ (("output", "switch" ∷ []) ≡ path_of output_switch)
find_iff_test = find_iff output_switch "output" ("switch" ∷ [])

undocumented_test :
    find_command root_commands "encoder" ("auto_bitrate" ∷ "calculator" ∷ "set" ∷ []) ≡ none
unfolding find_command find_in_command
undocumented_test = refl
