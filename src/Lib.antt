-- ===== src/Lib.antt =====
-- ffstream: a streaming program that reads media from inputs by priority and sends it to an output,
-- and its control server.
--
-- The program starts in cmd/ffstream: `parseFlags` registers its options with the parser of
-- pkg/ffflag, parses the arguments, and makes inputs, outputs and encoders of what was collected.
-- `main` adds the inputs and one output template to an `FFStream` (pkg/ffstream), which keeps one
-- input chain for each priority and, once started, a multiplexer for the output. The server of
-- pkg/ffstreamserver answers remote requests about the same stream, with the conversions of
-- pkg/ffstreamserver/grpc/goconv between the program's data and the messages.
--
-- Files and code:
-- Flag/Value models the option types of pkg/ffflag/flag.go; Flag/Parser models pkg/ffflag/parser.go:
--   `add_parameter`, `add_flag`, `find_option_by_name`, `parse`. A pointer to an option is its
--   position in the list. The loop over `idx` is the recursion `parse_loop` on the arguments left,
--   with the option that waits for its argument as a parameter. Its child files hold the lemmas on it.
-- Resource models pkg/ffstream/resource.go, maps being association lists.
-- Command/Flags, Resources and Encoders model cmd/ffstream/flag.go; Options models
--   unknown_options.go and index_safe.go; Settings and ParseFlags `parseFlags` as a whole; Templates
--   models the outputs' loop of main.go, Main `main` up to `Start`, and Main/Ending the rest of it;
--   Context models context.go and print_build_info.go, and Context/Rotation the rotation of the log
--   file; Runtime runtime.go, and Printing codecs.go, demuxers.go and `printBuildInfo`.
-- Stream models the `FFStream` of pkg/ffstream/ffstream.go; Stream/Configuration option.go;
--   Stream/Factory, Opening and Inputs input_factory.go and the adding of inputs; Stream/Start the guards
--   and the set-up of `Start`, and Stream/Start/MoreOutputs the goroutines that create its outputs for
--   the auto-bitrate, as a step relation, with Stream/Start/WaitGroup for the wait of `Start`;
--   Stream/Start/Waiting the end of `Start` and `Wait`;
--   Stream/Start/Watching the goroutines it leaves, with the cancel functions of Stream/Cancellation,
--   Stream/Start/Success the calls of the multiplexer that a start needs;
--   Stream/Outputs and AutoBitRate the outputs and their rates; Stream/SrtOutput transcoder_srt.go;
--   Stream/Decoders decoder_factory.go.
-- Transcoder has the data that the stream, the command and the messages share.
-- Convert models pkg/ffstreamserver/grpc/goconv and `GetStats`.
-- Server models pkg/ffstreamserver/grpc_server.go, handler by handler, and Server/Transport the
--   addresses of cmd/ffstream/listener.go and pkg/ffstreamserver/client/client.go; Server/Srt models
--   grpc_server_libsrt.go, Server/Pipelines grpc_server_monitor.go, Server/Certificate pkg/cert.
-- Sender models pkg/ffstream/sender_factory.go and set_drop_on_close.go: `GetURL`, with Sender/Url
--   for templates of texts and placeholders; Sender/Output `NewSender` and what it opens; Sender/Retry
--   the callbacks of `newOutputWithRetry` over the events that the library reports.
-- Client models pkg/ffstreamserver/client and the recovery of panics in ffstream_server.go: a method is
--   a function of the server's state, the handler of Server between the conversions of both sides.
--   Control models cmd/ffstreamctl/commands on top of it: Control/Monitor the command `monitor`,
--   Control/Commands the tree of the commands.
-- Base has the shared names, tests, list lemmas, texts, machine words and results; Tests runs the
--   parts on small inputs.
--
-- Conventions: an error is a value, and an index out of range or a write to a nil map is the
-- result `panic`. Unsigned words are natural numbers whose sums wrap
-- around, `int` and `int64` are integers, and conversions between the two keep the 64-bit pattern.
-- Loops are structural recursion; only the printing of a decimal numeral has fuel, one more than the
-- number, which `digits_value-print_onto` shows to be enough. The media library avpipeline
-- (chains, multiplexer, device types), the readers of bytes, durations and log levels, and the
-- conversions of the library's own settings, JSON and gRPC are parameters: records of operations, with
-- what is relied on as a record of laws (`IsInputsApi`, `IsMuxApi`,
-- `IsGrpcApi`, `IsCancelApi`, `IsRuntimeApi`, `IsOpeningApi`, `IsMonitorsApi`).
--
-- Not modelled: logging itself, locks and sockets; generated messages, but
-- for the answer of a method that the server lacks; profiling; the flags of cobra;
-- and Float64, which no option uses. What the library does with nodes,
-- monitors, sockets, decoders and contexts is a parameter.
-- Operations other than the goroutines of `Start` are functions from state to state, so that concurrent
-- ones are taken one after the other.
pub mod Base
pub mod Flag
pub mod Resource
pub mod Command
pub mod Transcoder
pub mod Stream
pub mod Convert
pub mod Sender
pub mod Server
pub mod Client
pub mod Control
mod Tests
