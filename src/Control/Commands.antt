-- ===== src/Control/Commands.antt =====
-- commands.go and commands_srt.go: the tree of the commands that `init` puts together, in the build with
-- libsrt. Which command the words of a command line lead to is the library cobra's; the tree is not.
pub mod Paths
use ffstream.Base.{
  ℕ, String, str_eq, Bool, true, false, Bool-cases, Option, none, some, List, [], ◌∷◌, ◌≡◌, refl,
  sym, ◌∙◌, ap, ap₂, subst, if◌then◌else◌, eq_iff, inl, inr, arith,
}
use mathlib.Core.Option.{some-injective}

-- The functions that the commands run.
pub data CommandFunction : Type 0 where
  stats_encoder stats_bit_rates stats_latencies stats_input_quality stats_output_quality :
      CommandFunction
  stats_output_srt srt_flag_int_get srt_flag_int_set : CommandFunction
  auto_bit_rate_calculator_get auto_bit_rate_calculator_set : CommandFunction
  auto_bit_rate_config_get auto_bit_rate_config_set : CommandFunction
  encoder_fps_fraction_get encoder_fps_fraction_set : CommandFunction
  pipelines_get monitor inputs_info inputs_set_custom_option inputs_set_stop : CommandFunction
  output_switch : CommandFunction

-- `Args` and `Run` of a command: the fewest and the most arguments, and the function.
pub record Action : Type 0 where
  pub fewest : ℕ
  pub most : ℕ
  pub run : CommandFunction

-- A command with the word that `Use` begins with, and those under it.
mutual
  pub data Command : Type 0 where
    command : String → Option Action → Commands → Command

  pub data Commands : Type 0 where
    no_commands : Commands
    also : Command → Commands → Commands

abbrev pub exact_args : ℕ → CommandFunction → Option Action
exact_args n run = some (record { fewest = n; most = n; run = run })

abbrev leaf : String → ℕ → CommandFunction → Command
leaf use_ n run = command use_ (exact_args n run) no_commands

abbrev pub stats_command : Command
stats_command = command "stats" none (
    also (leaf "encoder" 0 stats_encoder) (
      also (leaf "bitrates" 0 stats_bit_rates) (
        also (leaf "latencies" 0 stats_latencies) (
          also (leaf "input_quality" 0 stats_input_quality) (
            also (leaf "output_quality" 0 stats_output_quality)
              (also (leaf "output_srt" 0 stats_output_srt) no_commands))))))

abbrev pub auto_bit_rate_command : Command
auto_bit_rate_command = command "auto_bitrate" none (
    also
      (command "video" none (
        also
          (command "calculator" none (
            also (leaf "get" 0 auto_bit_rate_calculator_get)
              (also (leaf "set" 0 auto_bit_rate_calculator_set) no_commands)))
          (also
            (command "config" none (
              also (leaf "get" 0 auto_bit_rate_config_get)
                (also (leaf "set" 0 auto_bit_rate_config_set) no_commands)))
            no_commands)))
      no_commands)

abbrev pub fps_fraction_command : Command
fps_fraction_command = command "fps_fraction" none (
    also (leaf "get" 0 encoder_fps_fraction_get)
      (also (leaf "set" 2 encoder_fps_fraction_set) no_commands))

abbrev pub encoder_command : Command
encoder_command = command "encoder" none (
    also (command "config" none no_commands)
      (also auto_bit_rate_command (also fps_fraction_command no_commands)))

abbrev pub inputs_command : Command
inputs_command = command "inputs" none (
    also (leaf "info" 0 inputs_info) (
      also (leaf "set_custom_option" 4 inputs_set_custom_option)
        (also (leaf "set_stop" 2 inputs_set_stop) no_commands)))

abbrev pub srt_command : Command
srt_command = command "srt" none (
    also
      (command "flag" none (
        also
          (command "int" none (
            also (leaf "get" 1 srt_flag_int_get)
              (also (leaf "set" 2 srt_flag_int_set) no_commands)))
          no_commands))
      no_commands)

-- What `init` adds to `Root`, in its order.
abbrev pub root_commands : Commands
root_commands = also stats_command (
    also encoder_command (
      also (command "buffer" none (also (command "output" none no_commands) no_commands)) (
        also (command "pipelines" none (also (leaf "get" 0 pipelines_get) no_commands)) (
          also
            (command "monitor" (some (record { fewest = 1; most = 2; run = monitor })) no_commands)
            (also inputs_command (
              also (command "output" none (also (leaf "switch" 8 output_switch) no_commands))
                (also srt_command no_commands)))))))

abbrev pub first_of : Option (Option Action) → Option Action → Option Action
first_of none other = other
first_of (some found) other = found

-- The action of the command under these words, the first of two with the same word; `find_in_command` is `some`
-- if the command has the first word.
unfoldable mutual
  pub find_command : Commands → String → List String → Option Action
  find_command no_commands word words = none
  find_command (also c cs) word words =
      first_of (find_in_command c word words) (find_command cs word words)

  pub find_in_command : Command → String → List String → Option (Option Action)
  find_in_command (command use_ action cs) word [] = if str_eq use_ word then some action else none
  find_in_command (command use_ action cs) word (next ∷ words) =
      let under = find_command cs next words in if str_eq use_ word then some under else none
