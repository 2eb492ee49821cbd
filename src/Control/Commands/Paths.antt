-- ===== src/Control/Commands/Paths.antt =====
-- commands.go and commands_srt.go: the words that lead to each function.
use ffstream.Base.{
  String, str_eq, Bool-cases, Option, none, some, List, [], ◌∷◌, ◌≡◌, ◌⊎◌, ◌↔◌, refl, sym, ◌∙◌, ap,
  subst, eq_iff, inl, inr,
}
use mathlib.Core.Option.{some-injective}
use ffstream.Control.Commands.{
  CommandFunction, stats_encoder, stats_bit_rates, stats_latencies, stats_input_quality,
  stats_output_quality, stats_output_srt, srt_flag_int_get, srt_flag_int_set,
  auto_bit_rate_calculator_get, auto_bit_rate_calculator_set, auto_bit_rate_config_get,
  auto_bit_rate_config_set, encoder_fps_fraction_get, encoder_fps_fraction_set, pipelines_get,
  monitor, inputs_info, inputs_set_custom_option, inputs_set_stop, output_switch, Action, Command,
  command, Commands, no_commands, also, first_of, root_commands, find_command, find_in_command,
}

-- The words as a user writes them.
pub path_of : CommandFunction → String × List String
path_of stats_encoder = ("stats", "encoder" ∷ [])
path_of stats_bit_rates = ("stats", "bitrates" ∷ [])
path_of stats_latencies = ("stats", "latencies" ∷ [])
path_of stats_input_quality = ("stats", "input_quality" ∷ [])
path_of stats_output_quality = ("stats", "output_quality" ∷ [])
path_of stats_output_srt = ("stats", "output_srt" ∷ [])
path_of srt_flag_int_get = ("srt", "flag" ∷ "int" ∷ "get" ∷ [])
path_of srt_flag_int_set = ("srt", "flag" ∷ "int" ∷ "set" ∷ [])
path_of auto_bit_rate_calculator_get =
    ("encoder", "auto_bitrate" ∷ "video" ∷ "calculator" ∷ "get" ∷ [])
path_of auto_bit_rate_calculator_set =
    ("encoder", "auto_bitrate" ∷ "video" ∷ "calculator" ∷ "set" ∷ [])
path_of auto_bit_rate_config_get = ("encoder", "auto_bitrate" ∷ "video" ∷ "config" ∷ "get" ∷ [])
path_of auto_bit_rate_config_set = ("encoder", "auto_bitrate" ∷ "video" ∷ "config" ∷ "set" ∷ [])
path_of encoder_fps_fraction_get = ("encoder", "fps_fraction" ∷ "get" ∷ [])
path_of encoder_fps_fraction_set = ("encoder", "fps_fraction" ∷ "set" ∷ [])
path_of pipelines_get = ("pipelines", "get" ∷ [])
path_of monitor = ("monitor", [])
path_of inputs_info = ("inputs", "info" ∷ [])
path_of inputs_set_custom_option = ("inputs", "set_custom_option" ∷ [])
path_of inputs_set_stop = ("inputs", "set_stop" ∷ [])
path_of output_switch = ("output", "switch" ∷ [])

abbrev Holds :
    (String → List String → Action → Type 0) → String → List String → Option Action → Type 0
Holds P word words none = Unit {0}
Holds P word words (some a) = P word words a

-- Every action satisfies the predicate, with the words that lead to it.
mutual
  AllIn : (String → List String → Action → Type 0) → Commands → Type 0
  AllIn P no_commands = Unit {0}
  AllIn P (also c cs) = AllOf P c × AllIn P cs

  AllOf : (String → List String → Action → Type 0) → Command → Type 0
  AllOf P (command use_ action cs) =
      Holds P use_ [] action × AllIn (λ word words. P use_ (word ∷ words)) cs

first_of-some :
    (x : Option (Option Action)) (y : Option Action) (a : Action)
    → first_of x y ≡ some a
    → (x ≡ some (some a)) ⊎ (y ≡ some a)
first_of-some none y a e = inr e
first_of-some (some found) y a e = inl (ap some e)

mutual
  unfolding AllIn AllOf find_command find_in_command

  find-AllIn :
      (P : String → List String → Action → Type 0) (cs : Commands) (word : String)
      (words : List String) (a : Action)
      → AllIn P cs
      → find_command cs word words ≡ some a
      → P word words a
  find-AllIn P no_commands word words a all e = absurd (cc)
  find-AllIn P (also c cs) word words a all e =
      elim (first_of-some (find_in_command c word words) (find_command cs word words) a e) [
        | inl here ↦ find_in-AllOf P c word words a all.0 here
        | inr later ↦ find-AllIn P cs word words a all.1 later
      ]

  find_in-AllOf :
      (P : String → List String → Action → Type 0) (c : Command) (word : String)
      (words : List String) (a : Action)
      → AllOf P c
      → find_in_command c word words ≡ some (some a)
      → P word words a
  find_in-AllOf P (command use_ action cs) word [] a all e = elim (Bool-cases (str_eq use_ word)) [
    | inr other ↦ absurd (let e' = rw other at e in cc)
    | inl same ↦
        let e' : action ≡ some a = some-injective action (some a) (rw same at e) in
        subst (λ w. P w [] a) ((eq_iff use_ word).0 same) (subst (Holds P use_ []) e' all.0)
  ]
  find_in-AllOf P (command use_ action cs) word (next ∷ words) a all e =
      elim (Bool-cases (str_eq use_ word)) [
        | inr other ↦ absurd (let e' = rw other at e in cc)
        | inl same ↦
            let e' : find_command cs next words ≡ some a =
              some-injective (find_command cs next words) (some a) (rw same at e) in
            subst (λ w. P w (next ∷ words) a) ((eq_iff use_ word).0 same)
              (find-AllIn (λ w ws. P use_ (w ∷ ws)) cs next words a all.1 e')
      ]

root-All : AllIn (λ word words a. path_of a.run ≡ (word, words)) root_commands
unfolding path_of AllIn AllOf
root-All = (
  (tt, ((refl, tt), ((refl, tt), ((refl, tt), ((refl, tt), ((refl, tt), ((refl, tt), tt))))))),
  (
    (
      tt,
      (
        (tt, tt),
        (
          (
            tt,
            (
              (
                tt,
                ((tt, ((refl, tt), ((refl, tt), tt))), ((tt, ((refl, tt), ((refl, tt), tt))), tt)),
              ),
              tt,
            ),
          ),
          ((tt, ((refl, tt), ((refl, tt), tt))), tt),
        ),
      ),
    ),
    (
      (tt, ((tt, tt), tt)),
      (
        (tt, ((refl, tt), tt)),
        (
          (refl, tt),
          (
            (tt, ((refl, tt), ((refl, tt), ((refl, tt), tt)))),
            (
              (tt, ((refl, tt), tt)),
              ((tt, ((tt, ((tt, ((refl, tt), ((refl, tt), tt))), tt)), tt)), tt),
            ),
          ),
        ),
      ),
    ),
  ),
)

-- The action of each function.
registered :
    (h : CommandFunction)
    → (a : Action) × (find_command root_commands (path_of h).0 (path_of h).1 ≡ some a) × (a.run ≡ h)
unfolding path_of find_command find_in_command
registered stats_encoder = (_, refl, refl)
registered stats_bit_rates = (_, refl, refl)
registered stats_latencies = (_, refl, refl)
registered stats_input_quality = (_, refl, refl)
registered stats_output_quality = (_, refl, refl)
registered stats_output_srt = (_, refl, refl)
registered srt_flag_int_get = (_, refl, refl)
registered srt_flag_int_set = (_, refl, refl)
registered auto_bit_rate_calculator_get = (_, refl, refl)
registered auto_bit_rate_calculator_set = (_, refl, refl)
registered auto_bit_rate_config_get = (_, refl, refl)
registered auto_bit_rate_config_set = (_, refl, refl)
registered encoder_fps_fraction_get = (_, refl, refl)
registered encoder_fps_fraction_set = (_, refl, refl)
registered pipelines_get = (_, refl, refl)
registered monitor = (_, refl, refl)
registered inputs_info = (_, refl, refl)
registered inputs_set_custom_option = (_, refl, refl)
registered inputs_set_stop = (_, refl, refl)
registered output_switch = (_, refl, refl)

-- The words of a command line lead to a function exactly if they are the ones for it: each function of
-- ffstreamctl has one sequence of words, and no other leads there.
pub find_iff :
    (h : CommandFunction) (word : String) (words : List String)
    → ((a : Action) × (find_command root_commands word words ≡ some a) × (a.run ≡ h))
      ↔ ((word, words) ≡ path_of h)
find_iff h word words = (
  λ r.
      let (a, found, e) = r in
      sym (find-AllIn (λ w ws b. path_of b.run ≡ (w, ws)) root_commands word words a root-All found)
      ∙ ap path_of e,
  λ e.
      subst (λ p. (a : Action) × (find_command root_commands p.0 p.1 ≡ some a) × (a.run ≡ h))
        (sym e) (registered h),
)
