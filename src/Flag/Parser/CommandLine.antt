-- ===== src/Flag/Parser/CommandLine.antt =====
-- parser.go: command lines that give one list option several times, as `-i` is given.
use mathlib.Core.Option
use ffstream.Base.{
  ℕ, suc, ◌≡◌, refl, ◌∙◌, sym, ap, fun_ext, String, true, none, some, List, [], ◌∷◌, ◌++◌, map,
  snoc, append_assoc, append-nil, modify, modify-modify, modify_id, All, arith, tail,
}
use ffstream.Flag.Value.{Readers, strings_as_separate_flags, parse_value}
use ffstream.Flag.Parser.{
  GenericOption, Parser, plain, known, classify, collect, finish, hand_over, take_value, parse_loop,
  parse,
}
use ffstream.Flag.Parser.Lookup.{
  classify-known, find-get_elem?, classify-modify_plain, classify-modify_known,
}
use ffstream.Flag.Parser.Update.{renew, hand_over_lem}
use ffstream.Flag.Parser.Steps.{loop_plain, loop_end, loop_parameter, loop_value}

-- Each value of the option `flag` behind the arguments that are for it, and what is left.
unfoldable pub command_line : String → List (List String × String) → List String → List String
command_line flag [] trailing = trailing
command_line flag ((opts, value) ∷ groups) trailing =
    opts ++ (flag ∷ value ∷ command_line flag groups trailing)

-- An argument that names no option and does not end the flags.
abbrev pub IsLoose : {Level : Type 0} → List (GenericOption Level) → String → Type 0
IsLoose options arg = classify options arg ≡ plain

abbrev pub AllLoose :
    {Level : Type 0} → List (GenericOption Level) → List (List String × String) → Type 0
AllLoose options [] = Unit {0}
AllLoose options ((opts, value) ∷ groups) = All (IsLoose options) opts × AllLoose options groups

abbrev pub values : List (List String × String) → List String
values = map (λ (opts, value). value)

abbrev pub groups_of : List (List String × String) → List (List String)
groups_of = map (λ (opts, value). opts)

module _ {Level : Type 0} where
  -- The option with the values and the groups added.
  abbrev pub gathered :
      List (List String × String) → List String → GenericOption Level → GenericOption Level
  gathered groups vs opt = record opt {
    wrapped = strings_as_separate_flags (vs ++ values groups);
    collected_unknown_options = opt.collected_unknown_options ++ groups_of groups;
  }

  abbrev with_next : Parser Level → List String → Parser Level
  with_next p next = record p { next_collector_of_unknown_options = next }

  abbrev pub with_options : Parser Level → List (GenericOption Level) → Parser Level
  with_options p options = record p { options = options }

  All-IsLoose-modify :
      (f : GenericOption Level → GenericOption Level)
      → ((o : GenericOption Level) → (f o).name ≡ o.name)
      → (options : List (GenericOption Level)) (i : ℕ) (args : List String)
      → All (IsLoose options) args
      → All (IsLoose (modify options i f)) args
  All-IsLoose-modify f same options i [] h = h
  All-IsLoose-modify f same options i (arg ∷ args) h =
      (classify-modify_plain f same options i arg h.0, All-IsLoose-modify f same options i args h.1)

  AllLoose-modify :
      (f : GenericOption Level → GenericOption Level)
      → ((o : GenericOption Level) → (f o).name ≡ o.name)
      → (options : List (GenericOption Level)) (i : ℕ) (groups : List (List String × String))
      → AllLoose options groups
      → AllLoose (modify options i f) groups
  AllLoose-modify f same options i [] h = h
  AllLoose-modify f same options i ((opts, value) ∷ groups) h =
      (All-IsLoose-modify f same options i opts h.0, AllLoose-modify f same options i groups h.1)

  gathered_nil :
      (vs : List String) (opt : GenericOption Level)
      → opt.wrapped ≡ strings_as_separate_flags vs
      → gathered [] vs opt ≡ opt
  gathered_nil vs opt w =
      ground (arith, append-nil {0} vs, append-nil {0} opt.collected_unknown_options)

  gathered_cons :
      (opts : List String) (value : String) (groups : List (List String × String))
      (vs : List String) (opt : GenericOption Level)
      → gathered groups
          (snoc vs value)
          (renew true opts (strings_as_separate_flags (snoc vs value)) opt)
        ≡ gathered ((opts, value) ∷ groups) vs opt
  gathered_cons opts value groups vs opt = simp append_assoc

module _ {Level : Type 0} (readers : Readers Level) where
  abbrev advance : ℕ → List String → ℕ
  advance idx [] = idx
  advance idx (x ∷ xs) = advance (suc idx) xs

  loop_loose :
      (opts rest : List String) (idx : ℕ) (p : Parser Level) (next : List String)
      → All (IsLoose p.options) opts
      → parse_loop readers (opts ++ rest) idx none (with_next p next)
        ≡ parse_loop readers rest (advance idx opts) none (with_next p (next ++ opts))
  unfolding collect
  loop_loose [] rest idx p next h = rw append-nil
  loop_loose (arg ∷ opts) rest idx p next h =
      loop_plain readers arg (opts ++ rest) idx (with_next p next) h.0
      ∙ loop_loose opts rest (suc idx) p (snoc next arg) h.1
      ∙ ap (λ n. parse_loop readers rest (advance (suc idx) opts) none (with_next p n))
          (append_assoc next (arg ∷ []) opts)

  loop_loose_end :
      (args : List String) (idx : ℕ) (p : Parser Level) (next : List String)
      → All (IsLoose p.options) args
      → parse_loop readers args idx none (with_next p next)
        ≡ (finish (with_next p (next ++ args)), none)
  unfolding parse_loop
  loop_loose_end args idx p next h =
      ap (λ xs. parse_loop readers xs idx none (with_next p next)) (sym (append-nil args))
      ∙ loop_loose args [] idx p next h

  take_value_list :
      (p : Parser Level) (i : ℕ) (opt : GenericOption Level) (vs next : List String)
      (value : String)
      → opt.wrapped ≡ strings_as_separate_flags vs
      → opt.collect_unknown_options ≡ true
      → take_value readers (with_next p next) i opt value
        ≡ some (
            with_options
              (with_next p [])
              (modify p.options i (renew true next (strings_as_separate_flags (snoc vs value)))))
  unfolding take_value parse_value
  take_value_list p i opt vs next value w c =
      ap
        (λ u.
          Option.map (hand_over (with_next p next) i opt.collect_unknown_options)
            (parse_value readers u value))
        w
      ∙ ap
          (λ b. some (hand_over (with_next p next) i b (strings_as_separate_flags (snoc vs value))))
          c
      ∙ ap some
          (hand_over_lem (with_next p next) i true (strings_as_separate_flags (snoc vs value)))

  loop_groups :
      (flag : String) (groups : List (List String × String)) (trailing : List String) (idx : ℕ)
      (p : Parser Level) (vs : List String) {i : ℕ} {opt : GenericOption Level}
      → classify p.options flag ≡ known i opt
      → opt.with_argument ≡ true
      → opt.collect_unknown_options ≡ true
      → opt.wrapped ≡ strings_as_separate_flags vs
      → AllLoose p.options groups
      → All (IsLoose p.options) trailing
      → parse_loop readers (command_line flag groups trailing) idx none (with_next p []) ≡ (
        finish (with_options (with_next p trailing) (modify p.options i (gathered groups vs))),
        none,
      )
  unfolding command_line
  loop_groups flag [] trailing idx p vs {i} {opt} k a c w l t =
      loop_loose_end trailing idx p [] t
      ∙ ap (λ os. (finish (with_options (with_next p trailing) os), none))
          (sym (
            modify_id p.options i (gathered [] vs)
              (find-get_elem? p.options (tail flag) (classify-known p.options flag k))
              (gathered_nil vs opt w)))
  loop_groups flag ((opts, value) ∷ groups) trailing idx p vs {i} {opt} k a c w l t =
      loop_loose opts (flag ∷ value ∷ command_line flag groups trailing) idx p [] l.0
      ∙ loop_parameter readers flag (value ∷ command_line flag groups trailing) (advance idx opts)
          (with_next p opts) k a
      ∙ loop_value readers value (command_line flag groups trailing) (suc (advance idx opts))
          (with_next p opts) i opt flag (take_value_list p i opt vs opts value w c)
      ∙ loop_groups flag groups trailing (suc (suc (advance idx opts)))
          (with_options p (modify p.options i f)) (snoc vs value)
          (classify-modify_known f (λ o. refl) p.options flag k) a c refl
          (AllLoose-modify f (λ o. refl) p.options i groups l.1)
          (All-IsLoose-modify f (λ o. refl) p.options i trailing t)
      ∙ ap (λ os. (finish (with_options (with_next p trailing) os), none))
          (modify-modify p.options i f (gathered groups (snoc vs value))
            ∙ ap (modify p.options i) (fun_ext (gathered_cons opts value groups vs)))
    where
      f : GenericOption Level → GenericOption Level
      f = renew true opts (strings_as_separate_flags (snoc vs value))

  -- Given a parser with nothing waiting to be collected, and a list option that takes an argument
  -- and collects unknown options: a command line that gives it any number of values, each behind
  -- arguments that name no option, is accepted. The option then has every value, in order, each
  -- with its own arguments as its group, and what follows the last value is left to the caller.
  pub parse-command_line :
      (flag : String) (groups : List (List String × String)) (trailing : List String)
      (p : Parser Level) (vs : List String) {i : ℕ} {opt : GenericOption Level}
      → p.next_collector_of_unknown_options ≡ []
      → classify p.options flag ≡ known i opt
      → opt.with_argument ≡ true
      → opt.collect_unknown_options ≡ true
      → opt.wrapped ≡ strings_as_separate_flags vs
      → AllLoose p.options groups
      → All (IsLoose p.options) trailing
      → parse readers p (command_line flag groups trailing) ≡ (
        record p {
          options = modify p.options i (gathered groups vs);
          collected_unknown_options = trailing;
          next_collector_of_unknown_options = trailing;
        },
        none,
      )
  unfolding parse
  parse-command_line flag groups trailing p vs e k a c w l t =
      ap (λ next. parse_loop readers (command_line flag groups trailing) 0 none (with_next p next))
        e
      ∙ loop_groups flag groups trailing 0 p vs k a c w l t

  -- Arguments that name no option are left to the caller, and all that follows `--` is kept apart
  -- and never read, whatever it is.
  pub parse-end_of_flags :
      (p : Parser Level) (args rest : List String)
      → All (IsLoose p.options) args
      → parse readers p (args ++ "--" ∷ rest) ≡ (
        record p {
          collected_unknown_options = p.next_collector_of_unknown_options ++ args;
          collected_non_flags = rest;
          next_collector_of_unknown_options = p.next_collector_of_unknown_options ++ args;
        },
        none,
      )
  unfolding parse
  parse-end_of_flags p args rest h =
      loop_loose args ("--" ∷ rest) 0 p p.next_collector_of_unknown_options h
      ∙ loop_end readers "--" rest (advance 0 args)
          (with_next p (p.next_collector_of_unknown_options ++ args)) refl
