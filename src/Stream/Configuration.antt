-- ===== src/Stream/Configuration.antt =====
-- pkg/ffstream/option.go: the configuration of a stream.
use ffstream.Base.{◌≡◌, refl, List, [], ◌∷◌, ◌++◌, ℤ, negsuc}

pub record Config : Type 0 where
  pub input_retry_interval : ℤ

unfoldable pub default_config : Config
default_config = record { input_retry_interval = negsuc 0 }

-- The options that there are: `OptionInputRetryIntervalValue`.
pub data ConfigOption : Type 0 where
  input_retry_interval_value : ℤ → ConfigOption

unfoldable pub apply_option : ConfigOption → Config → Config
apply_option (input_retry_interval_value o) cfg = record cfg { input_retry_interval = o }

-- `Options.apply`
unfoldable pub apply_options : List ConfigOption → Config → Config
unfolding apply_option
apply_options [] cfg = cfg
apply_options (opt ∷ opts) cfg = apply_options opts (apply_option opt cfg)

-- `Options.Config`
unfoldable pub options_config : List ConfigOption → Config
unfolding apply_options default_config
options_config opts = apply_options opts default_config

-- The last interval given is the one that counts, and without one it is the default's.
pub options_config-append :
    (opts : List ConfigOption) (interval : ℤ)
    → (options_config [] ≡ default_config)
      × ((options_config (opts ++ input_retry_interval_value interval ∷ [])).input_retry_interval
          ≡ interval)
unfolding options_config
options_config-append opts interval = (refl, last opts default_config)
  where
    last :
        (opts : List ConfigOption) (cfg : Config)
        → (apply_options
            (opts ++ input_retry_interval_value interval ∷ [])
            cfg).input_retry_interval
          ≡ interval
    last [] cfg = refl
    last (opt ∷ opts) cfg = last opts (apply_option opt cfg)
