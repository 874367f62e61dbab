-- ===== src/Tests/Config.antt =====
-- internal/config/config.go at concrete inputs.
use logfalcon.Prelude.{ℕ, Bool, true, Option, none, some, List, [], arith}
use logfalcon.Prelude.Texts.{ascii}
use logfalcon.Prelude.Ints.{pos}
use logfalcon.Config.{
  Config, default_config, Environment, missing, holding, load_file, candidates, load,
}
use logfalcon.Config.Valid.{IsValid, load-IsValid}

-- A decoder that knows one key, with the port 8080.
abbrev is_toml : List ℕ → Bool
is_toml text = true

abbrev unmarshal : List ℕ → Config → Option Config
unmarshal text c = some (record c { web_port = pos 8080 })

abbrev env : Environment
env = record {
  storage_path = none;
  web_port = some (ascii "99999");
  led_backend = none;
  min_free_mb = some (ascii "-5");
  erase_after_sync = some (ascii "no");
}

load-IsValid_example : IsValid (load is_toml unmarshal none missing (holding []) env)
unfolding candidates load_file default_config
load-IsValid_example =
    load-IsValid is_toml unmarshal none missing (holding []) env
      (tt, (((omega arith, omega arith), tt), tt))
