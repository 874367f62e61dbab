-- ===== src/Config/Valid.antt =====
-- internal/config/config.go: the values that a loaded configuration can have.
use logfalcon.Prelude.{
  ℕ, ◌≤◌, ◌≡◌, Bool, false, ◌||◌, Option, none, some, List, [], ◌∷◌, arith, on_if, All,
}
use logfalcon.Prelude.Ints.{ℤ, pos, negsuc, int_ltb}
use logfalcon.Web.Text.{parse_int}
use logfalcon.Config.{
  Config, default_config, Environment, parse_bool, override_storage_path, set_web_port,
  override_web_port, override_led_backend, set_min_free, override_min_free, set_erase,
  override_erase, apply_env_overrides, ConfigFile, load_file, loaded_or, first_loaded, candidates,
  load,
}

abbrev pub IsPort : ℤ → Type 0
IsPort (pos n) = (1 ≤ n) × (n ≤ 65535)
IsPort (negsuc n) = ⊥

abbrev pub IsReserve : ℤ → Type 0
IsReserve (pos n) = Unit {0}
IsReserve (negsuc n) = ⊥

-- A port to listen on, and a reserve of disk space that is not negative.
abbrev pub IsValid : Config → Type 0
IsValid c = IsPort c.web_port × IsReserve c.min_free_space_mb

IsPort-checked : (n : ℤ) → (int_ltb n (pos 1) || int_ltb (pos 65535) n) ≡ false → IsPort n
unfolding int_ltb
IsPort-checked (pos n) h = (ground arith, ground arith)
IsPort-checked (negsuc n) h = cc h

IsReserve-checked : (n : ℤ) → int_ltb n (pos 0) ≡ false → IsReserve n
unfolding int_ltb
IsReserve-checked (pos n) h = tt
IsReserve-checked (negsuc n) h = cc h

web_port-IsValid : (v : Option (List ℕ)) (c : Config) → IsValid c → IsValid (override_web_port v c)
unfolding override_web_port
web_port-IsValid none c h = h
web_port-IsValid (some v) c h = checked (parse_int v)
  where
    checked : (n : Option ℤ) → IsValid (set_web_port n c)
    checked none = h
    checked (some n) =
        on_if {A = Config} IsValid (int_ltb n (pos 1) || int_ltb (pos 65535) n) _ _ (λ _. h)
          (λ e. (IsPort-checked n e, h.1))

min_free-IsValid : (v : Option (List ℕ)) (c : Config) → IsValid c → IsValid (override_min_free v c)
unfolding override_min_free
min_free-IsValid none c h = h
min_free-IsValid (some v) c h = checked (parse_int v)
  where
    checked : (n : Option ℤ) → IsValid (set_min_free n c)
    checked none = h
    checked (some n) =
        on_if {A = Config} IsValid (int_ltb n (pos 0)) _ _ (λ _. h)
          (λ e. (h.0, IsReserve-checked n e))

erase-IsValid : (v : Option (List ℕ)) (c : Config) → IsValid c → IsValid (override_erase v c)
unfolding override_erase
erase-IsValid none c h = h
erase-IsValid (some v) c h = checked (parse_bool v)
  where
    checked : (b : Option Bool) → IsValid (set_erase b c)
    checked none = h
    checked (some b) = h

storage_path-IsValid :
    (v : Option (List ℕ)) (c : Config) → IsValid c → IsValid (override_storage_path v c)
unfolding override_storage_path
storage_path-IsValid none c h = h
storage_path-IsValid (some v) c h = h

led_backend-IsValid :
    (v : Option (List ℕ)) (c : Config) → IsValid c → IsValid (override_led_backend v c)
unfolding override_led_backend
led_backend-IsValid none c h = h
led_backend-IsValid (some v) c h = h

apply_env_overrides-IsValid :
    (env : Environment) (c : Config) → IsValid c → IsValid (apply_env_overrides env c)
unfolding apply_env_overrides
apply_env_overrides-IsValid env c h = erase-IsValid env.erase_after_sync _ (
    min_free-IsValid env.min_free_mb _ (
      led_backend-IsValid env.led_backend _
        (web_port-IsValid env.web_port _ (storage_path-IsValid env.storage_path c h))))

default_config-IsValid : IsValid default_config
unfolding default_config
default_config-IsValid = ((omega arith, omega arith), tt)

module _ (is_toml : List ℕ → Bool) (unmarshal : List ℕ → Config → Option Config) where
  abbrev pub IsValidLoad : Option Config → Type 0
  IsValidLoad none = Unit {0}
  IsValidLoad (some c) = IsValid c

  -- The configuration of a file that is read, if it is.
  abbrev pub IsValidFile : ConfigFile → Type 0
  IsValidFile f = IsValidLoad (load_file is_toml unmarshal f)

  loaded_or-IsValid :
      (o : Option Config) (rest : Config)
      → IsValidLoad o
      → IsValid rest
      → IsValid (loaded_or is_toml unmarshal o rest)
  unfolding loaded_or
  loaded_or-IsValid none rest h k = k
  loaded_or-IsValid (some c) rest h k = h

  first_loaded-IsValid :
      (fs : List ConfigFile) → All IsValidFile fs → IsValid (first_loaded is_toml unmarshal fs)
  unfolding first_loaded
  first_loaded-IsValid [] h = default_config-IsValid
  first_loaded-IsValid (f ∷ fs) h =
      loaded_or-IsValid (load_file is_toml unmarshal f) _ h.0 (first_loaded-IsValid fs h.1)

  -- `Load` gives a port from 1 to 65535 and a reserve of disk space that is not negative, whatever the
  -- environment holds and whichever files are there, if those of the files that load have such values.
  pub load-IsValid :
      (given : Option ConfigFile) (system local : ConfigFile) (env : Environment)
      → All IsValidFile (candidates is_toml unmarshal given system local)
      → IsValid (load is_toml unmarshal given system local env)
  unfolding load
  load-IsValid given system local env h =
      apply_env_overrides-IsValid env _
        (first_loaded-IsValid (candidates is_toml unmarshal given system local) h)
