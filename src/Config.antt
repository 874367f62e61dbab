-- ===== src/Config.antt =====
-- internal/config/config.go: the configuration, its defaults, files and environment. The TOML decoder is a
-- parameter. `SerialTimeout`, a float that nothing overrides, is left out.
pub mod Valid
use logfalcon.Prelude.{
  ℕ, ◌≤◌, Bool, true, false, ◌||◌, Option, none, some, List, [], ◌∷◌, ◌==◌, if◌then◌else◌, bytes_eq,
}
use logfalcon.Prelude.Ints.{ℤ, pos, negsuc, int_ltb}
use logfalcon.Prelude.Texts.{ascii}
use logfalcon.Web.Text.{parse_int}

pub record Config : Type 0 where
  pub serial_baud : ℤ
  pub serial_port : List ℕ
  pub storage_path : List ℕ
  pub min_free_space_mb : ℤ
  pub storage_pressure_cleanup : Bool
  pub erase_after_sync : Bool
  pub flash_chunk_size : ℤ
  pub erase_timeout_sec : ℤ
  pub flash_read_compression : Bool
  pub led_backend : List ℕ
  pub led_gpio_pin : ℤ
  pub web_port : ℤ
  pub hotspot_ssid : List ℕ
  pub hotspot_password : List ℕ
  pub idle_shutdown_minutes : ℤ

-- `Default`
unfoldable pub default_config : Config
default_config = record {
  serial_baud = pos 921600;
  serial_port = [];
  storage_path = ascii "/mnt/logfalcon-logs";
  min_free_space_mb = pos 200;
  storage_pressure_cleanup = true;
  erase_after_sync = true;
  flash_chunk_size = pos 4096;
  erase_timeout_sec = pos 120;
  flash_read_compression = false;
  led_backend = ascii "sysfs";
  led_gpio_pin = pos 17;
  web_port = pos 80;
  hotspot_ssid = ascii "LogFalcon";
  hotspot_password = ascii "fpvpilot";
  idle_shutdown_minutes = pos 0;
}

-- The five variables that are looked up.
pub record Environment : Type 0 where
  pub storage_path : Option (List ℕ)
  pub web_port : Option (List ℕ)
  pub led_backend : Option (List ℕ)
  pub min_free_mb : Option (List ℕ)
  pub erase_after_sync : Option (List ℕ)

-- `strconv.ParseBool`
unfoldable pub parse_bool : List ℕ → Option Bool
unfolding bytes_eq
parse_bool s =
    if bytes_eq s (ascii "1")
      || bytes_eq s (ascii "t")
      || bytes_eq s (ascii "T")
      || bytes_eq s (ascii "true")
      || bytes_eq s (ascii "TRUE")
      || bytes_eq s (ascii "True")
    then some true
    else if bytes_eq s (ascii "0")
        || bytes_eq s (ascii "f")
        || bytes_eq s (ascii "F")
        || bytes_eq s (ascii "false")
        || bytes_eq s (ascii "FALSE")
        || bytes_eq s (ascii "False")
    then some false
    else none

unfoldable pub override_storage_path : Option (List ℕ) → Config → Config
override_storage_path none c = c
override_storage_path (some v) c = record c { storage_path = v }

unfoldable pub set_web_port : Option ℤ → Config → Config
unfolding int_ltb
set_web_port none c = c
set_web_port (some n) c =
    if int_ltb n (pos 1) || int_ltb (pos 65535) n then c else record c { web_port = n }

unfoldable pub override_web_port : Option (List ℕ) → Config → Config
unfolding set_web_port parse_int
override_web_port none c = c
override_web_port (some v) c = set_web_port (parse_int v) c

unfoldable pub override_led_backend : Option (List ℕ) → Config → Config
override_led_backend none c = c
override_led_backend (some v) c = record c { led_backend = v }

unfoldable pub set_min_free : Option ℤ → Config → Config
unfolding int_ltb
set_min_free none c = c
set_min_free (some n) c = if int_ltb n (pos 0) then c else record c { min_free_space_mb = n }

unfoldable pub override_min_free : Option (List ℕ) → Config → Config
unfolding set_min_free parse_int
override_min_free none c = c
override_min_free (some v) c = set_min_free (parse_int v) c

unfoldable pub set_erase : Option Bool → Config → Config
set_erase none c = c
set_erase (some b) c = record c { erase_after_sync = b }

unfoldable pub override_erase : Option (List ℕ) → Config → Config
unfolding set_erase parse_bool
override_erase none c = c
override_erase (some v) c = set_erase (parse_bool v) c

-- `applyEnvOverrides`
unfoldable pub apply_env_overrides : Environment → Config → Config
unfolding override_storage_path override_web_port override_led_backend override_min_free
    override_erase
apply_env_overrides env c =
    let c1 = override_storage_path env.storage_path c in
    let c2 = override_web_port env.web_port c1 in
    let c3 = override_led_backend env.led_backend c2 in
    let c4 = override_min_free env.min_free_mb c3 in override_erase env.erase_after_sync c4

-- A file: it is not there, cannot be read, or holds bytes.
pub data ConfigFile : Type 0 where
  missing unreadable : ConfigFile
  holding : List ℕ → ConfigFile

-- The TOML decoder: whether a text is TOML, and the configuration it makes of another.
module _ (is_toml : List ℕ → Bool) (unmarshal : List ℕ → Config → Option Config) where
  -- `loadFile`; `none` is an error.
  unfoldable pub load_file : ConfigFile → Option Config
  unfolding default_config
  load_file missing = none
  load_file unreadable = none
  load_file (holding data_bytes) =
      if is_toml data_bytes then unmarshal data_bytes default_config else none

  unfoldable pub loaded_or : Option Config → Config → Config
  loaded_or none rest = rest
  loaded_or (some c) rest = c

  -- The loop over the candidates; a file that is not there is passed over like one that is refused.
  unfoldable pub first_loaded : List ConfigFile → Config
  unfolding load_file loaded_or default_config
  first_loaded [] = default_config
  first_loaded (f ∷ fs) = loaded_or (load_file f) (first_loaded fs)

  unfoldable pub candidates : Option ConfigFile → ConfigFile → ConfigFile → List ConfigFile
  candidates none system local = system ∷ local ∷ []
  candidates (some given) system local = given ∷ system ∷ local ∷ []

  -- `Load`; `given` is the file of a non-empty path argument, `system` and `local` are those of the two
  -- fixed paths.
  unfoldable pub load :
      (given : Option ConfigFile) → (system local : ConfigFile) → Environment → Config
  unfolding first_loaded candidates apply_env_overrides
  load given system local env =
      apply_env_overrides env (first_loaded (candidates given system local))
