-- ===== src/Settings.antt =====
-- settings/settings.c and settings_list.h: the settings in memory and in flash.
--
-- What the compiler lays out and the flash driver does is a parameter, `Platform`: a page holds
-- the first sizeof(Settings) bytes of the flash page, and padding bytes count as zero. What an
-- erase or a programming leaves in flash is the argument `FlashRun`.
pub mod Check
pub mod Flash
pub mod Fields
use Prim.Native.Nat.{bit_xor}
use pico_stairway_controller.Base.{
  ℕ, zero, suc, ◌+◌, ◌-◌, ◌*◌, ◌/◌, ◌%◌, ◌^◌, ltb, leb, ◌==◌, ◌||◌, ◌&&◌, not, if◌then◌else◌, Bool,
  true, false, List, [], ◌∷◌, ◌++◌, Option, none, some,
}
use pico_stairway_controller.Types.{Settings, ErrCode, PerSide, PerSensor}
use pico_stairway_controller.Controller.Button.{reboot_request}

pub record Platform : Type 1 where
  pub Page : Type 0
  pub same : Page → Page → Bool  -- memcmp(...) == 0
  pub to_page : Settings → Page
  pub from_page : Page → Settings
  pub before_crc : Settings → List ℕ  -- the bytes up to offsetof(Settings, crc)
  pub sizeof_settings : ℕ

abbrev pub settings_magic : ℕ
settings_magic = 0xDEADBEED

abbrev pub settings_version : ℕ
settings_version = 2

abbrev pub ssid_max_len : ℕ
ssid_max_len = 33

abbrev pub pass_min_len : ℕ
pass_min_len = 8

abbrev pub pass_max_len : ℕ
pass_max_len = 64

abbrev pub led_count_max : ℕ
led_count_max = 1000

-- One round of the inner loop.
unfoldable pub crc_round : ℕ → ℕ
crc_round crc = bit_xor (crc / 2) (if (crc % 2) == 1 then 0xEDB88320 else 0)

pub crc_rounds : ℕ → ℕ → ℕ
crc_rounds zero crc = crc
crc_rounds (suc j) crc = crc_rounds j (crc_round crc)

pub crc_over : ℕ → List ℕ → ℕ
crc_over crc [] = crc
crc_over crc (byte ∷ rest) = crc_over (crc_rounds 8 (bit_xor crc byte)) rest

-- On the bytes before the crc; `~` of a uint32_t.
unfoldable pub settings_crc : List ℕ → ℕ
settings_crc bytes = 2 ^ 32 - 1 - crc_over 0xFFFFFFFF bytes

-- strnlen on the whole array.
unfoldable pub strnlen : List ℕ → ℕ
strnlen [] = 0
strnlen (zero ∷ rest) = 0
strnlen (suc c ∷ rest) = suc (strnlen rest)

unfoldable pub settings_validate : Settings → ErrCode
settings_validate s =
    if (s.led_count == 0) || ltb led_count_max s.led_count
    then ErrCode.param_invalid
    else if ltb s.led_count s.emergency_cnt.of_up
    then ErrCode.param_invalid
    else if ltb s.led_count s.emergency_cnt.of_down
    then ErrCode.param_invalid
    else if (s.led_on_step == 0) || (s.led_off_step == 0)
    then ErrCode.param_invalid
    else if ltb s.light_sensor_day_value s.light_sensor_night_value
    then ErrCode.param_invalid
    else if (strnlen s.ssid == 0) || leb ssid_max_len (strnlen s.ssid)
    then ErrCode.param_invalid
    else if ltb (strnlen s.pass) pass_min_len || leb pass_max_len (strnlen s.pass)
    then ErrCode.param_invalid
    else ErrCode.success

abbrev pub is_success : ErrCode → Bool
is_success ErrCode.success = true
is_success _ = false

-- The zeros that fill a char array behind its text.
unfoldable pub padding : ℕ → List ℕ
padding zero = []
padding (suc n) = 0 ∷ padding n

-- "Stairway" and "12345678".
abbrev pub default_ssid : List ℕ
default_ssid = 83 ∷ 116 ∷ 97 ∷ 105 ∷ 114 ∷ 119 ∷ 97 ∷ 121 ∷ padding 25

abbrev pub default_pass : List ℕ
default_pass = 49 ∷ 50 ∷ 51 ∷ 52 ∷ 53 ∷ 54 ∷ 55 ∷ 56 ∷ padding 56

-- Per platform, for its sizeof(Settings).
abbrev pub default_settings : Platform → Settings
default_settings p = record {
  magic = settings_magic;
  version = settings_version;
  size = p.sizeof_settings;
  use_light_sensor = true;
  light_sensor_day_value = 1400;
  light_sensor_night_value = 1000;
  dist_trigger = record {
    of_up_first = 800;
    of_up_second = 1000;
    of_down_first = 1000;
    of_down_second = 1000;
  };
  sensor_debouce_time = 2000;
  sensor_up_swap = true;
  sensor_down_swap = false;
  leds_time_interval = 400;
  leds_off_timeout = 20000;
  led_on_value = 150;
  led_off_value = 0;
  led_on_step = 25;
  led_off_step = 25;
  led_count = 18;
  use_emergency = true;
  emergency_block_ms = 1000;
  emergency_cnt = record { of_up = 2; of_down = 2 };
  ssid = default_ssid;
  pass = default_pass;
  ap_state = true;
  crc = 0;
}

module _ (p : Platform) where
  -- global_settings and the flash page.
  pub record Memory : Type 0 where
    pub global : Settings
    pub flash : p.Page

  -- What flash_safe_execute reports and leaves in flash, for the erase and for the programming.
  pub record FlashRun : Type 0 where
    pub erase_ok : Bool
    pub erased : p.Page
    pub program_ok : Bool
    pub programmed : p.Page

  unfoldable pub settings_is_valid_header : Settings → Bool
  settings_is_valid_header s =
      (s.magic == settings_magic)
      && ((s.version == settings_version)
          && ((s.size == p.sizeof_settings) && (s.crc == settings_crc (p.before_crc s))))

  -- The header that settings_write puts in front of what it writes.
  unfoldable pub stamped : Settings → Settings
  stamped s =
      let s = record s {
        magic = settings_magic;
        version = settings_version;
        size = p.sizeof_settings;
      } in
      record s { crc = settings_crc (p.before_crc s) }

  -- The part of settings_write behind the header, on the settings to be written.
  unfoldable pub write_page : FlashRun → Settings → p.Page → ErrCode × Memory
  write_page run s flash =
      if p.same flash (p.to_page s)
      then (ErrCode.success, record { global = s; flash = flash })
      else if not run.erase_ok
      then (ErrCode.fail, record { global = s; flash = run.erased })
      else if not run.program_ok
      then (ErrCode.fail, record { global = s; flash = run.programmed })
      else if not (p.same run.programmed (p.to_page s))
      then (ErrCode.fail, record { global = s; flash = run.programmed })
      else (ErrCode.success, record { global = s; flash = run.programmed })

  unfoldable pub settings_write : FlashRun → Memory → ErrCode × Memory
  settings_write run m = write_page run (stamped m.global) m.flash

  unfoldable pub settings_init : FlashRun → Memory → ErrCode × Memory
  settings_init run m =
      let s = p.from_page m.flash in
      if not (settings_is_valid_header s) || not (is_success (settings_validate s))
      then settings_write run (record m { global = default_settings p })
      else (ErrCode.success, record m { global = s })

  -- With reboot_ts, which a restart sets `now`.
  unfoldable pub settings_default : FlashRun → ℕ → Bool → Memory → ℕ → ErrCode × Memory × ℕ
  settings_default run now restart m reboot_ts =
      let (err, m') = settings_write run (record m { global = default_settings p }) in
      if not (is_success err)
      then (err, m', reboot_ts)
      else (ErrCode.success, m', (if restart then reboot_request now 1000 else reboot_ts))

  -- NULL is `none`.
  unfoldable pub settings_apply : FlashRun → Option Settings → Memory → ErrCode × Memory
  settings_apply run none m = (ErrCode.param_is_null, m)
  settings_apply run (some s) m =
      if not (is_success (settings_validate s))
      then (settings_validate s, m)
      else settings_write run (record m { global = s })
