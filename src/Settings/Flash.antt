-- ===== src/Settings/Flash.antt =====
-- settings/settings.c: settings_write and settings_init, and the page in flash between them.
use pico_stairway_controller.Base.{
  ℕ, ◌^◌, ◌≤◌, ◌<◌, ◌↔◌, ◌≡◌, ◌∙◌, ap, sym, arith, refl, ◌||◌, ◌&&◌, not, if◌then◌else◌, Bool, true,
  false, List, [], ◌∷◌, some, length, ◌≢◌, ==_iff, ◌⊎◌, inl, inr,
}
use pico_stairway_controller.Types.{Settings, ErrCode}
use pico_stairway_controller.Settings.{
  Platform, Memory, FlashRun, settings_validate, settings_crc, settings_is_valid_header, stamped,
  write_page, settings_write, settings_init, settings_apply, default_settings, is_success,
}
use pico_stairway_controller.Settings.Check.{
  IsConsistent, settings_validate_iff, default_settings-accepted,
}

abbrev pub AllBytes : List ℕ → Type 0
AllBytes [] = Unit
AllBytes (b ∷ rest) = (b < 256) × AllBytes rest

-- The values that the fields of the C struct can hold.
pub record IsStruct (s : Settings) : Type 0 where
  pub magic_fits : s.magic < 2 ^ 32
  pub version_fits : s.version < 2 ^ 16
  pub size_fits : s.size < 2 ^ 16
  pub day_fits : s.light_sensor_day_value < 2 ^ 32
  pub night_fits : s.light_sensor_night_value < 2 ^ 32
  pub up_trigger_fits :
      (s.dist_trigger.of_up_first < 2 ^ 16) × (s.dist_trigger.of_up_second < 2 ^ 16)
  pub down_trigger_fits :
      (s.dist_trigger.of_down_first < 2 ^ 16) × (s.dist_trigger.of_down_second < 2 ^ 16)
  pub debounce_fits : s.sensor_debouce_time < 2 ^ 32
  pub interval_fits : s.leds_time_interval < 2 ^ 32
  pub timeout_fits : s.leds_off_timeout < 2 ^ 32
  pub on_value_fits : s.led_on_value < 2 ^ 8
  pub off_value_fits : s.led_off_value < 2 ^ 8
  pub on_step_fits : s.led_on_step < 2 ^ 8
  pub off_step_fits : s.led_off_step < 2 ^ 8
  pub count_fits : s.led_count < 2 ^ 32
  pub block_fits : s.emergency_block_ms < 2 ^ 32
  pub emergency_cnt_fits : (s.emergency_cnt.of_up < 2 ^ 32) × (s.emergency_cnt.of_down < 2 ^ 32)
  pub ssid_is_array : (length s.ssid ≡ 33) × AllBytes s.ssid
  pub pass_is_array : (length s.pass ≡ 64) × AllBytes s.pass
  pub crc_fits : s.crc < 2 ^ 32

-- memcmp compares, memcpy copies, the crc is behind the bytes it is taken over, and the struct
-- fits into a flash page.
pub record IsFaithful (p : Platform) : Type 1 where
  pub same_iff : (a b : p.Page) → (p.same a b ≡ true) ↔ (a ≡ b)
  pub from_to : (s : Settings) → IsStruct s → p.from_page (p.to_page s) ≡ s
  pub crc_apart : (s : Settings) (c : ℕ) → p.before_crc (record s { crc = c }) ≡ p.before_crc s
  pub size_small : p.sizeof_settings ≤ 256

module _ (p : Platform) where
  pub write_page-global :
      (run : FlashRun p) (s : Settings) (flash : p.Page) → (write_page p run s flash).1.global ≡ s
  unfolding write_page
  write_page-global run s flash = ground arith

  write_page-stored :
      (run : FlashRun p) (s : Settings) (flash : p.Page)
      → IsFaithful p
      → (write_page p run s flash).0 ≡ ErrCode.success
      → (write_page p run s flash).1.flash ≡ p.to_page s
  unfolding write_page
  write_page-stored run s flash f ok =
      let a : _ = f.same_iff flash (p.to_page s) in
      let b : _ = f.same_iff run.programmed (p.to_page s) in ground arith

  write_page-works :
      (run : FlashRun p) (s : Settings) (flash : p.Page)
      → IsFaithful p
      → run.erase_ok ≡ true
      → run.program_ok ≡ true
      → run.programmed ≡ p.to_page s
      → (write_page p run s flash).0 ≡ ErrCode.success
  unfolding write_page
  write_page-works run s flash f erased programmed held =
      let b : _ = (f.same_iff run.programmed (p.to_page s)).1 held in ground arith

  -- settings_write reports success only if the flash holds the active settings, stamped with the
  -- header.
  pub settings_write-stored :
      (run : FlashRun p) (m : Memory p)
      → IsFaithful p
      → (settings_write p run m).0 ≡ ErrCode.success
      → ((settings_write p run m).1.global ≡ stamped p m.global)
        × ((settings_write p run m).1.flash ≡ p.to_page (stamped p m.global))
  unfolding settings_write
  settings_write-stored run m f ok = (
    write_page-global run (stamped p m.global) m.flash,
    write_page-stored run (stamped p m.global) m.flash f ok,
  )

  pub stamped-IsStruct : IsFaithful p → (s : Settings) → IsStruct s → IsStruct (stamped p s)
  unfolding stamped settings_crc
  stamped-IsStruct f s i = record {
    magic_fits = omega arith;
    version_fits = omega arith;
    size_fits = omega (arith, f.size_small);
    day_fits = i.day_fits;
    night_fits = i.night_fits;
    up_trigger_fits = i.up_trigger_fits;
    down_trigger_fits = i.down_trigger_fits;
    debounce_fits = i.debounce_fits;
    interval_fits = i.interval_fits;
    timeout_fits = i.timeout_fits;
    on_value_fits = i.on_value_fits;
    off_value_fits = i.off_value_fits;
    on_step_fits = i.on_step_fits;
    off_step_fits = i.off_step_fits;
    count_fits = i.count_fits;
    block_fits = i.block_fits;
    emergency_cnt_fits = i.emergency_cnt_fits;
    ssid_is_array = i.ssid_is_array;
    pass_is_array = i.pass_is_array;
    crc_fits = omega arith;
  }

  header_lem :
      (a b c d : Bool) → a ≡ true → b ≡ true → c ≡ true → d ≡ true → (a && (b && (c && d))) ≡ true
  header_lem a b c d ea eb ec ed = ground arith

  stamped-header : IsFaithful p → (s : Settings) → settings_is_valid_header p (stamped p s) ≡ true
  unfolding settings_is_valid_header stamped
  stamped-header f s =
      header_lem _ _ _ _ refl refl ((==_iff p.sizeof_settings p.sizeof_settings).1 refl)
        ((==_iff _ _).1 (sym (ap settings_crc (f.crc_apart _ _))))

  stamped-validate : (s : Settings) → settings_validate (stamped p s) ≡ settings_validate s
  unfolding settings_validate stamped
  stamped-validate s = refl

  pub stamped-IsConsistent : (s : Settings) → IsConsistent s → IsConsistent (stamped p s)
  stamped-IsConsistent s c =
      (settings_validate_iff (stamped p s)).0 (stamped-validate s ∙ (settings_validate_iff s).1 c)

  pub write_default :
      (run : FlashRun p) (m : Memory p)
      → IsConsistent (settings_write p run (record m { global = default_settings p })).1.global
  unfolding settings_write
  write_default run m = rw (write_page-global run (stamped p (default_settings p)) m.flash) (
      stamped-IsConsistent (default_settings p)
        ((settings_validate_iff (default_settings p)).0 (default_settings-accepted p)))

  init-branch :
      (b : Bool) (a d : ErrCode × Memory p)
      → IsConsistent a.1.global
      → (b ≡ false → IsConsistent d.1.global)
      → IsConsistent (if b then a else d).1.global
  init-branch true a d ca cd = ca
  init-branch false a d ca cd = cd refl

  valid_lem : (b : Bool) (e : ErrCode) → (not b || not (is_success e)) ≡ false → e ≡ ErrCode.success
  valid_lem b e h = ground arith

  init-open :
      (run : FlashRun p) (m : Memory p) (s : Settings)
      → p.from_page m.flash ≡ s
      → settings_is_valid_header p s ≡ true
      → settings_validate s ≡ ErrCode.success
      → settings_init p run m ≡ (ErrCode.success, record m { global = s })
  unfolding settings_init
  init-open run m s e h v = rw e (rw (h, v) refl)

  validate_cases :
      (s : Settings)
      → (settings_validate s ≡ ErrCode.success) ⊎ (settings_validate s ≡ ErrCode.param_invalid)
  unfolding settings_validate
  validate_cases s = ground arith

  apply-accepted :
      (run : FlashRun p) (s : Settings) (m : Memory p)
      → settings_validate s ≡ ErrCode.success
      → settings_apply p run (some s) m ≡ write_page p run (stamped p s) m.flash
  unfolding settings_apply settings_write
  apply-accepted run s m v = rw v refl

  apply-refused :
      (run : FlashRun p) (s : Settings) (m : Memory p)
      → settings_validate s ≡ ErrCode.param_invalid
      → settings_apply p run (some s) m ≡ (ErrCode.param_invalid, m)
  unfolding settings_apply
  apply-refused run s m v = rw v refl

  different : ErrCode.success ≢ ErrCode.param_invalid
  different e = ground arith

  accepted-if :
      (run : FlashRun p) (s : Settings) (m : Memory p)
      → (settings_apply p run (some s) m).0 ≡ ErrCode.success
      → settings_validate s ≡ ErrCode.success
  accepted-if run s m ok = elim (validate_cases s) [
    | inl v ↦ v
    | inr v ↦ absurd (different (sym ok ∙ ap (λ r. r.0) (apply-refused run s m v)))
  ]

  -- Whatever the flash holds and whatever becomes of it, after settings_init the active settings
  -- are consistent.
  pub settings_init-IsConsistent :
      (run : FlashRun p) (m : Memory p) → IsConsistent (settings_init p run m).1.global
  unfolding settings_init
  settings_init-IsConsistent run m =
      init-branch _ _ _ (write_default run m)
        (λ h. (settings_validate_iff (p.from_page m.flash)).0 (valid_lem _ _ h))

  -- Settings that fit the struct and that settings_apply reported as applied are the active ones
  -- after a restart, under the new header; settings_init then neither fails nor touches the flash.
  pub settings_apply-init :
      (run run' : FlashRun p) (s boot : Settings) (m : Memory p)
      → IsFaithful p
      → IsStruct s
      → (settings_apply p run (some s) m).0 ≡ ErrCode.success
      → let flash = (settings_apply p run (some s) m).1.flash in
        settings_init p run' (record { global = boot; flash = flash })
        ≡ (ErrCode.success, record { global = stamped p s; flash = flash })
  settings_apply-init run run' s boot m f i ok =
      let v : _ = accepted-if run s m ok in
      let e : _ = apply-accepted run s m v in
      let held : (settings_apply p run (some s) m).1.flash ≡ p.to_page (stamped p s) =
        ap (λ r. r.1.flash) e
        ∙ write_page-stored run (stamped p s) m.flash f (ap (λ r. r.0) (sym e) ∙ ok) in
      init-open run' _ (stamped p s)
        (ap p.from_page held ∙ f.from_to (stamped p s) (stamped-IsStruct f s i))
        (stamped-header f s) (stamped-validate s ∙ v)

  -- settings_apply reports inconsistent settings and changes nothing; consistent ones become the
  -- active ones, under the new header, whatever the flash does.
  pub settings_apply_lem :
      (run : FlashRun p) (s : Settings) (m : Memory p)
      → ((¬ IsConsistent s) × (settings_apply p run (some s) m ≡ (ErrCode.param_invalid, m)))
        ⊎ (IsConsistent s × ((settings_apply p run (some s) m).1.global ≡ stamped p s))
  settings_apply_lem run s m = elim (validate_cases s) [
    | inl v ↦ inr (
      (settings_validate_iff s).0 v,
      ap (λ r. r.1.global) (apply-accepted run s m v) ∙ write_page-global run (stamped p s) m.flash,
    )
    | inr v ↦
        inl ((λ c. different (sym ((settings_validate_iff s).1 c) ∙ v)), apply-refused run s m v)
  ]

  -- settings_apply succeeds on consistent settings if the flash is erased and programmed as asked.
  pub settings_apply-works :
      (run : FlashRun p) (s : Settings) (m : Memory p)
      → IsFaithful p
      → IsConsistent s
      → run.erase_ok ≡ true
      → run.program_ok ≡ true
      → run.programmed ≡ p.to_page (stamped p s)
      → (settings_apply p run (some s) m).0 ≡ ErrCode.success
  settings_apply-works run s m f c erased programmed held =
      ap (λ r. r.0) (apply-accepted run s m ((settings_validate_iff s).1 c))
      ∙ write_page-works run (stamped p s) m.flash f erased programmed held
