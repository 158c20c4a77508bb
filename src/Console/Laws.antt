-- ===== src/Console/Laws.antt =====
-- cli/cli.c and commands/commands.c: the bindings of the commands, and the settings behind them.
use mathlib.Core.Path.{subst}
use mathlib.Core.List.{append-nil, append_assoc}
use pico_stairway_controller.Base.{
  ℕ, suc, ◌+◌, ◌<◌, ◌≤◌, ◌≡◌, ◌≢◌, ◌∙◌, ap, sym, refl, arith, if◌then◌else◌, Bool, true, false,
  List, [], ◌∷◌, ◌++◌, Option, none, some, length, ◌!=◌,
}
use pico_stairway_controller.Types.{ErrCode, Settings, Status}
use pico_stairway_controller.Json.{Result, ok, error}
use pico_stairway_controller.Settings.{Platform, Memory, FlashRun, settings_write, stamped}
use pico_stairway_controller.Settings.Check.{IsConsistent}
use pico_stairway_controller.Settings.Flash.{stamped-IsConsistent, write_page-global}
use pico_stairway_controller.Http.Content.Actions.{
  AllOrNone-IsConsistent, settings_default-IsConsistent,
}
use pico_stairway_controller.Commands.{
  setting_commands, set_default, set_wifi_state, write_wifi, report_wifi,
}
use pico_stairway_controller.Commands.Laws.{set_setting-AllOrNone}
use pico_stairway_controller.Console.{
  Command, call_get_status, call_set_default, call_set_wifi_state, call_set_setting, Binding,
  Editor, cli_init, cli_add_command, add_commands, setting_bindings, commands_init, and_then,
  Target, execute, execute_all, status_binding, default_binding, wifi_binding,
}

-- The documented behaviour of the editor: the bindings in the order they were added, and how many
-- more fit; a new one has room for as many as it is asked for.
pub record HasRoom (e : Editor) : Type 0 where
  pub bound : e.Cli → List Binding
  pub room : e.Cli → ℕ
  pub new_room : (n : ℕ) (cli : e.Cli) → e.new n ≡ some cli → (room cli ≡ n) × (bound cli ≡ [])
  pub adds :
      (b : Binding) (cli : e.Cli)
      → 0 < room cli
      → ((e.add_binding b cli).0 ≡ true)
        × (bound (e.add_binding b cli).1 ≡ bound cli ++ b ∷ [])
        × (room cli ≡ suc (room (e.add_binding b cli).1))

module _ (e : Editor) (law : HasRoom e) where
  -- The console is initialised, with these bindings.
  abbrev pub IsBound : List Binding → ErrCode × Option e.Cli → Type 0
  IsBound bs (err, none) = ⊥
  IsBound bs (err, some cli) = (err ≡ ErrCode.success) × (law.bound cli ≡ bs)

  after_add :
      (added : Bool) (cli : e.Cli) (bs all : List Binding)
      → added ≡ true
      → IsBound (all ++ bs) (add_commands e bs (some cli))
      → IsBound (all ++ bs) (
          and_then e
            ((if added then ErrCode.success else ErrCode.overflow), some cli)
            (add_commands e bs))
  after_add true cli bs all yes_added h = h
  after_add false cli bs all yes_added h = absurd (ground arith)

  add_commands-IsBound :
      (bs done : List Binding) (cli : e.Cli)
      → law.bound cli ≡ done
      → length bs ≤ law.room cli
      → IsBound (done ++ bs) (add_commands e bs (some cli))
  unfolding add_commands cli_add_command
  add_commands-IsBound [] done cli same fits = (refl, same ∙ sym (append-nil done))
  add_commands-IsBound (b ∷ bs) done cli same fits =
      let (added, more, less) = law.adds b cli (omega arith) in
      subst (λ t. IsBound t (add_commands e (b ∷ bs) (some cli))) (append_assoc done (b ∷ []) bs)
        (after_add (e.add_binding b cli).0 (e.add_binding b cli).1 bs (done ++ b ∷ []) added (
          add_commands-IsBound bs (done ++ b ∷ []) (e.add_binding b cli).1
            (more ∙ ap (λ t. t ++ b ∷ []) same) (omega (arith, less))))

  after_new :
      (new_cli : Option e.Cli) (bs : List Binding)
      → new_cli ≢ none
      → ((cli : e.Cli) → new_cli ≡ some cli → (law.bound cli ≡ []) × (length bs ≤ law.room cli))
      → IsBound bs (
          and_then e
            (elim new_cli [
              | none ↦ (ErrCode.mem_alloc_fail, none)
              | some cli ↦ (ErrCode.success, some cli)
            ])
            (add_commands e bs))
  after_new none bs made h = absurd (made refl)
  after_new (some cli) bs made h =
      let (empty, fits) = h cli refl in add_commands-IsBound bs [] cli empty fits

  -- If the editor gets its memory, commands_init succeeds and leaves every command bound, with each
  -- setting of the table.
  pub commands_init_lem :
      (cli : Option e.Cli)
      → e.new (length setting_commands + 3) ≢ none
      → IsBound
          (status_binding
            ∷ (default_binding ∷ (wifi_binding ∷ setting_bindings e setting_commands)))
          (commands_init e cli)
  unfolding commands_init cli_init
  commands_init_lem cli made =
      after_new (e.new (length setting_commands + 3)) _ made (λ new_cli is_new.
        let (room, empty) = law.new_room (length setting_commands + 3) new_cli is_new in
        (empty, omega (arith, room)))

-- Changing the state of the access point keeps settings consistent.
ap_state-IsConsistent :
    (s : Settings) (on : Bool) → IsConsistent s → IsConsistent (record s { ap_state = on })
ap_state-IsConsistent s on c = record {
  leds = c.leds;
  emergency_fits = c.emergency_fits;
  steps = c.steps;
  light = c.light;
  ssid_len = c.ssid_len;
  pass_len = c.pass_len;
}

module _ (p : Platform) where
  -- Writing consistent settings with another state of the access point.
  pub write_ap_state-IsConsistent :
      (run : FlashRun p) (on : Bool) (m : Memory p)
      → IsConsistent m.global
      → IsConsistent
          (settings_write p run
            (record m { global = record (m.global) { ap_state = on } })).1.global
  unfolding settings_write
  write_ap_state-IsConsistent run on m c =
      let s = record (m.global) { ap_state = on } in
      subst IsConsistent (sym (write_page-global p run (stamped p s) m.flash))
        (stamped-IsConsistent p s (ap_state-IsConsistent m.global on c))

  report_wifi-memory : (x : ErrCode × Memory p) → (report_wifi p x).1 ≡ x.1
  report_wifi-memory (ErrCode.success, m) = refl
  report_wifi-memory (_, m) = refl

  write_wifi-IsConsistent :
      (run : FlashRun p) (m : Memory p) (val : Result ℕ)
      → IsConsistent m.global
      → IsConsistent (write_wifi p run m val).1.global
  write_wifi-IsConsistent run m (error e) c = c
  write_wifi-IsConsistent run m (ok val) c =
      subst (λ (t : Memory p). IsConsistent t.global) (sym (report_wifi-memory _))
        (write_ap_state-IsConsistent run (val != 0) m c)

  execute-IsConsistent :
      (run : FlashRun p) (now : ℕ) (started : Bool) (st : Status) (call : Command × List (List ℕ))
      (t : Target p)
      → IsConsistent t.memory.global
      → IsConsistent (execute p run now started st call t).memory.global
  unfolding execute set_default set_wifi_state
  execute-IsConsistent run now started st (call_get_status, args) t c = c
  execute-IsConsistent run now started st (call_set_default, args) t c =
      settings_default-IsConsistent p run now true t.memory t.reboot_ts
  execute-IsConsistent run now started st (call_set_wifi_state, args) t c =
      write_wifi-IsConsistent run t.memory _ c
  execute-IsConsistent run now started st (call_set_setting cmd, args) t c =
      AllOrNone-IsConsistent p t.memory _ c (set_setting-AllOrNone p run cmd args t.memory)

  -- Whatever is typed, consistent settings stay consistent.
  pub execute_all-IsConsistent :
      (run : FlashRun p) (now : ℕ) (started : Bool) (st : Status)
      (calls : List (Command × List (List ℕ))) (t : Target p)
      → IsConsistent t.memory.global
      → IsConsistent (execute_all p run now started st calls t).memory.global
  unfolding execute_all
  execute_all-IsConsistent run now started st [] t c = c
  execute_all-IsConsistent run now started st (call ∷ rest) t c =
      execute_all-IsConsistent run now started st rest (execute p run now started st call t)
        (execute-IsConsistent run now started st call t c)
