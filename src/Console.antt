-- ===== src/Console.antt =====
-- cli/cli.c and commands_init of commands/commands.c: the console with its commands.
--
-- The line editor embedded_cli.h is another project's code: the record Editor has its calls, and
-- Console.Laws.HasRoom what its documentation says of the number of bindings.
pub mod Laws
use pico_stairway_controller.Base.{
  ℕ, suc, ◌+◌, if◌then◌else◌, Bool, true, false, List, [], ◌∷◌, ◌++◌, Option, none, some, length,
  codes,
}
use pico_stairway_controller.Types.{ErrCode, Settings, Status}
use pico_stairway_controller.Settings.{Platform, Memory, FlashRun}
use pico_stairway_controller.Commands.{
  SettingCommand, setting_commands, set_setting, set_default, set_wifi_state,
}
use pico_stairway_controller.Commands.Report.{get_status}

-- What a command's binding calls, with its context.
pub data Command : Type 0 where
  call_get_status call_set_default call_set_wifi_state : Command
  call_set_setting : SettingCommand → Command

pub record Binding : Type 0 where
  pub cmd_token : List ℕ
  pub command : Command

-- embeddedCliNew, embeddedCliAddBinding, embeddedCliReceiveChar, and embeddedCliProcess with the
-- calls that it makes, each with its tokens.
pub record Editor : Type 1 where
  pub Cli : Type 0
  pub new : ℕ → Option Cli
  pub add_binding : Binding → Cli → Bool × Cli
  pub receive_char : ℕ → Cli → Cli
  pub process : Cli → Cli × List (Command × List (List ℕ))

abbrev pub status_binding : Binding
status_binding = record { cmd_token = codes "status"; command = call_get_status }

abbrev pub default_binding : Binding
default_binding = record { cmd_token = codes "default"; command = call_set_default }

abbrev pub wifi_binding : Binding
wifi_binding = record { cmd_token = codes "wifi"; command = call_set_wifi_state }

abbrev pub setting_binding : SettingCommand → Binding
setting_binding cmd = record { cmd_token = cmd.name; command = call_set_setting cmd }

module _ (e : Editor) where
  unfoldable pub cli_init : ℕ → Option e.Cli → ErrCode × Option e.Cli
  cli_init cmd_count cli = elim (e.new cmd_count) [
    | none ↦ (ErrCode.mem_alloc_fail, none)
    | some new_cli ↦ (ErrCode.success, some new_cli)
  ]

  unfoldable pub cli_add_command : Binding → Option e.Cli → ErrCode × Option e.Cli
  cli_add_command cmd none = (ErrCode.need_init, none)
  cli_add_command cmd (some cli) =
      let (added, cli) = e.add_binding cmd cli in
      ((if added then ErrCode.success else ErrCode.overflow), some cli)

  -- RETURN_IF_ERROR.
  abbrev pub and_then :
      ErrCode × Option e.Cli → (Option e.Cli → ErrCode × Option e.Cli) → ErrCode × Option e.Cli
  and_then (ErrCode.success, cli) next = next cli
  and_then (err, cli) next = (err, cli)

  -- cli_add_command, one after the other.
  unfoldable pub add_commands : List Binding → Option e.Cli → ErrCode × Option e.Cli
  add_commands [] cli = (ErrCode.success, cli)
  add_commands (cmd ∷ rest) cli = and_then (cli_add_command cmd cli) (add_commands rest)

  abbrev pub setting_bindings : List SettingCommand → List Binding
  setting_bindings [] = []
  setting_bindings (cmd ∷ rest) = setting_binding cmd ∷ setting_bindings rest

  unfoldable pub commands_init : Option e.Cli → ErrCode × Option e.Cli
  commands_init cli = and_then (cli_init (length setting_commands + 3) cli) (
      add_commands
        (status_binding ∷ (default_binding ∷ (wifi_binding ∷ setting_bindings setting_commands))))

  -- The calls that a character leads to; the error is ERR_NEED_INIT.
  unfoldable pub cli_putchar :
      ℕ → Option e.Cli → ErrCode × Option e.Cli × List (Command × List (List ℕ))
  cli_putchar ch none = (ErrCode.need_init, none, [])
  cli_putchar ch (some cli) =
      let (cli, calls) = e.process (e.receive_char ch cli) in (ErrCode.success, some cli, calls)

-- What the commands change: the settings with their flash, and reboot_ts; and the text printed so
-- far.
pub record Target (p : Platform) : Type 0 where
  pub memory : Memory p
  pub reboot_ts : ℕ
  pub printed : List ℕ

module _ (p : Platform) where
  abbrev pub with_output : Target p → List ℕ × Memory p → Target p
  with_output t (out, m) = record t { memory = m; printed = t.printed ++ out }

  -- `started` is net_ap_get_state(); `now` is read by reboot_request.
  unfoldable pub execute :
      FlashRun p → ℕ → Bool → Status → Command × List (List ℕ) → Target p → Target p
  execute run now started st (call_get_status, args) t = record t {
    printed = t.printed ++ get_status started t.memory.global st;
  }
  execute run now started st (call_set_default, args) t =
      let (out, m, reboot_ts) = set_default p run now t.memory t.reboot_ts in
      record t { memory = m; reboot_ts = reboot_ts; printed = t.printed ++ out }
  execute run now started st (call_set_wifi_state, args) t =
      with_output t (set_wifi_state p run args t.memory)
  execute run now started st (call_set_setting cmd, args) t =
      with_output t (set_setting p run cmd args t.memory)

  unfoldable pub execute_all :
      FlashRun p → ℕ → Bool → Status → List (Command × List (List ℕ)) → Target p → Target p
  execute_all run now started st [] t = t
  execute_all run now started st (call ∷ rest) t =
      execute_all run now started st rest (execute run now started st call t)
