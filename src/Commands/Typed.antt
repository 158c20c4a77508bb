-- ===== src/Commands/Typed.antt =====
-- commands/commands.c: the types of the C struct, and the commands that set a value.
use mathlib.Core.Path.{subst}
use pico_stairway_controller.Base.{
  sym, ◌⊎◌, ℕ, zero, suc, ◌≤◌, ◌≡◌, refl, arith, leb, ◌!=◌, not, true, List, [], ◌∷◌, some, length,
  Bool-cases, inl, inr,
}
use pico_stairway_controller.Types.{Settings}
use pico_stairway_controller.Json.{Result, ok, error, ◌>>=◌}
use pico_stairway_controller.Numbers.{strtoul, starts_number, is_end, parse_uint}
use pico_stairway_controller.Settings.{
  Platform, Memory, FlashRun, settings_apply, settings_validate, is_success,
}
use pico_stairway_controller.Settings.Flash.{IsFaithful, IsStruct, AllBytes}
use pico_stairway_controller.Body.{Field, number, flag, text, settings_map}
use pico_stairway_controller.Body.Typed.{KeepsStruct, AllKeepStruct, settings_map-AllKeepStruct}
use pico_stairway_controller.Body.Typed.Values.{IsBelow, guard-IsBelow, IsTyped}
use pico_stairway_controller.Body.Typed.Whole.{settings_apply-IsStruct}
use pico_stairway_controller.Commands.{
  SettingCommand, setting_commands, only_token, parse_argument, apply_setting, set_setting,
}
use pico_stairway_controller.Commands.Laws.{report_setting_lem}

parse_uint-IsBelow : (str : List ℕ) (max : ℕ) → IsBelow max (parse_uint str max)
unfolding parse_uint
parse_uint-IsBelow str max =
    guard-IsBelow max (strtoul str).0 (not (starts_number str)) (not (is_end (strtoul str).1)) _
      refl

bind-IsTyped :
    (max : ℕ) (write : ℕ → Settings) (r : Result ℕ)
    → IsBelow max r
    → ((v : ℕ) → v ≤ max → IsStruct (write v))
    → IsTyped (r >>= λ v. ok (write v))
bind-IsTyped max write (ok v) below keeps = keeps v below
bind-IsTyped max write (error e) below keeps = tt

parse_argument-IsTyped :
    (field : Field) (s : Settings) (arg : List ℕ)
    → KeepsStruct field
    → AllBytes arg
    → IsStruct s
    → IsTyped (parse_argument field s arg)
unfolding parse_argument
parse_argument-IsTyped (number max read write) s arg keeps bytes i =
    bind-IsTyped max (λ v. write v s) (parse_uint arg max) (parse_uint-IsBelow arg max)
      (λ v le. keeps v s le i)
parse_argument-IsTyped (flag read write) s arg keeps bytes i =
    bind-IsTyped 1 (λ v. write (v != 0) s) (parse_uint arg 1) (parse_uint-IsBelow arg 1)
      (λ v le. keeps (v != 0) s i)
parse_argument-IsTyped (text size secret read write) s arg keeps bytes i =
    elim (Bool-cases (leb size (length arg))) [
      | inl long ↦ rw long tt
      | inr short ↦ rw short (keeps.1 arg s (ground arith) bytes i)
    ]

abbrev pub AllArgs : List (List ℕ) → Type 0
AllArgs [] = Unit
AllArgs (arg ∷ rest) = AllBytes arg × AllArgs rest

arguments-IsTyped :
    (field : Field) (s : Settings) (args : List (List ℕ))
    → KeepsStruct field
    → AllArgs args
    → IsStruct s
    → IsTyped (only_token args >>= parse_argument field s)
arguments-IsTyped field s [] keeps bytes i = tt
arguments-IsTyped field s (arg ∷ []) keeps bytes i =
    parse_argument-IsTyped field s arg keeps bytes.0 i
arguments-IsTyped field s (arg ∷ (more ∷ rest)) keeps bytes i = tt

-- The command is one of the table's.
abbrev pub IsOneOf : SettingCommand → List SettingCommand → Type 0
IsOneOf cmd [] = ⊥
IsOneOf cmd (c ∷ rest) = (cmd ≡ c) ⊎ IsOneOf cmd rest

field_at : ℕ → List (List ℕ × Field) → Field → Field
field_at n [] other = other
field_at zero ((name, field) ∷ rest) other = field
field_at (suc n) ((name, field) ∷ rest) other = field_at n rest other

-- The entries of the other table.
entry-KeepsStruct :
    (n : ℕ) (es : List (List ℕ × Field)) (other : Field)
    → AllKeepStruct es
    → KeepsStruct other
    → KeepsStruct (field_at n es other)
unfolding field_at
entry-KeepsStruct n [] other all keeps = keeps
entry-KeepsStruct zero ((name, field) ∷ rest) other all keeps = all.0
entry-KeepsStruct (suc n) ((name, field) ∷ rest) other all keeps =
    entry-KeepsStruct n rest other all.1 keeps

abbrev no_change : Field
no_change = flag (λ s. true) (λ v s. s)

abbrev AllCommandsKeep : List SettingCommand → Type 0
AllCommandsKeep [] = Unit
AllCommandsKeep (cmd ∷ rest) = KeepsStruct cmd.field × AllCommandsKeep rest

setting_commands-keep : AllCommandsKeep setting_commands
unfolding field_at
setting_commands-keep =
    let entry : (n : ℕ) → KeepsStruct (field_at n settings_map no_change) =
      λ n. entry-KeepsStruct n settings_map no_change settings_map-AllKeepStruct (λ v s i. i) in
    (
      entry 0,
      (
        entry 1,
        (
          entry 2,
          (
            entry 6,
            (
              entry 7,
              (
                entry 3,
                (
                  entry 4,
                  (
                    entry 9,
                    (
                      entry 8,
                      (
                        entry 5,
                        (
                          entry 10,
                          (
                            entry 11,
                            (
                              entry 12,
                              (
                                entry 13,
                                (
                                  entry 14,
                                  (
                                    entry 15,
                                    (
                                      entry 16,
                                      (
                                        entry 17,
                                        (
                                          entry 20,
                                          (entry 19, (entry 18, (entry 21, (entry 22, tt)))),
                                        ),
                                      ),
                                    ),
                                  ),
                                ),
                              ),
                            ),
                          ),
                        ),
                      ),
                    ),
                  ),
                ),
              ),
            ),
          ),
        ),
      ),
    )

one_of-KeepsStruct :
    (cmd : SettingCommand) (cmds : List SettingCommand)
    → IsOneOf cmd cmds
    → AllCommandsKeep cmds
    → KeepsStruct cmd.field
one_of-KeepsStruct cmd [] one all = absurd one
one_of-KeepsStruct cmd (c ∷ rest) (inl same) all =
    subst (λ (x : SettingCommand). KeepsStruct x.field) (sym same) all.0
one_of-KeepsStruct cmd (c ∷ rest) (inr later) all = one_of-KeepsStruct cmd rest later all.1

module _ (p : Platform) (f : IsFaithful p) where
  apply_setting-IsStruct :
      (run : FlashRun p) (cmd : SettingCommand) (m : Memory p) (r : Result Settings)
      → IsTyped r
      → IsStruct m.global
      → IsStruct (apply_setting p run cmd m r).1.global
  apply_setting-IsStruct run cmd m (error e) new old = old
  apply_setting-IsStruct run cmd m (ok s) new old =
      elim (Bool-cases (is_success (settings_validate s))) [
        | inr refused ↦ rw refused old
        | inl fine ↦
            rw (fine, report_setting_lem p cmd (settings_apply p run (some s) m))
              (settings_apply-IsStruct p f run s m new old)
      ]

  -- Whatever bytes are typed behind a setting's command, no number that it sets is wider than its
  -- field and no string longer than its array: settings that are a value of the C struct stay one.
  pub set_setting-IsStruct :
      (run : FlashRun p) (cmd : SettingCommand) (args : List (List ℕ)) (m : Memory p)
      → IsOneOf cmd setting_commands
      → AllArgs args
      → IsStruct m.global
      → IsStruct (set_setting p run cmd args m).1.global
  unfolding set_setting
  set_setting-IsStruct run cmd args m one bytes i =
      let keeps = one_of-KeepsStruct cmd setting_commands one setting_commands-keep in
      apply_setting-IsStruct run cmd m (only_token args >>= parse_argument cmd.field m.global)
        (arguments-IsTyped cmd.field m.global args keeps bytes i) i
