-- ===== src/Body/Typed.antt =====
-- network/http_server/settings.c: the types of the C struct, and what a JSON body sets.
pub mod Values
pub mod Whole
use pico_stairway_controller.Base.{
  ℕ, zero, suc, ◌+◌, ◌<◌, ◌≤◌, ◌^◌, ◌≡◌, ◌∙◌, ap, refl, arith, leb, length, length-append, drop,
  List, [], ◌∷◌, ◌++◌, Bool, true, false,
}
use pico_stairway_controller.Base.Slices.{length-drop}
use pico_stairway_controller.Types.{Settings}
use pico_stairway_controller.Json.{Result, ok, error}
use pico_stairway_controller.Settings.Flash.{IsStruct, AllBytes}
use pico_stairway_controller.Settings.Fields.{numbers_fit, arrays_fit, fit-IsStruct}
use pico_stairway_controller.Body.{Field, number, flag, text, strcpy, settings_map}

-- An assignment of what the field's parser lets through leaves a value of the C struct.
abbrev pub KeepsStruct : Field → Type 0
KeepsStruct (number max read write) =
    (v : ℕ) (s : Settings) → v ≤ max → IsStruct s → IsStruct (write v s)
KeepsStruct (flag read write) = (v : Bool) (s : Settings) → IsStruct s → IsStruct (write v s)
KeepsStruct (text size secret read write) =
    (0 < size)
    × ((v : List ℕ) (s : Settings)
        → length v < size
        → AllBytes v
        → IsStruct s
        → IsStruct (write v s))

abbrev pub AllKeepStruct : List (List ℕ × Field) → Type 0
AllKeepStruct [] = Unit
AllKeepStruct ((name, field) ∷ rest) = KeepsStruct field × AllKeepStruct rest

pub AllBytes-append : (a b : List ℕ) → AllBytes a → AllBytes b → AllBytes (a ++ b)
AllBytes-append [] b ha hb = hb
AllBytes-append (x ∷ a) b ha hb = (ha.0, AllBytes-append a b ha.1 hb)

pub AllBytes-drop : (n : ℕ) (a : List ℕ) → AllBytes a → AllBytes (drop n a)
AllBytes-drop zero a h = h
AllBytes-drop (suc n) [] h = tt
AllBytes-drop (suc n) (x ∷ a) h = AllBytes-drop n a h.1

-- A string that is shorter than the array does not go past its end.
pub length-strcpy :
    (field str : List ℕ) → length str < length field → length (strcpy field str) ≡ length field
length-strcpy field str h =
    let a = length-append str (0 ∷ drop (length str + 1) field) in
    let b = length-drop (length str + 1) field in omega arith

strcpy-AllBytes : (field str : List ℕ) → AllBytes field → AllBytes str → AllBytes (strcpy field str)
strcpy-AllBytes field str hf hs =
    AllBytes-append str _ hs (omega arith, AllBytes-drop (length str + 1) field hf)

pub ssid-KeepsStruct :
    (v : List ℕ) (s : Settings)
    → length v < 33
    → AllBytes v
    → IsStruct s
    → IsStruct (record s { ssid = strcpy s.ssid v })
ssid-KeepsStruct v s short bytes i =
    let a = arrays_fit s i in
    let n = numbers_fit s i in
    fit-IsStruct _ n (
      length-strcpy s.ssid v (omega (arith, a)) ∙ a.0,
      strcpy-AllBytes s.ssid v a.1 bytes,
      a.2,
      a.3,
    )

pub pass-KeepsStruct :
    (v : List ℕ) (s : Settings)
    → length v < 64
    → AllBytes v
    → IsStruct s
    → IsStruct (record s { pass = strcpy s.pass v })
pass-KeepsStruct v s short bytes i =
    let a = arrays_fit s i in
    let n = numbers_fit s i in
    fit-IsStruct _ n (
      a.0,
      a.1,
      length-strcpy s.pass v (omega (arith, a)) ∙ a.2,
      strcpy-AllBytes s.pass v a.3 bytes,
    )

-- Every entry of the table states its field's type.
pub settings_map-AllKeepStruct : AllKeepStruct settings_map
settings_map-AllKeepStruct = (
  (λ v s i. fit-IsStruct _ (numbers_fit s i) (arrays_fit s i)),
  (
    (λ v s le i. let n = numbers_fit s i in fit-IsStruct _ (omega arith) (arrays_fit s i)),
    (
      (λ v s le i. let n = numbers_fit s i in fit-IsStruct _ (omega arith) (arrays_fit s i)),
      (
        (λ v s le i. let n = numbers_fit s i in fit-IsStruct _ (omega arith) (arrays_fit s i)),
        (
          (λ v s le i. let n = numbers_fit s i in fit-IsStruct _ (omega arith) (arrays_fit s i)),
          (
            (λ v s i. fit-IsStruct _ (numbers_fit s i) (arrays_fit s i)),
            (
              (λ v s le i.
                  let n = numbers_fit s i in fit-IsStruct _ (omega arith) (arrays_fit s i)),
              (
                (λ v s le i.
                    let n = numbers_fit s i in fit-IsStruct _ (omega arith) (arrays_fit s i)),
                (
                  (λ v s i. fit-IsStruct _ (numbers_fit s i) (arrays_fit s i)),
                  (
                    (λ v s le i.
                        let n = numbers_fit s i in fit-IsStruct _ (omega arith) (arrays_fit s i)),
                    (
                      (λ v s le i.
                          let n = numbers_fit s i in fit-IsStruct _ (omega arith) (arrays_fit s i)),
                      (
                        (λ v s le i.
                            let n = numbers_fit s i in
                            fit-IsStruct _ (omega arith) (arrays_fit s i)),
                        (
                          (λ v s le i.
                              let n = numbers_fit s i in
                              fit-IsStruct _ (omega arith) (arrays_fit s i)),
                          (
                            (λ v s le i.
                                let n = numbers_fit s i in
                                fit-IsStruct _ (omega arith) (arrays_fit s i)),
                            (
                              (λ v s le i.
                                  let n = numbers_fit s i in
                                  fit-IsStruct _ (omega arith) (arrays_fit s i)),
                              (
                                (λ v s le i.
                                    let n = numbers_fit s i in
                                    fit-IsStruct _ (omega arith) (arrays_fit s i)),
                                (
                                  (λ v s le i.
                                      let n = numbers_fit s i in
                                      fit-IsStruct _ (omega arith) (arrays_fit s i)),
                                  (
                                    (λ v s i. fit-IsStruct _ (numbers_fit s i) (arrays_fit s i)),
                                    (
                                      (λ v s le i.
                                          let n = numbers_fit s i in
                                          fit-IsStruct _ (omega arith) (arrays_fit s i)),
                                      (
                                        (λ v s le i.
                                            let n = numbers_fit s i in
                                            fit-IsStruct _ (omega arith) (arrays_fit s i)),
                                        (
                                          (λ v s le i.
                                              let n = numbers_fit s i in
                                              fit-IsStruct _ (omega arith) (arrays_fit s i)),
                                          (
                                            (omega arith, ssid-KeepsStruct),
                                            ((omega arith, pass-KeepsStruct), tt),
                                          ),
                                        ),
                                      ),
                                    ),
                                  ),
                                ),
                              ),
                            ),
                          ),
                        ),
                      ),
                    ),
                  ),
                ),
              ),
            ),
          ),
        ),
      ),
    ),
  ),
)
