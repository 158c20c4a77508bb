-- ===== src/Firmware/Start.antt =====
-- main.c: the start-up of the whole program, and its iterations.
use mathlib.Core.Path.{subst}
use pico_stairway_controller.Base.{
  ◌^◌, ◌*◌, u32, ℕ, ◌<◌, ◌≡◌, ap, sym, arith, leb, true, false, List, ◌++◌, some, length,
  length-replicate, replicate, c_string,
}
use pico_stairway_controller.Types.{Settings, ErrCode, success}
use pico_stairway_controller.Settings.{settings_init}
use pico_stairway_controller.Settings.Flash.{settings_init-IsConsistent}
use pico_stairway_controller.Ws2812.{Ws2812}
use pico_stairway_controller.Ws2812
use pico_stairway_controller.Ws2812.Laws.{clear_lem}
use pico_stairway_controller.Leds
use pico_stairway_controller.Leds.{Leds}
use pico_stairway_controller.Leds.Invariant.{IsWf}
use pico_stairway_controller.Http.Connection.Open.{IsLive}
use pico_stairway_controller.Network.{start_up}
use pico_stairway_controller.Network.Laws.{IsSteady}
use pico_stairway_controller.Network.Steps.{init-IsSteady}
use pico_stairway_controller.Firmware.{Ground, Firmware, Inputs, main_loop, Granted, main_start}
use pico_stairway_controller.Firmware.Healthy.{IsHealthy, AllGiven, loop-IsHealthy}

ws2812_init_lem :
    (gpios pin n : ℕ) (h : Ws2812)
    → pin < gpios
    → Ws2812.init gpios true true pin n h ≡ (
      record {
        pin = pin;
        led_count = n;
        mem = some (replicate n 0);
        mem_size = u32 (n * 4);
        wire = h.wire ++ replicate n 0;
      },
      success,
    )
unfolding Ws2812.init
ws2812_init_lem gpios pin n h inside =
    let has_pin : leb gpios pin ≡ false = ground arith in
    let h' : Ws2812 = record h { pin = pin; led_count = n; mem_size = u32 (n * 4) } in
    rw has_pin
      (ap (λ (t : Ws2812). (t, success)) (clear_lem h' (replicate n 0) (length-replicate n 0)))

-- Leds.init after the strip's driver.
abbrev with_handler : Settings → Leds → Ws2812 × ErrCode → Leds × ErrCode
with_handler s l (h, success) =
    (record l { handler = h; buf = replicate s.led_count Leds.dark }, success)
with_handler s l (h, err) = (record l { handler = h }, err)

-- With a pin, a state machine and memory, the strip gets buffers of the length in the settings.
init-IsWf :
    (gpios pin : ℕ) (s : Settings) (l : Leds)
    → pin < gpios
    → IsWf (Leds.init gpios true true true s pin l).0
unfolding Leds.init
init-IsWf gpios pin s l inside =
    subst (λ r. IsWf (with_handler s l r).0)
      (sym (ws2812_init_lem gpios pin s.led_count l.handler inside))
      (length-replicate s.led_count 0, length-replicate s.led_count Leds.dark)

module _ (g : Ground) where
  -- The strip and the server get what they ask for.
  pub record IsGranted (a : Granted g) : Type 0 where
    pub has_pin : 3 < a.gpios
    pub has_machine : a.claimed ≡ true
    pub has_words : a.strip_allocated ≡ true
    pub has_leds : a.leds_allocated ≡ true

  start-IsHealthy :
      (a : Granted g) (f : Firmware g)
      → IsGranted a
      → IsSteady g.services f.network
      → IsLive f.con f.con_heap
      → IsHealthy g (main_start g a f)
  unfolding main_start start_up
  start-IsHealthy a f granted steady live =
      let m = (settings_init g.platform a.run f.memory).1 in
      record {
        consistent = settings_init-IsConsistent g.platform a.run f.memory;
        steady =
            init-IsSteady g.services a.server_allocated a.tcp (c_string m.global.ssid)
              (c_string m.global.pass) f.network steady;
        live = live;
        strip =
            rw (granted.has_machine, granted.has_words, granted.has_leds)
              (init-IsWf a.gpios 3 m.global f.controller.leds granted.has_pin);
      }

  -- From the start-up on, where the strip gets its pin and its memory, for a page of less than
  -- 2 ^ 31 bytes: whatever the flash held, whatever the clients of the web server, the console, the
  -- button and the sensors do, and in whatever order, after any number of iterations the settings
  -- are consistent, the access point and a connection own what they have taken, and the buffers of
  -- the strip have the length that bounds their indices.
  pub main_loop-IsHealthy :
      (a : Granted g) (f : Firmware g) (xs : List (Inputs g))
      → length g.site.index_html < 2 ^ 31
      → IsGranted a
      → IsSteady g.services f.network
      → IsLive f.con f.con_heap
      → AllGiven g xs
      → IsHealthy g (main_loop g xs (main_start g a f))
  main_loop-IsHealthy a f xs short granted steady live given =
      loop-IsHealthy g short xs (main_start g a f) given (start-IsHealthy a f granted steady live)
