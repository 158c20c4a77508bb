-- ===== src/Leds/Order.antt =====
-- stairway/stairway_leds.c: the time stamps of stairway_leds_set_state.
use pico_stairway_controller.Base.{
  ℕ, ◌<◌, ◌≤◌, ◌≡◌, ◌≢◌, ◌⊎◌, ◌∙◌, ap, inl, inr, refl, arith, Bool, List, [], ◌∷◌, ◌++◌, get_or,
  length, length-set, get_or-set_self, get_or-set_ne, Bool-cases, ◌==◌, ==_iff,
}
use pico_stairway_controller.Leds.{LedState, Leds, dark, apply_event, set_state}

pub apply_event_comm :
    (a b : Bool) (t u : ℕ) (led : LedState)
    → t ≢ u
    → apply_event b u (apply_event a t led) ≡ apply_event a t (apply_event b u led)
unfolding apply_event
apply_event_comm a b t u led ne = ground arith

apply_event-newer :
    (b : Bool) (t : ℕ) (led : LedState)
    → led.ts < t
    → apply_event b t led ≡ record led { state = b; ts = t }
unfolding apply_event
apply_event-newer b t led h = ground arith

apply_event-older : (b : Bool) (t : ℕ) (led : LedState) → t ≤ led.ts → apply_event b t led ≡ led
unfolding apply_event
apply_event-older b t led h = ground arith

apply_event-ts-lt :
    (b : Bool) (t u : ℕ) (led : LedState) → led.ts < u → t < u → (apply_event b t led).ts < u
unfolding apply_event
apply_event-ts-lt b t u led h k = ground arith

pub record Event : Type 0 where
  pub index : ℕ
  pub state : Bool
  pub ts : ℕ

-- A sequence of calls of stairway_leds_set_state.
unfoldable pub set_states : List Event → Leds → Leds
set_states [] l = l
set_states (e ∷ es) l = set_states es (set_state e.index e.state e.ts l).0

abbrev led_at : Leds → ℕ → LedState
led_at l i = get_or l.buf i dark

abbrev pub IsInRange : Leds → ℕ → Type 0
IsInRange l i = (i < l.handler.led_count) × (i < length l.buf)

set_state-IsInRange :
    (i j t : ℕ) (b : Bool) (l : Leds) → IsInRange l j → IsInRange (set_state i b t l).0 j
unfolding set_state
set_state-IsInRange i j t b l h = ground (arith, length-set l.buf i (apply_event b t (led_at l i)))

set_state-led_at_self :
    (i t : ℕ) (b : Bool) (l : Leds)
    → IsInRange l i
    → led_at (set_state i b t l).0 i ≡ apply_event b t (led_at l i)
unfolding set_state
set_state-led_at_self i t b l h =
    ground (arith, get_or-set_self l.buf i (apply_event b t (led_at l i)) dark h.1)

pub set_state-led_at_ne :
    (i j t : ℕ) (b : Bool) (l : Leds) → i ≢ j → led_at (set_state i b t l).0 j ≡ led_at l j
unfolding set_state
set_state-led_at_ne i j t b l ne =
    ground (arith, get_or-set_ne l.buf i j (apply_event b t (led_at l i)) dark ne)

-- Every event of the list is for another LED than `i`, or older than `t`.
abbrev pub AllOlder : ℕ → ℕ → List Event → Type 0
AllOlder i t [] = Unit
AllOlder i t (e ∷ es) = ((e.index ≢ i) ⊎ (e.ts < t)) × AllOlder i t es

set_states-IsInRange :
    (es : List Event) (i : ℕ) (l : Leds) → IsInRange l i → IsInRange (set_states es l) i
unfolding set_states
set_states-IsInRange [] i l h = h
set_states-IsInRange (e ∷ es) i l h =
    set_states-IsInRange es i (set_state e.index e.state e.ts l).0
      (set_state-IsInRange e.index i e.ts e.state l h)

-- One step of the two inductions below.
set_state-ts-lt :
    (e : Event) (i t : ℕ) (l : Leds)
    → IsInRange l i
    → (e.index ≢ i) ⊎ (e.ts < t)
    → (led_at l i).ts < t
    → (led_at (set_state e.index e.state e.ts l).0 i).ts < t
set_state-ts-lt e i t l r o h = elim (Bool-cases (e.index == i)) [
  | inr other ↦ rw (set_state-led_at_ne e.index i e.ts e.state l (λ same. ground arith)) h
  | inl same ↦
      let eq : e.index ≡ i = (==_iff e.index i).0 same in
      rw (eq, set_state-led_at_self i e.ts e.state l r)
        (apply_event-ts-lt e.state e.ts t (led_at l i) h (ground arith))
]

set_states-ts-lt :
    (es : List Event) (i t : ℕ) (l : Leds)
    → IsInRange l i
    → AllOlder i t es
    → (led_at l i).ts < t
    → (led_at (set_states es l) i).ts < t
unfolding set_states
set_states-ts-lt [] i t l r o h = h
set_states-ts-lt (e ∷ es) i t l r o h =
    set_states-ts-lt es i t (set_state e.index e.state e.ts l).0
      (set_state-IsInRange e.index i e.ts e.state l r) o.1 (set_state-ts-lt e i t l r o.0 h)

set_state-keeps :
    (e : Event) (i t : ℕ) (l : Leds)
    → IsInRange l i
    → (e.index ≢ i) ⊎ (e.ts < t)
    → (led_at l i).ts ≡ t
    → led_at (set_state e.index e.state e.ts l).0 i ≡ led_at l i
set_state-keeps e i t l r o h = elim (Bool-cases (e.index == i)) [
  | inr other ↦ set_state-led_at_ne e.index i e.ts e.state l (λ same. ground arith)
  | inl same ↦
      let eq : e.index ≡ i = (==_iff e.index i).0 same in
      rw (eq, set_state-led_at_self i e.ts e.state l r)
        (apply_event-older e.state e.ts (led_at l i) (ground arith))
]

set_states-keeps :
    (es : List Event) (i t : ℕ) (l : Leds)
    → IsInRange l i
    → AllOlder i t es
    → (led_at l i).ts ≡ t
    → led_at (set_states es l) i ≡ led_at l i
unfolding set_states
set_states-keeps [] i t l r o h = refl
set_states-keeps (e ∷ es) i t l r o h =
    let same = set_state-keeps e i t l r o.0 h in
    set_states-keeps es i t (set_state e.index e.state e.ts l).0
      (set_state-IsInRange e.index i e.ts e.state l r) o.1 (ap (λ (d : LedState). d.ts) same ∙ h)
    ∙ same

set_states-append :
    (xs ys : List Event) (l : Leds) → set_states (xs ++ ys) l ≡ set_states ys (set_states xs l)
unfolding set_states
set_states-append [] ys l = refl
set_states-append (x ∷ xs) ys l = set_states-append xs ys (set_state x.index x.state x.ts l).0

-- However the calls are ordered, an LED of the strip ends in the state and with the stamp of its
-- newest event, if that event is newer than the LED's stamp before them.
pub set_states-newest :
    (xs ys : List Event) (e : Event) (l : Leds)
    → IsInRange l e.index
    → AllOlder e.index e.ts xs
    → AllOlder e.index e.ts ys
    → (led_at l e.index).ts < e.ts
    → ((led_at (set_states (xs ++ e ∷ ys) l) e.index).state ≡ e.state)
      × ((led_at (set_states (xs ++ e ∷ ys) l) e.index).ts ≡ e.ts)
unfolding set_states
set_states-newest xs ys e l r ox oy h =
    rw (set_states-append xs (e ∷ ys) l)
      (ground (arith, applied, set_states-keeps ys e.index e.ts after r'' oy))
  where
    before : Leds
    before = set_states xs l

    after : Leds
    after = (set_state e.index e.state e.ts before).0

    r' : IsInRange before e.index
    r' = set_states-IsInRange xs e.index l r

    r'' : IsInRange after e.index
    r'' = set_state-IsInRange e.index e.index e.ts e.state before r'

    applied :
        led_at after e.index
        ≡ record { led_value = (led_at before e.index).led_value; state = e.state; ts = e.ts }
    applied =
        set_state-led_at_self e.index e.ts e.state before r'
        ∙ apply_event-newer e.state e.ts (led_at before e.index)
            (set_states-ts-lt xs e.index e.ts l r ox h)
