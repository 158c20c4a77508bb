-- ===== src/Modbus/Frame.antt =====
-- modbus_master.c: the frames of the requests, and the size of send_buf.
use pico_stairway_controller.Base.{
  ℕ, zero, suc, ◌+◌, ◌-◌, ◌*◌, ◌<◌, ◌≤◌, ◌≡◌, ◌≢◌, ◌↔◌, ◌∙◌, ap, refl, sym, arith, u8, ltb, Bool,
  false, if◌then◌else◌, Option, none, some, List, [], ◌∷◌, ◌++◌, length, get_or, set, take,
  length-append,
}
use pico_stairway_controller.Types.{ErrCode, param_invalid, busy}
use pico_stairway_controller.Modbus.Crc.{crc_from, crc_chk}
use pico_stairway_controller.Modbus.Crc.Laws.{IsBytes, crc_from-lt, crc_from-append, crc_from_self}
use pico_stairway_controller.Modbus.{
  ModbusMasterRequest, Modbus, Sent, sent, corrupt, received_crc, hi8, with_crc, request_bytes,
  started, transmit, modbus_master_send,
}

take-append : (xs ys : List ℕ) → take (length xs) (xs ++ ys) ≡ xs
take-append [] ys = refl
take-append (x ∷ xs) ys = ap (λ t. x ∷ t) (take-append xs ys)

take_all : (xs : List ℕ) → take (length xs) xs ≡ xs
take_all [] = refl
take_all (x ∷ xs) = ap (λ t. x ∷ t) (take_all xs)

get_or-append : (xs ys : List ℕ) (k d : ℕ) → get_or (xs ++ ys) (length xs + k) d ≡ get_or ys k d
get_or-append [] ys k d = let e : 0 + k ≡ k = omega arith in ap (λ (i : ℕ). get_or ys i d) e
get_or-append (x ∷ xs) ys k d =
    let e : suc (length xs) + k ≡ suc (length xs + k) = omega arith in
    ap (λ (i : ℕ). get_or (x ∷ (xs ++ ys)) i d) e ∙ get_or-append xs ys k d

crc_chk_exact : (dat : List ℕ) (n : ℕ) → n < 256 → crc_chk dat n ≡ crc_from 0xffff (take n dat)
unfolding crc_chk
crc_chk_exact dat n h =
    let exact : u8 n ≡ n = omega arith in ap (λ (k : ℕ). crc_from 0xffff (take k dat)) exact

crc_chk_whole :
    (bytes : List ℕ) → length bytes < 256 → crc_chk bytes (length bytes) ≡ crc_from 0xffff bytes
crc_chk_whole bytes h = crc_chk_exact bytes (length bytes) h ∙ ap (crc_from 0xffff) (take_all bytes)

pub length-with_crc : (bytes : List ℕ) → length (with_crc bytes) ≡ length bytes + 2
unfolding with_crc
length-with_crc bytes = length-append bytes _

-- The CRC register comes to 0 over a whole frame that with_crc closes.
pub with_crc-residue :
    (bytes : List ℕ) → IsBytes bytes → length bytes < 256 → crc_from 0xffff (with_crc bytes) ≡ 0
unfolding with_crc
with_crc-residue bytes b short =
    let crc = crc_from 0xffff bytes in
    rw (crc_chk_whole bytes short) (
      crc_from-append 0xffff bytes (u8 crc ∷ hi8 crc ∷ [])
      ∙ crc_from_self crc (crc_from-lt 0xffff bytes (omega arith) b))

-- The two bytes behind a message, as decode_modbus reads them.
received_crc-append :
    (bytes : List ℕ) (lo hi n : ℕ)
    → n ≡ length bytes + 2
    → received_crc (bytes ++ lo ∷ hi ∷ []) n ≡ lo + hi * 256
received_crc-append bytes lo hi n e =
    let e0 : n - 2 ≡ length bytes + 0 = omega arith in
    let e1 : n - 1 ≡ length bytes + 1 = omega arith in
    rw (e0, e1, get_or-append bytes (lo ∷ hi ∷ []) 0 0, get_or-append bytes (lo ∷ hi ∷ []) 1 0) refl

two_bytes : (c : ℕ) → c < 65536 → u8 c + hi8 c * 256 ≡ c
two_bytes c h = omega arith

-- decode_modbus accepts the CRC of such a frame: what it computes over all but the last two bytes
-- is what it reads from them.
pub with_crc-accepted :
    (bytes : List ℕ)
    → IsBytes bytes
    → length bytes < 254
    → let frame = with_crc bytes in
      crc_chk frame (length frame - 2) ≡ received_crc frame (length frame)
unfolding with_crc
with_crc-accepted bytes b short =
    let c = crc_chk bytes (length bytes) in
    let n = length-append bytes (u8 c ∷ hi8 c ∷ []) in
    let fewer : length (bytes ++ u8 c ∷ hi8 c ∷ []) - 2 ≡ length bytes = omega arith in
    let whole = crc_chk_whole bytes (omega arith) in
    let small : c < 65536 = rw whole (crc_from-lt 0xffff bytes (omega arith) b) in
    ap (crc_chk (bytes ++ u8 c ∷ hi8 c ∷ [])) fewer
    ∙ crc_chk_exact (bytes ++ u8 c ∷ hi8 c ∷ []) (length bytes) (omega arith)
    ∙ ap (crc_from 0xffff) (take-append bytes (u8 c ∷ hi8 c ∷ []))
    ∙ sym whole
    ∙ sym (two_bytes c small)
    ∙ sym (received_crc-append bytes (u8 c) (hi8 c) (length (bytes ++ u8 c ∷ hi8 c ∷ [])) n)

request_bytes-length :
    (r : ModbusMasterRequest) (bytes : List ℕ) (n : ℕ)
    → request_bytes r ≡ some (bytes, n)
    → r.func ≢ 16
    → length bytes ≡ 6
unfolding request_bytes
request_bytes-length r bytes n e other = ground arith

send_open :
    (now : ℕ) (r : ModbusMasterRequest) (m : Modbus) (bytes : List ℕ) (n : ℕ)
    → m.busy ≡ false
    → request_bytes r ≡ some (bytes, n)
    → modbus_master_send now r m ≡ transmit now r bytes n m
unfolding modbus_master_send
send_open now r m bytes n free e =
    let branch : Option (List ℕ × ℕ) → Sent = λ o. elim o [
      | none ↦ sent (record m { send_buf = set m.send_buf 0 r.id }) param_invalid
      | some (bytes, answer_len) ↦ transmit now r bytes answer_len m
    ] in
    ap (λ (b : Bool). if b then sent m busy else branch (request_bytes r)) free ∙ ap branch e

-- Every request but one of function 16 is sent: the frame of 8 bytes is on the wire, its answer
-- is awaited with an empty buffer, and the master is busy with it.
pub modbus_master_send_lem :
    (now : ℕ) (r : ModbusMasterRequest) (m : Modbus) (bytes : List ℕ) (n : ℕ)
    → m.busy ≡ false
    → request_bytes r ≡ some (bytes, n)
    → r.func ≢ 16
    → (modbus_master_send now r m ≡ sent (started now r (with_crc bytes) n m) ErrCode.success)
      × (length (with_crc bytes) ≡ 8)
unfolding modbus_master_send
modbus_master_send_lem now r m bytes n free e other =
    let six = request_bytes-length r bytes n e other in
    let eight : length (with_crc bytes) ≡ 8 = omega (arith, length-with_crc bytes) in
    let fits : ltb 32 (length (with_crc bytes)) ≡ false = ground arith in
    (send_open now r m bytes n free e ∙ rw (fits, transmit) refl, eight)

length-take : (n : ℕ) (xs : List ℕ) → n ≤ length xs → length (take n xs) ≡ n
length-take zero xs h = refl
length-take (suc n) [] h = absurd (omega arith)
length-take (suc n) (x ∷ xs) h = ap suc (length-take n xs (omega arith))

-- The bytes of a request of function 16.
abbrev write_bytes : ModbusMasterRequest → List ℕ
write_bytes r =
    r.id
    ∷ r.func
    ∷ hi8 r.reg_addr
    ∷ u8 r.reg_addr
    ∷ hi8 r.reg_length
    ∷ u8 r.reg_length
    ∷ u8 (r.reg_length * 2)
    ∷ take (u8 (r.reg_length * 2)) r.words

write_bytes_lem :
    (r : ModbusMasterRequest) → r.func ≡ 16 → request_bytes r ≡ some (write_bytes r, 8)
unfolding request_bytes
write_bytes_lem r e = ground arith

transmit-corrupt_iff :
    (now : ℕ) (r : ModbusMasterRequest) (bytes : List ℕ) (n : ℕ) (m : Modbus)
    → (transmit now r bytes n m ≡ corrupt) ↔ (30 < length bytes)
unfolding transmit
transmit-corrupt_iff now r bytes n m =
    (λ e. ground (arith, length-with_crc bytes), λ h. ground (arith, length-with_crc bytes))

-- A request of function 16 overruns send_buf exactly if it has more than 23 bytes of data:
-- nothing in modbus_master_send tests that.
pub modbus_master_send-corrupt_iff :
    (now : ℕ) (r : ModbusMasterRequest) (m : Modbus)
    → m.busy ≡ false
    → r.func ≡ 16
    → u8 (r.reg_length * 2) ≤ length r.words
    → (modbus_master_send now r m ≡ corrupt) ↔ (23 < u8 (r.reg_length * 2))
modbus_master_send-corrupt_iff now r m free sixteen enough =
    let opened = send_open now r m (write_bytes r) 8 free (write_bytes_lem r sixteen) in
    let len = length-take (u8 (r.reg_length * 2)) r.words enough in
    let (there, back) = transmit-corrupt_iff now r (write_bytes r) 8 m in
    (λ e. (let long = there (sym opened ∙ e) in omega arith), λ h. opened ∙ back (omega arith))
