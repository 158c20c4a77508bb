-- ===== src/Http/Received/Bounds.antt =====
-- network/http_server/http_server.c: the offsets of a request and the length of its buffer.
use pico_stairway_controller.Base.{
  ℕ, zero, suc, ◌+◌, ◌-◌, ◌≤◌, ◌≡◌, inl, inr, arith, ltb, if◌then◌else◌, Bool, true, false, List,
  [], ◌∷◌, ◌++◌, Option, none, some, length, Bool-cases, starts_with, set, length-set,
  length-append, c_string, sub32, ltb_false→le, sub32_exact,
}
use mathlib.Core.Path.{subst}
use pico_stairway_controller.Http.Request.{get_content_length}
use pico_stairway_controller.Http.Received.{
  HttpRequest, position, crlf_crlf, lf_lf, header_end_of, header_end, later, Collected, wait,
  too_large, complete, collect_body, end_header, collect_header, accept, collect,
}

-- What is received fits the buffer, and so does the body that the header announces.
pub record IsBounded (req : HttpRequest) : Type 0 where
  pub fits : length req.data_ ≤ 2048
  pub offset_fits : req.body_offset ≤ length req.data_
  pub body_fits : req.body_offset + req.content_len ≤ 2048

-- A request that is handled has its whole body in the buffer.
abbrev pub IsCollected : Collected → Type 0
IsCollected (wait req) = IsBounded req
IsCollected too_large = Unit
IsCollected (complete req) = IsBounded req × (req.body_offset + req.content_len ≤ length req.data_)

pub starts_with-length :
    (pattern_ str : List ℕ) → starts_with pattern_ str ≡ true → length pattern_ ≤ length str
unfolding starts_with
starts_with-length [] str e = omega arith
starts_with-length (p ∷ ps) [] e = ground arith
starts_with-length (p ∷ ps) (c ∷ cs) e = ground (arith, starts_with-length ps cs)

Fits : ℕ → ℕ → Option ℕ → Type 0
Fits k n none = Unit
Fits k n (some i) = i + k ≤ n

later-Fits : (k n : ℕ) (found : Option ℕ) → Fits k n found → Fits k (suc n) (later found)
unfolding Fits
later-Fits k n none fits = tt
later-Fits k n (some i) fits = omega (arith, fits)

position-Fits :
    (str pattern_ : List ℕ) → Fits (length pattern_) (length str) (position str pattern_)
unfolding position Fits
position-Fits [] pattern_ = elim (Bool-cases (starts_with pattern_ [])) [
  | inl here ↦ rw here (omega (arith, starts_with-length pattern_ [] here))
  | inr absent ↦ rw absent tt
]
position-Fits (c ∷ cs) pattern_ = elim (Bool-cases (starts_with pattern_ (c ∷ cs))) [
  | inl here ↦ rw here (omega (arith, starts_with-length pattern_ (c ∷ cs) here))
  | inr absent ↦
      rw absent (
        later-Fits (length pattern_) (length cs) (position cs pattern_) (position-Fits cs pattern_))
]

pub length-c_string : (str : List ℕ) → length (c_string str) ≤ length str
length-c_string [] = omega arith
length-c_string (zero ∷ cs) = omega arith
length-c_string (suc c ∷ cs) = omega (arith, length-c_string cs)

-- The end of the header and the separator lie inside the data.
Inside : List ℕ → Option (ℕ × ℕ) → Type 0
Inside dat none = Unit
Inside dat (some (end, sep)) = end + sep ≤ length dat

header_end_of-Inside :
    (dat : List ℕ) (first second : Option ℕ)
    → Fits 4 (length (c_string dat)) first
    → Fits 2 (length (c_string dat)) second
    → Inside dat (header_end_of first second)
unfolding Fits Inside
header_end_of-Inside dat (some i) second f g = omega (arith, f, length-c_string dat)
header_end_of-Inside dat none (some i) f g = omega (arith, g, length-c_string dat)
header_end_of-Inside dat none none f g = tt

header_end-Inside : (dat : List ℕ) → Inside dat (header_end dat)
unfolding header_end
header_end-Inside dat =
    header_end_of-Inside dat _ _ (position-Fits (c_string dat) crlf_crlf)
      (position-Fits (c_string dat) lf_lf)

collect_body-IsCollected : (req : HttpRequest) → IsBounded req → IsCollected (collect_body req)
unfolding collect_body
collect_body-IsCollected req b =
    let remaining = sub32 (length req.data_) req.body_offset in
    let exact : remaining ≡ length req.data_ - req.body_offset =
      sub32_exact (length req.data_) req.body_offset b.offset_fits (omega (arith, b.fits)) in
    let same : _ = length-set req.data_ (req.body_offset + req.content_len) 0 in
    elim (Bool-cases (ltb remaining req.content_len)) [
      | inl short ↦ rw short b
      | inr enough ↦
          let at_least : req.content_len ≤ remaining =
            ltb_false→le remaining req.content_len enough in
          rw enough (
            record {
              fits = omega (arith, same, b.fits);
              offset_fits = omega (arith, same, b.offset_fits);
              body_fits = b.body_fits;
            },
            omega (arith, same, exact, at_least, b.offset_fits),
          )
    ]

end_header-IsCollected :
    (req : HttpRequest) (end sep : ℕ)
    → length req.data_ ≤ 2048
    → end + sep ≤ length req.data_
    → IsCollected (end_header req end sep)
unfolding end_header
end_header-IsCollected req end sep fits inside =
    let content_len = get_content_length (c_string (set req.data_ end 0)) in
    let remaining = sub32 2048 (end + sep) in
    let exact : remaining ≡ 2048 - (end + sep) =
      sub32_exact 2048 (end + sep) (omega arith) (omega arith) in
    let same : _ = length-set req.data_ end 0 in
    elim (Bool-cases (ltb remaining content_len)) [
      | inl long ↦ rw long tt
      | inr short ↦
          let at_most : content_len ≤ remaining = ltb_false→le remaining content_len short in
          rw short (
            collect_body-IsCollected _ (record {
              fits = omega (arith, same);
              offset_fits = omega (arith, same);
              body_fits = omega (arith, exact, at_most);
            }))
    ]

collect_header-IsCollected :
    (req : HttpRequest) (found : Option (ℕ × ℕ))
    → IsBounded req
    → Inside req.data_ found
    → IsCollected (collect_header req found)
unfolding Inside
collect_header-IsCollected req none b inside = b
collect_header-IsCollected req (some (end, sep)) b inside =
    end_header-IsCollected req end sep b.fits inside

one_of-IsCollected :
    (b : Bool) (x y : Collected) → IsCollected x → IsCollected y → IsCollected (if b then x else y)
one_of-IsCollected true x y cx cy = cx
one_of-IsCollected false x y cx cy = cy

accept-IsCollected : (req : HttpRequest) → IsBounded req → IsCollected (accept req)
unfolding accept
accept-IsCollected req b =
    one_of-IsCollected req.header_complete _ _ (collect_body-IsCollected req b)
      (collect_header-IsCollected req (header_end req.data_) b (header_end-Inside req.data_))

-- For a request inside its buffer, whatever a segment holds: the data, the body's offset and the
-- body that the header announces stay inside the buffer of 2048 bytes; and a request that is
-- handled has all of its body.
pub collect-IsCollected :
    (req : HttpRequest) (segment : List ℕ) → IsBounded req → IsCollected (collect req segment)
unfolding collect
collect-IsCollected req segment b =
    let room = sub32 2048 (length req.data_) in
    let exact : room ≡ 2048 - length req.data_ =
      sub32_exact 2048 (length req.data_) b.fits (omega arith) in
    let sum : _ = length-append req.data_ segment in
    elim (Bool-cases (ltb room (length segment))) [
      | inl long ↦ rw long tt
      | inr short ↦
          let at_most : length segment ≤ room = ltb_false→le room (length segment) short in
          let longer : IsBounded (record req { data_ = req.data_ ++ segment }) = record {
            fits = omega (arith, sum, exact, at_most, b.fits);
            offset_fits = omega (arith, sum, b.offset_fits);
            body_fits = b.body_fits;
          } in
          rw short (accept-IsCollected _ longer)
    ]

-- What strstr finds lies inside the string.
pub position-fits :
    (str pattern_ : List ℕ) (i : ℕ)
    → position str pattern_ ≡ some i
    → i + length pattern_ ≤ length str
unfolding Fits
position-fits str pattern_ i e =
    subst (λ found. Fits (length pattern_) (length str) found) e (position-Fits str pattern_)
