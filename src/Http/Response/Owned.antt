-- ===== src/Http/Response/Owned.antt =====
-- network/http_server/content.c: the blocks of the heap that a response owns, and its lengths.
use pico_stairway_controller.Base.{
  ◌^◌, ℕ, ◌+◌, ◌<◌, ◌≡◌, ap, inl, inr, refl, arith, leb, if◌then◌else◌, Bool, true, false, List,
  ◌∷◌, Option, none, some, length, Bool-cases,
}
use pico_stairway_controller.Types.{ErrCode}
use pico_stairway_controller.Http.Response.{
  ContentResponse, Heap, content_response_free, put_header,
}

abbrev pub blocks : Option (List ℕ) → ℕ
blocks none = 0
blocks (some b) = 1

-- The blocks that the response has to free.
abbrev pub owned : ContentResponse → ℕ
owned r = blocks r.header + (if r.body_static then 0 else blocks r.body)

-- Every block that was allocated has been freed once, belongs to the response, or is one of the
-- `kept` blocks of the caller.
abbrev pub IsBalanced : ℕ → ContentResponse → Heap → Type 0
IsBalanced kept r h = h.allocated ≡ h.freed + owned r + kept

abbrev pub text_length : Option (List ℕ) → ℕ
text_length none = 0
text_length (some str) = length str

-- The length of the body is that of its text, and far below 2 ^ 32.
abbrev pub HasBody : ContentResponse → Type 0
HasBody r = (r.body_len ≡ text_length r.body) × (text_length r.body < 2 ^ 31)

-- The response is complete: a header that fits its block, and the lengths of the two texts.
pub record IsComplete (r : ContentResponse) : Type 0 where
  pub head : List ℕ
  pub has_header : r.header ≡ some head
  pub header_fits : (0 < length head) × (length head < 256)
  pub header_length : r.header_len ≡ length head
  pub body_length : HasBody r

-- What an operation leaves behind: balanced blocks, and on success a complete response.
abbrev pub IsServed : ℕ → ErrCode × ContentResponse × Heap → Type 0
IsServed kept (err, r, h) = IsBalanced kept r h × ((err ≡ ErrCode.success) → IsComplete r)

pub free-IsBalanced :
    (kept : ℕ) (r : ContentResponse) (h : Heap)
    → IsBalanced kept r h
    → (content_response_free r h).1.allocated ≡ (content_response_free r h).1.freed + kept
unfolding content_response_free
free-IsBalanced kept r h b = ground arith

complete :
    (c : ℕ) (str : List ℕ) (r : ContentResponse)
    → length (c ∷ str) < 256
    → HasBody r
    → IsComplete (record r { header = some (c ∷ str); header_len = length (c ∷ str) })
complete c str r short e = record {
  head = c ∷ str;
  has_header = refl;
  header_fits = (omega arith, short);
  header_length = refl;
  body_length = e;
}

pub put_header-IsServed :
    (kept : ℕ) (given : Bool) (c : ℕ) (str : List ℕ) (r : ContentResponse) (h : Heap)
    → r.header ≡ none
    → IsBalanced kept r h
    → HasBody r
    → IsServed kept (put_header given (c ∷ str) r h)
unfolding put_header
put_header-IsServed kept false c str r h none_yet b e =
    (ground (arith, ap blocks none_yet), λ ok. ground arith)
put_header-IsServed kept true c str r h none_yet b e =
    elim (Bool-cases (leb 256 (length (c ∷ str)))) [
      | inl long ↦ rw long (ground (arith, ap blocks none_yet), λ ok. ground arith)
      | inr short ↦
          rw short (ground (arith, ap blocks none_yet), λ ok. complete c str r (ground arith) e)
    ]
