-- ===== src/Http/Request/Laws.antt =====
-- network/http_server/http_server.c: the parameters of a request, the blocks it takes, its answer.
use pico_stairway_controller.Base.{
  ◌^◌, ℕ, suc, ◌+◌, ◌<◌, ◌≡◌, ◌∙◌, ap, sym, inl, inr, refl, arith, ◌==◌, if◌then◌else◌, Bool, true,
  List, [], ◌∷◌, ◌++◌, Option, none, some, length, Bool-cases, starts_with, ==_iff,
}
use pico_stairway_controller.Types.{ErrCode, Settings, Status}
use pico_stairway_controller.Settings.{Platform, FlashRun}
use pico_stairway_controller.Http.Response.{ContentResponse, Heap}
use pico_stairway_controller.Http.Response.Owned.{IsBalanced, IsServed, owned}
use pico_stairway_controller.Http.Content.{Served, Device, get_content}
use pico_stairway_controller.Http.Content.Pages.{IsFinal, get_content-IsFinal, post_content-IsFinal}
use pico_stairway_controller.Http.Request.{
  ContentGetRequest, no_params, free_each, free_get_params, prepend, cut_at_ampersands, Malloc,
  copy_params, parse_get_params, http_get, http_post, params_of, after_params, with_header,
  handle_get, handle_request,
}

-- The parameters with an '&' between any two.
abbrev pub with_ampersands : List (List ℕ) → List ℕ
with_ampersands [] = []
with_ampersands (param ∷ []) = param
with_ampersands (param ∷ (next ∷ rest)) = param ++ 38 ∷ with_ampersands (next ∷ rest)

join_prepend :
    (c : ℕ) (params : List (List ℕ))
    → 0 < length params
    → with_ampersands (prepend c params) ≡ c ∷ with_ampersands params
join_prepend c [] some_param = absurd (omega arith)
join_prepend c (param ∷ []) some_param = refl
join_prepend c (param ∷ (next ∷ rest)) some_param = refl

join_empty :
    (params : List (List ℕ))
    → 0 < length params
    → with_ampersands ([] ∷ params) ≡ 38 ∷ with_ampersands params
join_empty [] some_param = absurd (omega arith)
join_empty (param ∷ rest) some_param = refl

length-prepend : (c : ℕ) (params : List (List ℕ)) → 0 < length (prepend c params)
length-prepend c [] = omega arith
length-prepend c (param ∷ rest) = omega arith

length-cut : (str : List ℕ) → 0 < length (cut_at_ampersands str)
unfolding cut_at_ampersands
length-cut [] = omega arith
length-cut (c ∷ cs) = elim (Bool-cases (c == 38)) [
  | inl e ↦ rw e (omega arith)
  | inr e ↦ rw e (length-prepend c (cut_at_ampersands cs))
]

-- Cutting a text at every '&' and joining the strings with '&' gives the text back.
pub with_ampersands-cut_at_ampersands :
    (str : List ℕ) → with_ampersands (cut_at_ampersands str) ≡ str
unfolding cut_at_ampersands
with_ampersands-cut_at_ampersands [] = refl
with_ampersands-cut_at_ampersands (c ∷ cs) = elim (Bool-cases (c == 38)) [
  | inl e ↦ rw e (
      join_empty (cut_at_ampersands cs) (length-cut cs)
      ∙ ap (λ t. 38 ∷ t) (with_ampersands-cut_at_ampersands cs)
      ∙ ap (λ a. a ∷ cs) (sym ((==_iff c 38).0 e)))
  | inr e ↦ rw e (
      join_prepend c (cut_at_ampersands cs) (length-cut cs)
      ∙ ap (λ t. c ∷ t) (with_ampersands-cut_at_ampersands cs))
]

-- The blocks that a request holds.
abbrev pub held : ContentGetRequest → ℕ
held req = if req.has_params then suc (length req.params) else 0

-- Of the blocks that are not freed, the request holds all but k.
abbrev Holds : ℕ → ContentGetRequest → Heap → Type 0
Holds k req h = h.allocated ≡ h.freed + k + held req

length-snoc : (xs : List (List ℕ)) (x : List ℕ) → length (xs ++ x ∷ []) ≡ suc (length xs)
length-snoc [] x = refl
length-snoc (y ∷ ys) x = ap suc (length-snoc ys x)

copy_params-Holds :
    (k : ℕ) (given : ℕ → Bool) (i : ℕ) (rest done : List (List ℕ)) (h : Heap)
    → h.allocated ≡ h.freed + k + suc (length done)
    → (let copied = copy_params given i rest (record { has_params = true; params = done }) h in
        Holds k copied.1 copied.2)
unfolding copy_params
copy_params-Holds k given i [] done h e = e
copy_params-Holds k given i (param ∷ rest) done h e = elim (Bool-cases (given i)) [
  | inl ok ↦ rw ok (
      copy_params-Holds k given (suc i) rest (done ++ param ∷ []) _
        (omega (arith, length-snoc done param)))
  | inr no_block ↦ rw no_block e
]

free_each_lem :
    (params : List (List ℕ)) (h : Heap)
    → (let h' = free_each params h in
        (h'.allocated ≡ h.allocated) × (h'.freed ≡ h.freed + length params))
free_each_lem [] h = (refl, omega arith)
free_each_lem (param ∷ rest) h =
    let more : _ = free_each_lem rest (record h { freed = h.freed + 1 }) in
    (more.0, omega (arith, more.1))

free_get_params-Holds :
    (k : ℕ) (req : ContentGetRequest) (h : Heap)
    → Holds k req h
    → (free_get_params req h).allocated ≡ (free_get_params req h).freed + k
unfolding free_get_params
free_get_params-Holds k req h e =
    let (same, more) = free_each_lem req.params h in
    elim (Bool-cases req.has_params) [
      | inl has ↦ let e' : _ = e in rw has (ground arith)
      | inr has_none ↦ rw has_none (ground arith)
    ]

parse_get_params-Holds :
    (k : ℕ) (given : Malloc) (params : List ℕ) (h : Heap)
    → h.allocated ≡ h.freed + k
    → (let parsed = parse_get_params given params no_params h in Holds k parsed.1 parsed.2)
unfolding parse_get_params
parse_get_params-Holds k given params h e = elim (Bool-cases given.for_array) [
  | inl ok ↦
      rw ok (copy_params-Holds k given.for_param 0 (cut_at_ampersands params) [] _ (omega arith))
  | inr no_block ↦ rw no_block (omega arith)
]

served : (kept : ℕ) (x : Served) → IsFinal kept x → IsServed kept x
served kept (err, r, h) f = (f.0, f.1)

with_header-IsServed : (kept : ℕ) (x : Served) → IsServed kept x → IsServed kept (with_header x)
with_header-IsServed kept (ErrCode.success, r, h) s = elim (Bool-cases (r.header_len == 0)) [
  | inl empty ↦ rw empty (s.0, λ e. ground arith)
  | inr nonempty ↦ rw nonempty s
]
with_header-IsServed kept (_, r, h) s = (s.0, λ e. ground arith)

after_params-IsServed :
    (kept : ℕ) (parsed : ErrCode × ContentGetRequest × Heap) (r : ContentResponse)
    (page : Heap → Served)
    → Holds (owned r + kept) parsed.1 parsed.2
    → ((k : ℕ) (h : Heap) → IsBalanced k r h → IsServed k (page h))
    → IsServed kept (after_params parsed r page)
after_params-IsServed kept (ErrCode.success, req, h) r page holds serve =
    let s : _ = serve (kept + held req) h (omega (arith, holds)) in
    let (err, r', h') = page h in
    (omega (arith, free_get_params-Holds (owned r' + kept) req h' (omega (arith, s.0))), λ e. s.1 e)
after_params-IsServed kept (_, req, h) r page holds serve =
    (omega (arith, free_get_params-Holds (owned r + kept) req h holds), λ e. ground arith)

params_of-Holds :
    (k : ℕ) (given : Malloc) (params : Option (List ℕ)) (h : Heap)
    → h.allocated ≡ h.freed + k
    → (let parsed = params_of given params no_params h in Holds k parsed.1 parsed.2)
params_of-Holds k given none h e = omega arith
params_of-Holds k given (some params) h e = parse_get_params-Holds k given params h e

handle_get-IsServed :
    (kept : ℕ) (index_html gw : List ℕ) (given : Malloc) (s : Settings) (st : Status)
    (header : List ℕ) (r : ContentResponse) (h : Heap)
    → length index_html < 2 ^ 31
    → IsBalanced kept r h
    → IsServed kept (handle_get index_html gw given s st header r h)
unfolding handle_get
handle_get-IsServed kept index_html gw given s st header r h short b =
    after_params-IsServed kept (params_of given _ no_params h) r
      (λ h'. with_header (get_content index_html gw given.for_page s st _ r h'))
      (params_of-Holds (owned r + kept) given _ h (omega arith))
      (λ k h' b'.
        with_header-IsServed k _
          (served k _ (get_content-IsFinal k index_html gw given.for_page s st _ r h' short b')))

-- Where every block is freed once or owned before, for a page index_html of less than 2 ^ 31 bytes,
-- whatever the header and the body hold and whatever the heap answers: a request that is answered
-- has a complete response, with a header that is not empty and fits its block; and with or without
-- success every block is freed, the parameters' too, but those that the response owns and the
-- `kept` blocks that were there before.
pub handle_request-IsServed :
    (kept : ℕ) (p : Platform) (index_html gw : List ℕ) (given : Malloc) (run : FlashRun p) (now : ℕ)
    (header body : List ℕ) (d : Device p) (r : ContentResponse) (h : Heap)
    → length index_html < 2 ^ 31
    → IsBalanced kept r h
    → IsServed kept (handle_request p index_html gw given run now header body d r h).0
unfolding handle_request
handle_request-IsServed kept p index_html gw given run now header body d r h short b =
    elim (Bool-cases (starts_with http_get header)) [
      | inl get ↦ rw get (handle_get-IsServed kept index_html gw given _ _ header r h short b)
      | inr no_get ↦ elim (Bool-cases (starts_with http_post header)) [
        | inl post ↦
            rw (no_get, post)
              (with_header-IsServed kept _
                (served kept _ (post_content-IsFinal kept p run now _ _ body d r h b)))
        | inr no_post ↦ rw (no_get, no_post) (b, λ e. ground arith)
      ]
    ]
