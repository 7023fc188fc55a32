-- ===== src/HttpClient/Body.antt =====
-- Which part of a response the caller of `http_post_json` is given.
use npacn_fisac.Base.{
  ℕ, ◌+◌, ◌-◌, ◌≡◌, refl, ◌∙◌, ap, none, some, List, [], ◌∷◌, ◌++◌, length, take, drop,
}
use npacn_fisac.Base.CText.{strstr, fit}
use npacn_fisac.Base.Slices.{drop-append_over}
use npacn_fisac.Base.Search.{strstr-append}
use npacn_fisac.Handshake.{end_of_headers}
use npacn_fisac.HttpClient.{response_body}

body_of_place :
    (size : ℕ) (response : List ℕ) (at : ℕ)
    → strstr response end_of_headers ≡ some at
    → response_body size response ≡ some (fit size (drop (at + 4) response))
unfolding response_body
body_of_place size response at e = rw (response_body, e) refl

-- For every response whose status line and headers have no empty line in them, nor begin one at their
-- end, what is found is the text behind the first empty line, cut off to what the caller's
-- buffer holds beside the terminator; empty lines in the body are part of it.
pub response_body-finds :
    (size : ℕ) (headers body : List ℕ)
    → strstr (headers ++ (13 ∷ 10 ∷ 13 ∷ [])) end_of_headers ≡ none
    → response_body size (headers ++ (end_of_headers ++ body)) ≡ some (take (size - 1) body)
response_body-finds size headers body first =
    body_of_place size _ (length headers) (strstr-append headers (13 ∷ 10 ∷ 13 ∷ []) body 10 first)
    ∙ ap (λ (l : List ℕ). some (fit size l)) (drop-append_over 4 headers (end_of_headers ++ body))
