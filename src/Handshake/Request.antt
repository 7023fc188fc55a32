-- ===== src/Handshake/Request.antt =====
-- Where the handshake finds the key in a request.
use npacn_fisac.Base.{ℕ, ◌+◌, ◌≡◌, refl, ◌∙◌, ap, none, some}
use npacn_fisac.Base.{List, [], ◌∷◌, ◌++◌, length, take, drop}
use npacn_fisac.Base.CText.{codes, strstr}
use npacn_fisac.Base.Slices.{take-append, drop-append_over}
use npacn_fisac.Base.Search.{strstr-append}
use npacn_fisac.Handshake.{request_key, key_header, crlf}

key_of_places :
    (request : List ℕ) (at end : ℕ)
    → strstr request key_header ≡ some at
    → strstr (drop (at + 19) request) crlf ≡ some end
    → request_key request ≡ some (take end (drop (at + 19) request))
unfolding request_key
key_of_places request at end e g = rw (request_key, e, g)

-- The value of the first `Sec-WebSocket-Key` header of a request, up to the end of its line, is the
-- key, whatever comes before it and behind it: if the name of the header does not begin earlier, and
-- the key has no end of line.
request_key-finds :
    (before key after : List ℕ)
    → strstr (before ++ codes "Sec-WebSocket-Key:") key_header ≡ none
    → strstr (key ++ (13 ∷ [])) crlf ≡ none
    → request_key (before ++ (key_header ++ (key ++ (crlf ++ after)))) ≡ some key
request_key-finds before key after first line =
    key_of_places request (length before) (length key)
      (strstr-append before (codes "Sec-WebSocket-Key:") (key ++ (crlf ++ after)) b' ' first)
      (ap (λ (l : List ℕ). strstr l crlf) behind ∙ strstr-append key (13 ∷ []) after 10 line)
    ∙ ap (λ (l : List ℕ). some (take (length key) l)) behind
    ∙ ap some (take-append (length key) key (crlf ++ after) refl)
  where
    request : List ℕ
    request = before ++ (key_header ++ (key ++ (crlf ++ after)))

    behind :
        drop (length before + 19) (before ++ (key_header ++ (key ++ (crlf ++ after))))
        ≡ key ++ (crlf ++ after)
    behind = drop-append_over 19 before (key_header ++ (key ++ (crlf ++ after)))
