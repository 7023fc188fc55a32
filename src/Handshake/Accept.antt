-- ===== src/Handshake/Accept.antt =====
-- The accept value that the handshake answers.
use mathlib.Core.Option
use npacn_fisac.Base.{ℕ, ◌+◌, ◌≤◌, ◌≡◌, ◌≢◌, refl, arith, ◌∙◌, ap, some}
use npacn_fisac.Base.{List, ◌++◌, length, length-append}
use npacn_fisac.Base.CText.{codes}
use npacn_fisac.Base.Slices.{take_all}
use npacn_fisac.Sha1.{sha1}
use npacn_fisac.Sha1.Reference.{sha1_reference, sha1_reference-IsBytes}
use npacn_fisac.Sha1.Correct.{sha1-eq-reference}
use npacn_fisac.Base64.{base64_encode}
use npacn_fisac.Base64.Reference.{base64_text, base64_encode-text}
use npacn_fisac.Base64.Decoding.{length-base64_encode}
use npacn_fisac.Handshake.{Stack, handshake_response, accept_response}

-- The response of RFC 6455 to a key, with the RFC's own GUID and an end of line as HTTP has it.
abbrev rfc_guid : List ℕ
rfc_guid = codes "258EAFA5-E914-47DA-95CA-C5AB0DC85B11"

unfoldable pub switching_protocols : List ℕ → List ℕ
switching_protocols key =
    codes "HTTP/1.1 101 Switching Protocols\r\n"
    ++ (codes "Upgrade: websocket\r\n"
        ++ (codes "Connection: Upgrade\r\n"
            ++ (codes "Sec-WebSocket-Accept: "
                ++ (base64_text (sha1_reference (key ++ rfc_guid)) ++ codes "\r\n\r\n"))))

length-sha1_reference : (message : List ℕ) → length (sha1_reference message) ≡ 20
unfolding sha1_reference
length-sha1_reference message = refl

-- The letters of the digest, by the code.
encoded :
    (message : List ℕ)
    → base64_encode (sha1_reference message) ≡ base64_text (sha1_reference message)
encoded message = base64_encode-text _ (sha1_reference-IsBytes message)

whole_response :
    (message : List ℕ)
    → accept_response (sha1_reference message)
      ≡ codes "HTTP/1.1 101 Switching Protocols\r\n"
        ++ (codes "Upgrade: websocket\r\n"
            ++ (codes "Connection: Upgrade\r\n"
                ++ (codes "Sec-WebSocket-Accept: "
                    ++ (base64_text (sha1_reference message) ++ codes "\r\n\r\n"))))
unfolding accept_response
whole_response message =
    take_all 511 _ (
      omega (
        arith,
        length-append (base64_encode (sha1_reference message)) (codes "\r\n\r\n"),
        length-base64_encode (sha1_reference message),
        length-sha1_reference message,
      ))
    ∙ ap
        (λ (text : List ℕ).
          codes "HTTP/1.1 101 Switching Protocols\r\n"
          ++ (codes "Upgrade: websocket\r\n"
              ++ (codes "Connection: Upgrade\r\n"
                  ++ (codes "Sec-WebSocket-Accept: " ++ (text ++ codes "\r\n\r\n")))))
        (encoded message)

pub length-switching_protocols : (key : List ℕ) → length (switching_protocols key) ≤ 511
unfolding switching_protocols
length-switching_protocols key =
    let message = key ++ rfc_guid in
    omega (
      arith,
      length-append (base64_text (sha1_reference message)) (codes "\r\n\r\n"),
      ap length (encoded message),
      length-base64_encode (sha1_reference message),
      length-sha1_reference message,
    )

-- For every key of at most 28 bytes, but for 20 bytes, so for the keys of 24 bytes that RFC 6455
-- prescribes, the response is the one of RFC 6455: its accept value is the Base64 form of the SHA-1
-- digest of the key and the GUID, all three as their RFCs define them, and no buffer cuts it off. It does not depend on what the stack
-- holds.
pub handshake_response-rfc :
    (stack : Stack) (key : List ℕ)
    → length stack.block ≡ 64
    → length key ≤ 28
    → length key ≢ 20
    → handshake_response stack key ≡ some (switching_protocols key)
unfolding handshake_response switching_protocols
handshake_response-rfc stack key block le ne =
    ap
      (λ (l : List ℕ).
        Option.map accept_response (sha1 stack.block stack.beyond_key stack.beyond_padding l))
      (take_all 255 text (omega (arith, size)))
    ∙ ap (Option.map accept_response) (
        sha1-eq-reference stack.block block stack.beyond_key stack.beyond_padding text
          (omega (arith, size)) (λ e. ne (omega (arith, size))))
    ∙ ap some (whole_response text)
  where
    text : List ℕ
    text = key ++ rfc_guid

    size : length text ≡ length key + 36
    size = length-append key rfc_guid
