-- ===== src/Tests/Words.antt =====
-- Bytes, hashes and texts.
use npacn_fisac.Base.{◌+◌, ◌<◌, ◌≡◌, false, refl, arith, some, [], ◌∷◌, length, replicate}
use npacn_fisac.Base.CText.{codes}
use npacn_fisac.Base64.{base64_encode}
use npacn_fisac.Base64.Decoding.{decode, decode-base64_encode}
use npacn_fisac.Sha1.{sha1}
use npacn_fisac.Sha1.Reference.{sha1_reference}
use npacn_fisac.Sha1.Correct.{sha1-eq-reference}
use npacn_fisac.Handshake.{handshake_response}
use npacn_fisac.Handshake.Accept.{switching_protocols, handshake_response-rfc}
use npacn_fisac.Websocket.{frame_header}
use npacn_fisac.Websocket.Rfc.{frame_header-rfc, length_field}
use npacn_fisac.Escape.{json_escape_minimal}
use npacn_fisac.Escape.Laws.{
  length-json_escape_minimal, read_string, printable, read_string-json_escape_minimal,
}
use npacn_fisac.Tests.Toy.{zero_stack}

decode-base64_encode_example : decode (base64_encode (77 ∷ 97 ∷ [])) ≡ some (77 ∷ 97 ∷ [])
decode-base64_encode_example = decode-base64_encode (77 ∷ 97 ∷ []) (omega arith)

sha1-eq-reference_example :
    sha1 (replicate 64 7) (λ i. i) (λ i. i) (replicate 60 65)
    ≡ some (sha1_reference (replicate 60 65))
sha1-eq-reference_example =
    sha1-eq-reference (replicate 64 7) refl (λ i. i) (λ i. i) (replicate 60 65) (omega arith)
      (omega arith)

handshake_response-rfc_example :
    handshake_response zero_stack (codes "dGhlIHNhbXBsZSBub25jZQ==")
    ≡ some (switching_protocols (codes "dGhlIHNhbXBsZSBub25jZQ=="))
handshake_response-rfc_example =
    handshake_response-rfc zero_stack (codes "dGhlIHNhbXBsZSBub25jZQ==") refl (omega arith)
      (omega arith)

frame_header-rfc_example : frame_header 300 1 ≡ (128 + 1) ∷ length_field 0 300
frame_header-rfc_example = frame_header-rfc 300 1 (omega arith) (omega arith)

length-json_escape_minimal_example : length (json_escape_minimal (codes "a\"b\"c") 4) < 4
length-json_escape_minimal_example = length-json_escape_minimal (codes "a\"b\"c") 4 (omega arith)

read_string-json_escape_minimal_example :
    read_string false (json_escape_minimal (codes "a\"b\"c") 16)
    ≡ some (printable (codes "a\"b\"c"))
read_string-json_escape_minimal_example =
    read_string-json_escape_minimal (codes "a\"b\"c") 16 (omega arith)

-- A quote that would only just fit is written without its backslash.
json_escape_minimal-raw_quote : json_escape_minimal (codes "ab\"") 4 ≡ codes "ab\""
unfolding json_escape_minimal
json_escape_minimal-raw_quote = refl
