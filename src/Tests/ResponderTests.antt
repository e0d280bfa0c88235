-- ===== src/Tests/ResponderTests.antt =====
-- A request for a probe, and requests from two addresses.
use hextet.Base.{ℕ, ◌≡◌, ◌≢◌, ◌*◌, refl, [], ◌∷◌, ◌++◌, arith, ap, length, list_same, List}
use hextet.Base.Assoc.{lookup, insert}
use hextet.Base.Bytes.{Bytes}
use hextet.Base.Bytes.Endian.{to_be_bytes, from_be_bytes}
use hextet.Base.Bytes.Slice.{slice, cut, byte_at}
use hextet.Crypto.{repeat_byte, toy_hmac}
use hextet.Endpoint.{Endpoint, endpoint}
use hextet.ProbeResponder.{serve, respond, answer, allow, make_room, second}
use hextet.ProbeResponder.Limits.{Uncrowded, IsSpaced, allowed_in, allowed_in-IsSpaced}
use hextet.ProbeResponder.Replies.{IsAnswer, serve-IsAnswer}
use hextet.RelayServer.Forward.{v6}
use hextet.Wire.Probe.{ProbePacket, request, encode, decode, from_u8}

abbrev key : Bytes
key = repeat_byte 32 5

abbrev probe : ProbePacket
probe = record { kind = request; nonce = 0x0102030405060708; reply_port = 51820 }

abbrev datagram : Bytes
datagram = encode toy_hmac probe key

abbrev src : Endpoint
src = endpoint (0x20 ∷ 0x01 ∷ repeat_byte 13 0 ++ 1 ∷ []) 40000

abbrev other : Endpoint
other = endpoint (0x20 ∷ 0x01 ∷ repeat_byte 13 0 ++ 2 ∷ []) 40000

two_replies : length (serve toy_hmac key [] datagram (v6 src) 7).1 ≡ 2
unfolding serve respond answer allow make_room lookup insert decode encode from_u8 slice cut byte_at
    to_be_bytes from_be_bytes list_same
two_replies = refl

acts : (serve toy_hmac key [] datagram (v6 src) 7).1 ≢ []
acts h = absurd (omega (arith, two_replies, ap (λ effects. length effects) h))

serve-IsAnswer_example :
    IsAnswer toy_hmac key [] datagram src 7 (serve toy_hmac key [] datagram (v6 src) 7).1
serve-IsAnswer_example = serve-IsAnswer toy_hmac key [] datagram src 7 acts

abbrev requests : List (Bytes × ℕ)
requests = (src.ip, 0) ∷ (other.ip, 5) ∷ (src.ip, 7) ∷ (src.ip, 2 * second) ∷ []

roomy : Uncrowded [] requests
unfolding allow make_room lookup insert list_same
roomy = (omega arith, (omega arith, (omega arith, (omega arith, tt))))

allowed_in-IsSpaced_example : IsSpaced (allowed_in [] [] requests)
allowed_in-IsSpaced_example = allowed_in-IsSpaced requests roomy
