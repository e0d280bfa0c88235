-- ===== src/Tests/RelayTests.antt =====
-- A relay with no sessions, and a session with both sides registered.
use hextet.Base.{
  ap, ◌+◌, ◌*◌, ◌-◌, ◌/◌, ◌≡◌, ◌≢◌, ◌≤◌, refl, [], ◌∷◌, ◌++◌, length, arith, some, list_same,
}
use hextet.Base.Assoc.{lookup, insert, keys_where, remove_all}
use hextet.Base.Bytes.{Bytes}
use hextet.Base.Bytes.Endian.{to_be_bytes, from_be_bytes}
use hextet.Base.Bytes.Slice.{slice, cut, byte_at}
use hextet.Base.Bytes.Order.{compare_bytes}
use hextet.Crypto.{repeat_byte, toy_hmac, toy_ed25519}
use hextet.Endpoint.{Endpoint, endpoint, normalize}
use hextet.Wire.Relay.{
  RelayFrame, register, encode, decode, decode_fields, from_u8, session_key_of, is_relay_frame,
}
use hextet.RelayServer.Table.{any_member, allows, prune, insert_session, touch_addr}
use hextet.RelayServer.Limiter.{
  limiter_at, passed, InOrder, passed-le, max_packets_per_sec, second, allow,
}
use hextet.RelayServer.Forward.{
  v6, Forwarder, received, sent, forward, Relayed, forward-sent, forward_packet, destination,
}
use hextet.RelayServer.Control.{
  Server, Config, serve, respond, handle_frame, dispatch, handle_register, open_session,
  register_side, prune_server,
}
use hextet.RelayServer.Control.Invariant.{IsServer, empty-IsServer, serve-IsServer}
use hextet.RelayServer.Control.Authority.{IsAuthorised, serve-IsAuthorised}

abbrev config : Config
config = record {
  hmac = toy_hmac;
  ed25519 = toy_ed25519;
  relay_key = repeat_byte 32 5;
  policy = any_member;
}

abbrev server : Server
server = record { table = []; senders = [] }

abbrev left : Endpoint
left = endpoint (0x20 ∷ 0x01 ∷ repeat_byte 13 0 ++ 1 ∷ []) 51820

abbrev right : Endpoint
right = endpoint (0x20 ∷ 0x01 ∷ repeat_byte 13 0 ++ 2 ∷ []) 51820

abbrev frame : RelayFrame
frame = record {
  kind = register;
  port = 51820;
  seq = 1000;
  self_key = repeat_byte 32 1;
  peer_key = repeat_byte 32 2;
}

abbrev datagram : Bytes
datagram = encode toy_hmac frame (repeat_byte 32 5)

abbrev asked : hextet.RelayServer.Control.Wake
asked = hextet.RelayServer.Control.received datagram (v6 left) 1001 (some 4000)

serve-IsServer_example : IsServer (serve config server asked).0
serve-IsServer_example = serve-IsServer config server asked empty-IsServer

three_effects : length (serve config server asked).1 ≡ 3
unfolding serve respond handle_frame dispatch allows handle_register open_session register_side
    prune_server prune insert_session touch_addr lookup insert keys_where remove_all decode
    decode_fields encode from_u8 slice cut byte_at to_be_bytes from_be_bytes list_same compare_bytes
    session_key_of normalize
three_effects = refl

acts : serve config server asked ≢ (server, [])
acts h = absurd (omega (arith, three_effects, ap (λ r. length r.1) h))

serve-IsAuthorised_example : IsAuthorised config datagram 1001
serve-IsAuthorised_example =
    serve-IsAuthorised config server datagram (v6 left) 1001 (some 4000) acts

abbrev forwarder : Forwarder
forwarder = record { addrs = (some left, some right); limiter = limiter_at 0 }

abbrev after : Forwarder
after = record {
  addrs = (some left, some right);
  limiter = record { window_start = 0; count = 1; dropped = 0 };
}

abbrev packet : Bytes
packet = 4 ∷ 0 ∷ 0 ∷ 0 ∷ 9 ∷ []

relayed : forward forwarder (received packet (v6 left) 10) ≡ sent after packet right
unfolding forward forward_packet is_relay_frame list_same allow destination normalize
relayed = refl

forward-sent_example : Relayed forwarder (received packet (v6 left) 10) after packet right
forward-sent_example =
    forward-sent forwarder after (received packet (v6 left) 10) packet right relayed

in_order : InOrder 0 (5 ∷ 6 ∷ []) 1500000000
in_order = (omega arith, (omega arith, omega arith))

passed-le_example :
    passed (limiter_at 0) (5 ∷ 6 ∷ []) ≤ max_packets_per_sec * (1 + (1500000000 - 0) / second)
passed-le_example = passed-le 0 1500000000 (5 ∷ 6 ∷ []) in_order
