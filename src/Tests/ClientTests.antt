-- ===== src/Tests/ClientTests.antt =====
-- A registration with the relay of RelayTests' kind.
use hextet.Base.{
  ◌≡◌, ◌≢◌, ◌+◌, refl, [], ◌∷◌, ◌++◌, arith, true, some, none, list_same, List, Any, inl, inr,
}
use hextet.Base.Assoc.{lookup, insert, keys_where, remove_all}
use hextet.Base.Bytes.{Bytes}
use hextet.Base.Bytes.Endian.{to_be_bytes, from_be_bytes}
use hextet.Base.Bytes.Slice.{slice, cut, byte_at}
use hextet.Base.Bytes.Order.{compare_bytes}
use hextet.Crypto.{repeat_byte, toy_hmac, toy_ed25519}
use hextet.Endpoint.{Endpoint, endpoint, normalize}
use hextet.RelayClient.{
  Request, Round, RelaySession, registered, waiting, register_with_timeout, register_loop, accept,
  is_paired, frame_of,
}
use hextet.RelayClient.Sessions.{IsAcked, register_with_timeout-IsAcked, register_with_timeout_ends}
use hextet.RelayClient.Pairing.{client, Confirms, serve-Confirms}
use hextet.RelayServer.Control.{
  Config, Server, received, serve, respond, handle_frame, dispatch, handle_register, open_session,
  register_side, prune_server,
}
use hextet.RelayServer.Forward.{v6}
use hextet.RelayServer.Table.{any_member, allows, prune, insert_session, touch_addr, port_of}
use hextet.Tests.{repeat_byte-IsPublicKey}
use hextet.Wire.Relay.{
  RelayFrame, IsRelayFrame, register, register_ack, encode, decode, decode_fields, from_u8,
  session_key_of, session_key,
}

abbrev relay : Endpoint
relay = endpoint (0x20 ∷ 0x01 ∷ repeat_byte 13 0 ++ 7 ∷ []) 4196

abbrev left : Endpoint
left = endpoint (0x20 ∷ 0x01 ∷ repeat_byte 13 0 ++ 1 ∷ []) 40000

abbrev config : Config
config = record {
  hmac = toy_hmac;
  ed25519 = toy_ed25519;
  relay_key = repeat_byte 32 5;
  policy = any_member;
}

abbrev asker : Request
asker = client config (repeat_byte 32 1) (repeat_byte 32 2) 51820 (relay ∷ [])

abbrev server : Server
server = record { table = []; senders = [] }

abbrev asked : RelayFrame
asked = frame_of asker register 1000

asked-IsRelayFrame : IsRelayFrame toy_ed25519 asked
asked-IsRelayFrame = record {
  port_u16 = omega arith;
  seq_u64 = omega arith;
  self_is_key = repeat_byte-IsPublicKey 1 (omega arith);
  peer_is_key = repeat_byte-IsPublicKey 2 (omega arith);
  two_ends = λ h. cc h;
}

abbrev served : hextet.RelayServer.Control.Wake
served = received (encode toy_hmac asked (repeat_byte 32 5)) (v6 left) 1001 (some 4000)

has_port : port_of (serve config server served).0.table (session_key asked) ≡ some 4000
unfolding serve respond handle_frame dispatch allows handle_register open_session register_side
    prune_server prune insert_session touch_addr lookup insert keys_where remove_all decode
    decode_fields encode from_u8 slice cut byte_at to_be_bytes from_be_bytes list_same compare_bytes
    session_key_of normalize
has_port = refl

client_allowed : allows config.policy (repeat_byte 32 1) ≡ true
unfolding allows
client_allowed = refl

serve-Confirms_example :
    Any
      (Confirms config (repeat_byte 32 1) (repeat_byte 32 2) 51820 (relay ∷ []) left relay 4000)
      (serve config server served).1
serve-Confirms_example =
    serve-Confirms config (repeat_byte 32 1) (repeat_byte 32 2) 51820 (relay ∷ []) server left relay
      1000 1001 4000 (some 4000) asked-IsRelayFrame (omega arith) (omega arith) (omega arith)
      (omega arith) (omega arith) client_allowed has_port

abbrev ack : Bytes
ack =
    encode toy_hmac
      (record {
        kind = register_ack;
        port = 4000;
        seq = 1001;
        self_key = repeat_byte 32 1;
        peer_key = repeat_byte 32 2;
      })
      (repeat_byte 32 5)

abbrev session : RelaySession
session = record { endpoint = endpoint relay.ip 4000; control = relay }

-- Nothing comes in the first round, the ack in the second.
abbrev rounds : List Round
rounds =
    record { instant = 10; unix = 1000; received = none }
    ∷ record { instant = 800000010; unix = 1001; received = some (ack, v6 relay) }
    ∷ []

acked : (register_with_timeout asker 0 5000000000 true rounds).1 ≡ registered session
unfolding register_with_timeout register_loop accept is_paired decode decode_fields encode from_u8
    slice cut byte_at to_be_bytes from_be_bytes list_same normalize
acked = refl

register_with_timeout-IsAcked_example : Any (IsAcked asker (0 + 5000000000) session) rounds
register_with_timeout-IsAcked_example =
    register_with_timeout-IsAcked asker 0 5000000000 true rounds session acked

-- The second round begins after the deadline.
abbrev slow_rounds : List Round
slow_rounds =
    record { instant = 10; unix = 1000; received = none }
    ∷ record { instant = 5000000010; unix = 1005; received = none }
    ∷ []

register_with_timeout_ends_example :
    (register_with_timeout asker 0 5000000000 true slow_rounds).1 ≢ waiting
register_with_timeout_ends_example =
    register_with_timeout_ends asker 0 5000000000 true slow_rounds (inr (inl (omega arith)))
