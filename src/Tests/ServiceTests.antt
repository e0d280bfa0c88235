-- ===== src/Tests/ServiceTests.antt =====
-- The gossip service of a node, on the revocations of GossipTests and on its own addresses.
use hextet.Base.{◌≡◌, ◌≤◌, refl, [], ◌∷◌, ◌++◌, arith, true, some, list_same, contains, Ordering}
use hextet.Base.Assoc.{lookup, insert}
use hextet.Base.Bytes.{Bytes}
use hextet.Base.Bytes.Endian.{to_be_bytes, from_be_bytes}
use hextet.Base.Bytes.Slice.{slice, cut, byte_at}
use hextet.Base.Outcome.{Outcome, ok, ◌>>=◌}
use hextet.Crypto.{repeat_byte, toy_ed25519, toy_base64}
use hextet.Addr.{Ipv6Addr}
use hextet.Endpoint.{Endpoint, endpoint}
use hextet.Gossip.Codec.{
  encode, decode, decode_revocation, check_signature, is_valid, verify, signed_region,
  sign_endpoint,
}
use hextet.Gossip.Entry.{Entry, Kind, GossipError, from_u8, seq_of}
use hextet.Gossip.Service.{
  GossipConfig, GossipEvent, revoked, Broadcast, new_broadcast, Service, Surroundings, received,
  handle_datagram, handle_decoded, handle_entry, lacks_authority, is_within_prefix, own_entry,
  serve,
}
use hextet.Gossip.Service.Authority.{IsBacked, handle_datagram-IsBacked}
use hextet.Gossip.Service.Announcing.{IsOwn, IsAnnounced, own_entry_supersedes}
use hextet.Gossip.Service.Invariant.{IsService, serve-IsService}
use hextet.Gossip.Store.{merge, lww_compare}
use hextet.RelayServer.Forward.{v6}
use hextet.Tests.{toy_sha256}
use hextet.Tests.GossipTests.{node, newer, empty-IsStore}

abbrev bytes_of : Outcome GossipError Bytes → Bytes
bytes_of (ok bytes) = bytes
bytes_of _ = []

abbrev prefix : Bytes
prefix = 0xfd ∷ repeat_byte 5 1

abbrev pub config : GossipConfig
config = record {
  ed25519 = toy_ed25519;
  sha256 = toy_sha256;
  base64 = toy_base64;
  port = 4197;
  prefix = prefix;
  own_identity = repeat_byte 32 4;
  listen_port = 4193;
  admin_keys = repeat_byte 32 3 ∷ [];
}

abbrev pub src : Endpoint
src = endpoint (prefix ++ repeat_byte 10 2) 4197

abbrev datagram : Bytes
datagram = bytes_of (encode newer)

taken :
    handle_datagram config [] datagram src.ip
    ≡ (some (revoked node), ((node, Kind.revocation), newer) ∷ [])
unfolding handle_datagram handle_decoded handle_entry lacks_authority is_within_prefix decode encode
    decode_revocation check_signature signed_region verify is_valid merge lookup insert contains
    list_same to_be_bytes from_be_bytes slice cut byte_at from_u8
taken = refl

handle_datagram-IsBacked_example :
    IsBacked config [] datagram src.ip (revoked node) (((node, Kind.revocation), newer) ∷ [])
handle_datagram-IsBacked_example =
    handle_datagram-IsBacked config [] datagram src.ip (revoked node)
      (((node, Kind.revocation), newer) ∷ []) taken

-- 2001:db8::1 and 2001:db8::2.
abbrev pub home : Ipv6Addr
home = 0x20 ∷ 0x01 ∷ 0x0d ∷ 0xb8 ∷ repeat_byte 11 0 ++ 1 ∷ []

abbrev pub away : Ipv6Addr
away = 0x20 ∷ 0x01 ∷ 0x0d ∷ 0xb8 ∷ repeat_byte 11 0 ++ 2 ∷ []

abbrev service : Service
service = record { store = []; targets = home ∷ []; announced = new_broadcast 1000 }

abbrev around : Surroundings
around = record { addresses = some (home ∷ []); now = 1000; listening = true }

abbrev wake : hextet.Gossip.Service.Wake
wake = received (some (datagram, v6 src))

new-IsAnnounced : IsAnnounced config (new_broadcast 1000)
new-IsAnnounced = record { seq_u64 = omega arith; kept = λ bytes h. absurd (cc h) }

service-IsService : IsService config service
service-IsService = record { is_store = empty-IsStore; is_announced = new-IsAnnounced }

serve-IsService_example : IsService config (serve config service around wake).0
serve-IsService_example =
    serve-IsService config service service-IsService around (omega arith) (omega arith) wake

abbrev announcement : Bytes
announcement =
    bytes_of (sign_endpoint toy_ed25519 (repeat_byte 32 4) (home ∷ []) 4193 1001 >>= encode)

abbrev announced : Broadcast
announced = record { last_addrs = home ∷ []; entry_bytes = some announcement; seq = 1001 }

announces : own_entry config (new_broadcast 1000) (home ∷ []) 1000 ≡ (some announcement, announced)
unfolding own_entry sign_endpoint signed_region encode to_be_bytes list_same
announces = refl

own_entry_supersedes_example :
    (x : Entry) × IsOwn config announcement x
    × ((y : Entry) → seq_of y ≤ 1000 → lww_compare x y ≡ Ordering.gt)
own_entry_supersedes_example =
    own_entry_supersedes config (new_broadcast 1000) (home ∷ []) 1000 announcement announced
      (omega arith) (omega arith) (λ h. cc h) announces
