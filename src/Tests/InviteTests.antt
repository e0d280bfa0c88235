-- ===== src/Tests/InviteTests.antt =====
-- An invite of one bootstrap peer, with a JSON that is a list of fields.
use hextet.Base.{
  ◌≡◌, ◌≤◌, ◌^◌, ◌+◌, ◌↔◌, refl, ap, sym, ◌∙◌, ℕ, zero, suc, [], ◌∷◌, ◌++◌, false, List, Option,
  none, some, length, contains, take, drop, ltb, map, ◌-◌, take_append, drop_append, arith, ◌==◌,
  if◌then◌else◌, ℕ_equality, list_equality, list_same,
}
use hextet.Base.Bytes.{Bytes}
use hextet.Base.Bytes.Endian.{to_be_bytes}
use hextet.Base.Outcome.{ok}
use hextet.Crypto.{repeat_byte, Base64, toy_ed25519}
use hextet.Endpoint.{endpoint}
use hextet.Invite.{
  Formats, Invite, RawInvite, RawBootstrap, encode, decode, token_of, new_invite, check_not_expired,
  raw_invite, max_token_len, check_bootstrap_len,
}
use hextet.Invite.Checked.{IsSigned, decode-IsSigned}
use hextet.Invite.RoundTrip.{IsInvite, decode-encode_invite, new_invite-expiry}
use hextet.Tests.{are_bytes-AreBytes}
use hextet.Tests.TextTests.{toy_codecs}

-- The texts skip the dot.
abbrev over : ℕ → ℕ
over b = if ltb b b'.' then b else suc b

abbrev under : ℕ → ℕ
under b = if ltb b b'.' then b else b - 1

under-over : (b : ℕ) → under (over b) ≡ b
under-over b = ground arith

map-under-over : (raw : Bytes) → map under (map over raw) ≡ raw
map-under-over [] = refl
map-under-over (b ∷ raw) = rw (under-over b, map-under-over raw) refl

abbrev dotless : Base64
dotless = record {
  encode = λ raw. map over raw;
  decode = λ text. some (map under text);
  decode-encode = λ raw. ap some (map-under-over raw);
}

over_safe : (b : ℕ) → (over b == b'.') ≡ false
over_safe b = ground arith

dotless_safe : (raw : Bytes) → contains (map over raw) b'.' ≡ false
unfolding contains
dotless_safe [] = refl
dotless_safe (b ∷ raw) = rw (over_safe b) (dotless_safe raw)

some_injective : {a b : Bytes} → some a ≡ some b → a ≡ b
some_injective h = cc h

-- What is written before a rest is read back, and the rest is left.
record Format (A : Type 0) : Type 0 where
  write : A → Bytes → Bytes
  read : Bytes → A × Bytes
  read-write : (a : A) (rest : Bytes) → read (write a rest) ≡ (a, rest)

abbrev read_text : Bytes → Bytes × Bytes
read_text [] = ([], [])
read_text (n ∷ s) = (take n s, drop n s)

read_text-text : (t rest : Bytes) → read_text (length t ∷ (t ++ rest)) ≡ (t, rest)
read_text-text t rest =
    rw (take_append (length t) t rest refl, drop_append (length t) t rest refl) refl

front : (t rest : Bytes) → take (length t) (t ++ rest) ≡ t
front t rest = take_append (length t) t rest refl

back : (t rest : Bytes) → drop (length t) (t ++ rest) ≡ rest
back t rest = drop_append (length t) t rest refl

abbrev text : Format Bytes
text = record {
  write = λ t rest. length t ∷ (t ++ rest);
  read = read_text;
  read-write = read_text-text;
}

module _ {A : Type 0} (f : Format A) where
  abbrev write_all : List A → Bytes → Bytes
  write_all [] rest = rest
  write_all (a ∷ xs) rest = f.write a (write_all xs rest)

  abbrev read_all : ℕ → Bytes → List A × Bytes
  read_all zero s = ([], s)
  read_all (suc n) s =
      let one = f.read s in let others = read_all n one.1 in (one.0 ∷ others.0, others.1)

  read_all-write_all :
      (xs : List A) (rest : Bytes) → read_all (length xs) (write_all xs rest) ≡ (xs, rest)
  read_all-write_all [] rest = refl
  read_all-write_all (a ∷ xs) rest =
      rw (f.read-write a (write_all xs rest), read_all-write_all xs rest) refl

  abbrev read_list : Bytes → List A × Bytes
  read_list [] = ([], [])
  read_list (n ∷ s) = read_all n s

  abbrev list : Format (List A)
  list = record {
    write = λ xs rest. length xs ∷ write_all xs rest;
    read = read_list;
    read-write = read_all-write_all;
  }

abbrev write_bootstrap : RawBootstrap → Bytes → Bytes
write_bootstrap b rest =
    (text.write b.name (text.write b.public_key ((list text).write b.endpoints rest)))

abbrev read_bootstrap : Bytes → RawBootstrap × Bytes
read_bootstrap s =
    let name = text.read s in
    let key = text.read name.1 in
    let endpoints = (list text).read key.1 in
    (record { name = name.0; public_key = key.0; endpoints = endpoints.0 }, endpoints.1)

read_bootstrap-write_bootstrap :
    (b : RawBootstrap) (rest : Bytes) → read_bootstrap (write_bootstrap b rest) ≡ (b, rest)
read_bootstrap-write_bootstrap b rest =
    let last = (list text).write b.endpoints rest in
    rw
      (
        front b.name (text.write b.public_key last),
        back b.name (text.write b.public_key last),
        front b.public_key last,
        back b.public_key last,
        read_all-write_all text b.endpoints rest,
      )
      refl

abbrev bootstrap : Format RawBootstrap
bootstrap = record {
  write = write_bootstrap;
  read = read_bootstrap;
  read-write = read_bootstrap-write_bootstrap;
}

abbrev write_invite : RawInvite → Bytes
write_invite r =
    r.v
    ∷ r.issued_unix
    ∷ r.expires_unix
    ∷ r.listen_port
    ∷ text.write r.id (
        text.write r.network_name
          (text.write r.network_key (text.write r.issuer ((list bootstrap).write r.bootstrap []))))

abbrev read_invite : Bytes → Option RawInvite
read_invite (v ∷ issued ∷ expires ∷ port ∷ s) =
    let id = text.read s in
    let name = text.read id.1 in
    let key = text.read name.1 in
    let issuer = text.read key.1 in
    some (record {
      v = v;
      id = id.0;
      network_name = name.0;
      network_key = key.0;
      issuer = issuer.0;
      issued_unix = issued;
      expires_unix = expires;
      listen_port = port;
      bootstrap = ((list bootstrap).read issuer.1).0;
    })
read_invite _ = none

read_invite-write_invite : (r : RawInvite) → read_invite (write_invite r) ≡ some r
read_invite-write_invite r =
    let last = (list bootstrap).write r.bootstrap [] in
    let three = text.write r.issuer last in
    let two = text.write r.network_key three in
    let one = text.write r.network_name two in
    rw
      (
        front r.id one,
        back r.id one,
        front r.network_name two,
        back r.network_name two,
        front r.network_key three,
        back r.network_key three,
        front r.issuer last,
        back r.issuer last,
        read_all-write_all bootstrap r.bootstrap [],
      )
      refl

abbrev formats : Formats
formats = record {
  codecs = toy_codecs;
  to_vec = λ raw. some (write_invite raw);
  from_slice = read_invite;
  written = λ raw. (write_invite raw, refl);
  from_slice-to_vec =
      λ raw {json} h. ap read_invite (sym (some_injective h)) ∙ read_invite-write_invite raw;
  base64url = dotless;
  url_safe = dotless_safe;
}

abbrev seed : Bytes
seed = repeat_byte 32 4

abbrev ip : Bytes
ip = 0x20 ∷ 0x01 ∷ repeat_byte 13 0 ++ 5 ∷ []

abbrev invite : Invite
unfolding new_invite
invite =
    new_invite (repeat_byte 16 3) (b'h' ∷ b'.' ∷ b'n' ∷ []) (repeat_byte 32 9)
      (toy_ed25519.public seed) 1000 3600 4193
      (record { name = b'b' ∷ []; public_key = repeat_byte 32 1; endpoints = endpoint ip 4193 ∷ [] }
        ∷ [])

invite-IsInvite : IsInvite formats invite
unfolding new_invite
invite-IsInvite = record {
  id_length = refl;
  network_key_length = refl;
  some_bootstrap = omega arith;
  few_bootstrap = omega arith;
  bootstrap = (
    record {
      key = record { key_length = refl; on_curve = refl };
      endpoints = (
        record {
          ip = record { octet_count = refl; octets = are_bytes-AreBytes ip refl };
          port = omega arith;
          scope_id = omega arith;
          flowinfo = refl;
        },
        tt,
      );
    },
    tt,
  );
}

abbrev json : Bytes
unfolding raw_invite new_invite to_be_bytes
json = write_invite (raw_invite formats invite)

abbrev token : Bytes
unfolding raw_invite new_invite to_be_bytes
token = token_of formats (map over json) (toy_ed25519.sign seed (map over json))

issued : encode formats seed invite ≡ ok token
unfolding encode raw_invite new_invite to_be_bytes check_bootstrap_len list_same
issued = refl

token_short : length token ≤ max_token_len
unfolding raw_invite new_invite to_be_bytes
token_short = omega arith

decode-encode_invite_example : decode formats token ≡ ok invite
decode-encode_invite_example =
    decode-encode_invite formats seed invite invite-IsInvite issued token_short

decode-IsSigned_example : IsSigned formats token invite
decode-IsSigned_example =
    decode-IsSigned formats token
      (decode-encode_invite formats seed invite invite-IsInvite issued token_short)

new_invite-expiry_example :
    (check_not_expired
        (new_invite (repeat_byte 16 3) [] (repeat_byte 32 9) (repeat_byte 32 1) 5 (2 ^ 64) 4193 [])
        7
      ≡ ok tt)
    ↔ (7 ≤ 5 + 2 ^ 64)
new_invite-expiry_example =
    new_invite-expiry (repeat_byte 16 3) [] (repeat_byte 32 9) (repeat_byte 32 1) 5 (2 ^ 64) 4193 []
      7 (omega arith)
