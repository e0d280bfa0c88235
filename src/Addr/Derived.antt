-- ===== src/Addr/Derived.antt =====
-- Derived overlay addresses, and the check that no two nodes share a subnet id.
use hextet.Base.{
  ℕ, ◌≡◌, ◌↔◌, inr, refl, ap, sym, ◌∙◌, true, false, List, [], ◌∷◌, ◌++◌, All, length, take, arith,
  ℕ_equality, list_equality, none, unique, contains, take_append, length-append, length-take,
}
use hextet.Base.Assoc.{lookup, insert, lookup-insert}
use hextet.Base.Bytes.{Bytes, AreBytes}
use hextet.Base.Bytes.Endian.{
  to_be_bytes, from_be_bytes, length-to_be_bytes, AreBytes-to_be_bytes, AreBytes-append,
}
use hextet.Base.Bytes.Glue.{AreBytes-take}
use mathlib.Core.List.{append_assoc}
use hextet.Addr.Endpoints.{is_ula_iff, is_usable_endpoint_addr_ula}
use hextet.Crypto.{repeat_byte}
use hextet.Base.Bytes.Slice.{get_or}
use hextet.Base.Outcome.{ok}
use hextet.Addr.{
  is_usable_endpoint_addr, Sha256, Hkdf, derive_prefix, derive_node_addr, NodeAddr,
  check_subnet_collisions, check_collisions_from, subnet_label, iid_label, network_id,
}

module _ (s : Sha256) (k : Hkdf) (network_key pubkey : Bytes) where
  abbrev prefix : Bytes
  prefix = derive_prefix k network_key

  abbrev subnet : Bytes
  subnet = to_be_bytes 2 (from_be_bytes (take 2 (s.digest (subnet_label ++ pubkey))))

  abbrev iid : Bytes
  iid = take 8 (s.digest (iid_label ++ pubkey))

  abbrev zeros : Bytes
  zeros = repeat_byte 8 0

  length-prefix : length prefix ≡ 6
  unfolding derive_prefix
  length-prefix = omega (arith, k.expand_length network_key network_id 5)

  AreBytes-prefix : AreBytes prefix
  unfolding derive_prefix
  AreBytes-prefix = (omega arith, k.expand_bytes network_key network_id 5)

  front : take 8 ((prefix ++ subnet) ++ zeros) ≡ prefix ++ subnet
  front =
      take_append 8 (prefix ++ subnet) zeros
        (omega (arith, length-append prefix subnet, length-prefix, length-to_be_bytes))

  -- Whatever follows the prefix, the address is a ULA.
  prefixed : (rest : Bytes) → AreBytes rest → is_usable_endpoint_addr (prefix ++ rest) ≡ false
  unfolding derive_prefix get_or
  prefixed rest bs =
      is_usable_endpoint_addr_ula (prefix ++ rest) (
        (is_ula_iff (prefix ++ rest) (AreBytes-append prefix rest AreBytes-prefix bs)).1 (inr refl))

  -- A node's derived site and address lie in the network's own /48, and can never be taken for an
  -- endpoint: a tunnel is not routed into itself.
  pub derive_node_addr_inside :
      {n : NodeAddr}
      → derive_node_addr s prefix pubkey ≡ ok n
      → (take 6 n.site ≡ prefix)
        × (take 8 n.address ≡ take 8 n.site)
        × (length n.address ≡ 16)
        × (is_usable_endpoint_addr n.address ≡ false)
        × (is_usable_endpoint_addr n.site ≡ false)
  unfolding derive_node_addr
  derive_node_addr_inside {n} h =
      let (is_site, is_address) = values in
      (
        ap (take 6) is_site
            ∙ ap (take 6) (append_assoc prefix subnet zeros)
            ∙ take_append 6 prefix (subnet ++ zeros) (sym length-prefix),
        ap (take 8) is_address
            ∙ ap (take 8) (ap (λ t. t ++ iid) front)
            ∙ take_append 8 (prefix ++ subnet) iid (sym eight)
            ∙ sym (ap (take 8) is_site ∙ front),
        ap length is_address
            ∙ ap length (ap (λ t. t ++ iid) front)
            ∙ omega (
              arith,
              length-append (prefix ++ subnet) iid,
              eight,
              length-take 8 (s.digest (iid_label ++ pubkey))
                  (omega (arith, s.digest_length (iid_label ++ pubkey))),
            ),
        ap is_usable_endpoint_addr
              (is_address ∙ ap (λ t. t ++ iid) front ∙ append_assoc prefix subnet iid)
            ∙ prefixed (subnet ++ iid) (
                AreBytes-append subnet iid (AreBytes-to_be_bytes 2 _)
                  (AreBytes-take 8 _ (s.digest_bytes _))),
        ap is_usable_endpoint_addr (is_site ∙ append_assoc prefix subnet zeros)
            ∙ prefixed (subnet ++ zeros)
                (AreBytes-append subnet zeros (AreBytes-to_be_bytes 2 _) (omega arith)),
      )
    where
      eight : length (prefix ++ subnet) ≡ 8
      eight = omega (arith, length-append prefix subnet, length-prefix, length-to_be_bytes)

      values :
          (n.site ≡ (prefix ++ subnet) ++ zeros)
          × (n.address ≡ take 8 ((prefix ++ subnet) ++ zeros) ++ iid)
      values = ground arith

abbrev pub ids : List (Bytes × NodeAddr) → List ℕ
ids [] = []
ids ((name, addr) ∷ nodes) = addr.subnet_id ∷ ids nodes

unseen_iff :
    (a : ℕ) (name : Bytes) (seen : List (ℕ × Bytes)) (xs : List ℕ)
    → All (λ i. lookup i (insert a name seen) ≡ none) xs
      ↔ ((contains xs a ≡ false) × All (λ i. lookup i seen ≡ none) xs)
unfolding contains
unseen_iff a name seen [] = (λ h. (refl, tt), λ h. tt)
unseen_iff a name seen (x ∷ xs) =
    let later = unseen_iff a name seen xs in
    let here = lookup-insert a x name seen in
    (
      λ h. let (r, t) = later.0 h.1 in (ground arith, (ground arith, t)),
      λ h. (ground arith, later.1 (ground arith, h.1.1)),
    )

-- The loop passes exactly when the ids are distinct, and none is in the map yet.
check_collisions_from_iff :
    (seen : List (ℕ × Bytes)) (nodes : List (Bytes × NodeAddr))
    → (check_collisions_from seen nodes ≡ ok tt)
      ↔ ((unique (ids nodes) ≡ true) × All (λ i. lookup i seen ≡ none) (ids nodes))
unfolding check_collisions_from unique
check_collisions_from_iff seen [] = (λ h. (refl, tt), λ h. refl)
check_collisions_from_iff seen ((name, addr) ∷ nodes) =
    let later = check_collisions_from_iff (insert addr.subnet_id name seen) nodes in
    let fresh = unseen_iff addr.subnet_id name seen (ids nodes) in
    (
      λ h.
          let absent : lookup addr.subnet_id seen ≡ none = ground arith in
          let passed : check_collisions_from (insert addr.subnet_id name seen) nodes ≡ ok tt =
            ground arith in
          let (distinct, unseen) = later.0 passed in
          let (here, others) = fresh.0 unseen in (rw here distinct, (absent, others)),
      λ h.
          let here : contains (ids nodes) addr.subnet_id ≡ false = ground arith in
          rw (h.1.0, check_collisions_from) (later.1 (ground arith, fresh.1 (here, h.1.1))),
    )

-- The check passes exactly when no two of the nodes have one subnet id.
pub check_subnet_collisions_iff :
    (nodes : List (Bytes × NodeAddr))
    → (check_subnet_collisions nodes ≡ ok tt) ↔ (unique (ids nodes) ≡ true)
unfolding check_subnet_collisions lookup
check_subnet_collisions_iff nodes =
    let loop = check_collisions_from_iff [] nodes in
    (λ h. (loop.0 h).0, λ h. loop.1 (h, nothing (ids nodes)))
  where
    nothing : (xs : List ℕ) → All (λ i. lookup i (let m : List (ℕ × Bytes) = [] in m) ≡ none) xs
    nothing [] = tt
    nothing (x ∷ xs) = (refl, nothing xs)
