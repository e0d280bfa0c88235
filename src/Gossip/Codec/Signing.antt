-- ===== src/Gossip/Codec/Signing.antt =====
-- The entries that the `sign_*` functions make.
use hextet.Base.{
  length, ltb, ℕ, List, ◌≡◌, refl, sym, =?_self, ◌∙◌, ap, subst, true, false, not, Bool, ◌=?◌,
  ℕ_equality, list_equality,
}
use hextet.Addr.{Ipv6Addr}
use hextet.Base.Bytes.{Bytes}
use hextet.Base.Outcome.{Outcome, ok, err, panic, reject_if, ◌>>◌, >>=-eq-ok, ok_injective}
use hextet.Crypto.{Ed25519, PublicKey}
use hextet.Gossip.Entry.{
  Entry, Kind, GossipError, name_too_long, too_many_addrs, with_sig, node_of, seq_of, kind_of,
  signer_of, sig_of,
}
use hextet.Gossip.Codec.{
  max_name, max_addrs, sign_endpoint, signed_region, verify, is_valid, signer_ok, sign, sign_member,
  no_sig,
}

-- The signature is not in the signed region.
signed_region-with_sig : (s : Bytes) (x : Entry) → signed_region (with_sig s x) ≡ signed_region x
unfolding signed_region
signed_region-with_sig s (Entry.endpoint node endpoints port seq sig) = refl
signed_region-with_sig s (Entry.member node name site seq sig issued_by invite_id) = refl
signed_region-with_sig s (Entry.revocation node seq sig issued_by) = refl

signer_of-with_sig : (s : Bytes) (x : Entry) → signer_of (with_sig s x) ≡ signer_of x
signer_of-with_sig s (Entry.endpoint node endpoints port seq sig) = refl
signer_of-with_sig s (Entry.member node name site seq sig issued_by invite_id) = refl
signer_of-with_sig s (Entry.revocation node seq sig issued_by) = refl

sig_of-with_sig : (s : Bytes) (x : Entry) → sig_of (with_sig s x) ≡ s
sig_of-with_sig s (Entry.endpoint node endpoints port seq sig) = refl
sig_of-with_sig s (Entry.member node name site seq sig issued_by invite_id) = refl
sig_of-with_sig s (Entry.revocation node seq sig issued_by) = refl

signer_ok-with_sig : (s : Bytes) (x : Entry) → signer_ok (with_sig s x) ≡ signer_ok x
signer_ok-with_sig s (Entry.endpoint node endpoints port seq sig) = refl
signer_ok-with_sig s (Entry.member node name site seq sig issued_by invite_id) = refl
signer_ok-with_sig s (Entry.revocation node seq sig issued_by) = refl

accepted :
    (refused : Bool) (why : GossipError) (rest : Outcome GossipError Entry) (entry : Entry)
    → (reject_if refused why >> rest) ≡ ok entry
    → rest ≡ ok entry
accepted true why rest entry h = absurd (cc h)
accepted false why rest entry h = h

module _ (e : Ed25519) (seed : Bytes) where
  verify_of :
      (x : Entry) (region : Bytes)
      → signed_region x ≡ ok region
      → verify e x ≡ e.verify (signer_of x) region (sig_of x)
  unfolding verify
  verify_of x region h =
      ap
        (λ o. elim o [ ok r ↦ e.verify (signer_of x) r (sig_of x) | err _ ↦ false | panic ↦ false ])
        h

  sign-is_valid :
      (x y : Entry)
      → signer_ok x ≡ true
      → signer_of x ≡ e.public seed
      → sign e seed x ≡ ok y
      → is_valid e y ≡ true
  unfolding sign is_valid
  sign-is_valid x y allowed signer h =
      let (region, got, made) = >>=-eq-ok (signed_region x) _ h in
      let s = e.sign seed region in
      let good =
        verify_of (with_sig s x) region (signed_region-with_sig s x ∙ got)
        ∙ ap (λ k. e.verify k region (sig_of (with_sig s x))) (signer_of-with_sig s x ∙ signer)
        ∙ ap (λ t. e.verify (e.public seed) region t) (sig_of-with_sig s x)
        ∙ e.verify_sign seed region in
      subst (λ z. is_valid e z ≡ true) (ok_injective made)
        (rw (signer_ok-with_sig s x, allowed) good)

  -- An admission that a node signs for another node, and that is made at all, is valid.
  sign_member-is_valid :
      (node : PublicKey) (name : Bytes) (site seq : ℕ) (invite_id : Bytes) (entry : Entry)
      → (e.public seed =? node) ≡ false
      → sign_member e seed node name site seq invite_id ≡ ok entry
      → is_valid e entry ≡ true
  unfolding sign_member
  sign_member-is_valid node name site seq invite_id entry other h =
      let made =
        accepted (ltb max_name (length name)) (name_too_long (length name))
          (sign e seed (Entry.member node name site seq no_sig (e.public seed) invite_id)) entry
          h in
      sign-is_valid (Entry.member node name site seq no_sig (e.public seed) invite_id) entry
        (ap not other) refl made

  -- An endpoint entry that is made at all is valid, and has the given node and sequence number.
  pub sign_endpoint_made :
      (endpoints : List Ipv6Addr) (port seq : ℕ) (entry : Entry)
      → sign_endpoint e seed endpoints port seq ≡ ok entry
      → (is_valid e entry ≡ true)
        × (node_of entry ≡ e.public seed)
        × (seq_of entry ≡ seq)
        × (kind_of entry ≡ Kind.endpoint)
  unfolding sign_endpoint sign
  sign_endpoint_made endpoints port seq entry h =
      let x = Entry.endpoint (e.public seed) endpoints port seq no_sig in
      let made =
        accepted (ltb max_addrs (length endpoints)) (too_many_addrs (length endpoints))
          (sign e seed x) entry h in
      let (region, got, done) = >>=-eq-ok (signed_region x) _ made in
      let is_entry = ok_injective done in
      (
        sign-is_valid x entry (=?_self {A = Bytes} (e.public seed)) refl made,
        ap node_of (sym is_entry),
        ap seq_of (sym is_entry),
        ap kind_of (sym is_entry),
      )
