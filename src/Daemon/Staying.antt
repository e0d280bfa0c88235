-- ===== src/Daemon/Staying.antt =====
-- A direct connection that is still vouched for is left alone.
use hextet.Base.{
  ◌≡◌, refl, sym, ap, ◌∙◌, subst, ℕ, Bool, true, false, not, ◌&&◌, List, [], ◌∷◌, none, some, ◌⊎◌,
  inl, inr, Bool-cases, if◌then◌else◌, arith,
}
use hextet.Daemon.{PeerRuntime, relist, then_retry, with_fsm, candidates_for}
use hextet.Daemon.Discovery.{
  Discovered, Heard, with_cache, follow, react, discover, relayed_via_endpoint, replaced, is_gossip,
  has_authoritative, is_configured, still_reported_by_authoritative_source,
  reported_by_reliable_source,
}
use hextet.Endpoint.{Endpoint, endpoint_equality}
use hextet.Peer.Cache.{EndpointCache, evict}
use hextet.Peer.Candidates.{Source}
use hextet.Peer.Fsm.{PeerFsm, connected, set_candidates}
use hextet.Peer.Fsm.Punching.{set_candidates_connected}

-- The peer is connected as before, the cache is untouched, and nothing is done.
abbrev pub Stays : Endpoint → EndpointCache → Heard → Type 0
Stays ep cache none = ⊥
Stays ep cache (some (peer, kept, actions)) =
    (peer.fsm.state ≡ connected ep) × (kept ≡ cache) × (actions ≡ [])

-- Configured by hand, or reported by a channel other than gossip.
abbrev pub IsVouched : PeerRuntime → Discovered → Endpoint → Type 0
IsVouched peer discovered ep =
    (is_configured peer.configured ep ≡ true)
    ⊎ (still_reported_by_authoritative_source discovered ep ≡ true)

authoritative :
    (discovered : Discovered) (ep : Endpoint)
    → still_reported_by_authoritative_source discovered ep ≡ true
    → has_authoritative discovered ≡ true
unfolding still_reported_by_authoritative_source
authoritative [] ep h = absurd (cc h)
authoritative ((s, e) ∷ rest) ep h = elim (Bool-cases (is_gossip s)) [
  | inr own ↦ rw own refl
  | inl hearsay ↦
      let later : still_reported_by_authoritative_source rest ep ≡ true =
        ground (arith, hearsay, h) in
      rw hearsay (authoritative rest ep later)
]

reliable :
    (discovered : Discovered) (ep : Endpoint)
    → still_reported_by_authoritative_source discovered ep ≡ true
    → reported_by_reliable_source discovered ep ≡ true
unfolding reported_by_reliable_source
reliable discovered ep h = rw (authoritative discovered ep h) h

relist-Stays :
    (peer : PeerRuntime) (cache : EndpointCache) (wall : ℕ) (ep : Endpoint)
    → peer.fsm.state ≡ connected ep
    → Stays ep cache (with_cache cache (relist peer cache wall))
unfolding relist
relist-Stays peer cache wall ep e =
    let fsm = peer.fsm in
    let eps = candidates_for peer cache in
    let same : (let m : PeerFsm = record {
      candidates = fsm.candidates;
      state = connected ep;
      last_transition = fsm.last_transition;
      last_rotate = fsm.last_rotate;
    } in
          m)
        ≡ fsm =
      ap
        (λ s. record {
          candidates = fsm.candidates;
          state = s;
          last_transition = fsm.last_transition;
          last_rotate = fsm.last_rotate;
        })
        (sym e) in
    let stepped =
      ap (λ m. set_candidates m eps wall) (sym same)
      ∙ set_candidates_connected fsm.candidates ep fsm.last_transition fsm.last_rotate eps wall in
    subst (λ s. Stays ep cache (with_cache cache (with_fsm peer [] s))) (sym stepped)
      (refl, refl, refl)

follow-Stays :
    (peer : PeerRuntime) (cache : EndpointCache) (wall : ℕ) (ep : Endpoint)
    → peer.fsm.state ≡ connected ep
    → IsVouched peer peer.discovered ep
    → Stays ep cache (follow peer cache wall (connected ep))
follow-Stays peer cache wall ep e vouched =
    by_tests (is_configured peer.configured ep) (reported_by_reliable_source peer.discovered ep)
      (still_reported_by_authoritative_source peer.discovered ep) (tests vouched)
  where
    tests :
        IsVouched peer peer.discovered ep
        → (is_configured peer.configured ep ≡ true)
          ⊎ ((reported_by_reliable_source peer.discovered ep ≡ true)
              × (still_reported_by_authoritative_source peer.discovered ep ≡ true))
    tests (inl h) = inl h
    tests (inr h) = inr (reliable peer.discovered ep h, h)

    by_tests :
        (c r s : Bool)
        → (c ≡ true) ⊎ ((r ≡ true) × (s ≡ true))
        → Stays ep cache (
            let kept = if not c && not r then evict cache peer.key_b64 ep else cache in
            if not c && not s
            then with_cache kept (then_retry ep wall false (relist peer kept wall))
            else with_cache kept (relist peer kept wall))
    by_tests true r s h = relist-Stays peer cache wall ep e
    by_tests false true true h = relist-Stays peer cache wall ep e
    by_tests false true false h = absurd (elim h [ inl c ↦ cc c | inr q ↦ cc q.1 ])
    by_tests false false s h = absurd (elim h [ inl c ↦ cc c | inr q ↦ cc q.0 ])

-- A report of new addresses does not disturb a direct connection whose endpoint is configured, or is
-- still reported by a channel other than gossip: the machine stays connected to it, no action is
-- taken, and the endpoint stays in the cache.
pub discover-Stays :
    (peer : PeerRuntime) (cache : EndpointCache) (source : Source) (eps : List Endpoint) (wall : ℕ)
    (ep : Endpoint)
    → peer.fsm.state ≡ connected ep
    → relayed_via_endpoint peer ≡ none
    → IsVouched peer (replaced source eps peer.discovered) ep
    → Stays ep cache (discover peer cache source eps wall)
unfolding discover relayed_via_endpoint
discover-Stays peer cache source eps wall ep e unrelayed vouched =
    let heard : PeerRuntime = record peer { discovered = replaced source eps peer.discovered } in
    subst (λ o. Stays ep cache (react heard cache wall o peer.relay)) (sym unrelayed)
      (subst (λ s. Stays ep cache (follow heard cache wall s)) (sym e)
        (follow-Stays heard cache wall ep e vouched))
