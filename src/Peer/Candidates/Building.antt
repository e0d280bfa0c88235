-- ===== src/Peer/Candidates/Building.antt =====
-- The list that `build_candidates` returns.
use hextet.Base.{
  ℕ, ◌<◌, ◌≤◌, ◌-◌, ◌≡◌, refl, sym, ◌∙◌, ap, subst, ◌⊎◌, inl, inr, arith, Bool, true, false, ◌||◌,
  ltb, List, [], ◌∷◌, ◌++◌, length, map, contains, contains-append, unique, get_elem?, Option, none,
  some, lt→ltb,
}
use mathlib.Core.List.{map-append}
use hextet.Endpoint.{Endpoint, normalize, endpoint_equality}
use hextet.Peer.Candidates.{
  CandidateSources, max_candidates, push_unique, push_all, to_list, direct_cap, build_candidates,
  endpoint_of_source, endpoint_of_cached,
}
use hextet.Peer.Candidates.Pushing.{
  push_unique_there, push_all-unique, length-push_all, length-push_all_ge, push_all-contains,
  push_all_first, push_all_there, push_all-only, push_all-append,
}
use hextet.Peer.Cache.{CachedEndpoint, sort_newest}
use hextet.Peer.Cache.Sorting.{sort_newest-contains}
use hextet.Peer.Fsm.Search.{unique_nil}

-- The endpoints of the sources that are not relays.
abbrev pub direct : CandidateSources → List Endpoint
direct sources =
    to_list sources.last_good
    ++ (map endpoint_of_source sources.discovered
        ++ (sources.configured ++ map endpoint_of_cached (sort_newest sources.cached)))

build_candidates-push_all :
    (sources : CandidateSources)
    → build_candidates sources
      ≡ push_all
          (push_all [] (direct sources) (direct_cap sources))
          (to_list sources.relay)
          max_candidates
unfolding build_candidates
build_candidates-push_all sources =
    let cap = direct_cap sources in
    let a = to_list sources.last_good in
    let b = map endpoint_of_source sources.discovered in
    let d = map endpoint_of_cached (sort_newest sources.cached) in
    ap (λ l. push_all l (to_list sources.relay) max_candidates)
      (sym (
        push_all-append [] a (b ++ (sources.configured ++ d)) cap
        ∙ push_all-append (push_all [] a cap) b (sources.configured ++ d) cap
        ∙ push_all-append (push_all (push_all [] a cap) b cap) sources.configured d cap))

-- There are at most eight candidates, and none twice, whatever the sources are.
build_candidates-unique :
    (sources : CandidateSources)
    → (length (build_candidates sources) ≤ max_candidates)
      × (unique (build_candidates sources) ≡ true)
build_candidates-unique sources = rw (build_candidates-push_all sources) (
  length-push_all (push_all [] (direct sources) (direct_cap sources)) (to_list sources.relay)
      max_candidates max_candidates (omega arith)
      (length-push_all [] (direct sources) (direct_cap sources) max_candidates (omega arith)
        (omega arith)),
  push_all-unique (push_all [] (direct sources) (direct_cap sources)) (to_list sources.relay)
      max_candidates (push_all-unique [] (direct sources) (direct_cap sources) unique_nil),
)

added :
    (out : List Endpoint) (ep : Endpoint)
    → length out ≤ 7
    → contains (push_all out (ep ∷ []) max_candidates) (normalize ep) ≡ true
unfolding push_all
added out ep h = elim (push_unique_there out ep max_candidates) [
  | inl there ↦ there
  | inr full ↦ absurd (omega (arith, h, full))
]

-- All that the sources offer, in any order.
abbrev pub offered : CandidateSources → List Endpoint
offered sources =
    to_list sources.last_good
    ++ (map endpoint_of_source sources.discovered
        ++ (sources.configured ++ (map endpoint_of_cached sources.cached ++ to_list sources.relay)))

-- A relay among the sources is always a candidate, however many direct endpoints there are.
pub build_candidates-relay :
    (sources : CandidateSources) (ep : Endpoint)
    → sources.relay ≡ some ep
    → contains (build_candidates sources) (normalize ep) ≡ true
build_candidates-relay sources ep q =
    let before = push_all [] (direct sources) (direct_cap sources) in
    let few : length before ≤ direct_cap sources =
      length-push_all [] (direct sources) (direct_cap sources) (direct_cap sources) (omega arith)
        (omega arith) in
    let cap : direct_cap sources ≡ 7 = ap (λ r. max_candidates - length (to_list r)) q in
    rw (build_candidates-push_all sources) (
      subst (λ r. contains (push_all before (to_list r) max_candidates) (normalize ep) ≡ true)
        (sym q) (added before ep (omega (arith, few, cap))))

some_room : (relay : Option Endpoint) → 0 < max_candidates - length (to_list relay)
some_room none = omega arith
some_room (some ep) = omega arith

started :
    (ep : Endpoint) (eps : List Endpoint) (cap : ℕ)
    → 0 < cap
    → get_elem? (push_all [] (ep ∷ eps) cap) 0 ≡ some (normalize ep)
unfolding push_all push_unique contains
started ep eps cap h =
    let room : ltb 0 cap ≡ true = lt→ltb 0 cap h in
    push_all_first (push_unique [] ep cap) eps (normalize ep) cap (rw room refl)

-- The endpoint that worked last, if there is one, is the first candidate.
build_candidates_first :
    (sources : CandidateSources) (ep : Endpoint)
    → sources.last_good ≡ some ep
    → get_elem? (build_candidates sources) 0 ≡ some (normalize ep)
build_candidates_first sources ep q =
    let before = push_all [] (direct sources) (direct_cap sources) in
    rw (build_candidates-push_all sources) (
      push_all_first before (to_list sources.relay) (normalize ep) max_candidates (
        subst
          (λ g.
            get_elem?
              (push_all []
                (to_list g
                  ++ (map endpoint_of_source sources.discovered
                      ++ (sources.configured
                          ++ map endpoint_of_cached (sort_newest sources.cached))))
                (direct_cap sources))
              0
            ≡ some (normalize ep))
          (sym q)
          (started ep
            (map endpoint_of_source sources.discovered
              ++ (sources.configured ++ map endpoint_of_cached (sort_newest sources.cached)))
            (direct_cap sources) (some_room sources.relay))))

-- Membership in what is offered, source by source.
abbrev among : List Endpoint → Endpoint → Bool
among xs x = contains (map normalize xs) x

among-append :
    (xs ys : List Endpoint) (x : Endpoint) → among (xs ++ ys) x ≡ (among xs x || among ys x)
among-append xs ys x =
    ap (λ l. contains l x) (map-append normalize xs ys)
    ∙ contains-append (map normalize xs) (map normalize ys) x

map-map :
    (cs : List CachedEndpoint)
    → map normalize (map endpoint_of_cached cs) ≡ map (λ c. normalize (endpoint_of_cached c)) cs
map-map [] = refl
map-map (c ∷ cs) = ap (◌∷◌ (normalize (endpoint_of_cached c))) (map-map cs)

among_cached :
    (cs : List CachedEndpoint) (x : Endpoint)
    → among (map endpoint_of_cached (sort_newest cs)) x ≡ among (map endpoint_of_cached cs) x
among_cached cs x =
    ap (λ l. contains l x) (map-map (sort_newest cs))
    ∙ sort_newest-contains (λ c. normalize (endpoint_of_cached c)) cs x
    ∙ sym (ap (λ l. contains l x) (map-map cs))

among-offered :
    (sources : CandidateSources) (x : Endpoint)
    → among (offered sources) x ≡ (among (direct sources) x || among (to_list sources.relay) x)
among-offered sources x =
    let g = to_list sources.last_good in
    let d = map endpoint_of_source sources.discovered in
    let c = map endpoint_of_cached sources.cached in
    let r = to_list sources.relay in
    let s = map endpoint_of_cached (sort_newest sources.cached) in
    ground (
      arith,
      among-append g (d ++ (sources.configured ++ (c ++ r))) x,
      among-append d (sources.configured ++ (c ++ r)) x,
      among-append sources.configured (c ++ r) x,
      among-append c r x,
      among-append g (d ++ (sources.configured ++ s)) x,
      among-append d (sources.configured ++ s) x,
      among-append sources.configured s x,
      among_cached sources.cached x,
    )

nothing : (x : Endpoint) → contains [] x ≡ false
unfolding contains
nothing x = refl

-- Every candidate is an endpoint that some source offers.
build_candidates-offered :
    (sources : CandidateSources) (x : Endpoint)
    → contains (build_candidates sources) x ≡ true
    → contains (map normalize (offered sources)) x ≡ true
build_candidates-offered sources x h =
    let before = push_all [] (direct sources) (direct_cap sources) in
    let relay = to_list sources.relay in
    ground (
      arith,
      among-offered sources x,
      push_all-only before relay x max_candidates
          (ap (λ l. contains l x) (sym (build_candidates-push_all sources)) ∙ h),
      push_all-only [] (direct sources) x (direct_cap sources),
      nothing x,
    )

-- Every endpoint that a source offers is a candidate, unless at least eight places are taken, or
-- seven where there is a relay.
pub build_candidates_full :
    (sources : CandidateSources) (x : Endpoint)
    → contains (map normalize (offered sources)) x ≡ true
    → (contains (build_candidates sources) x ≡ true)
      ⊎ (direct_cap sources ≤ length (build_candidates sources))
build_candidates_full sources x h =
    let before = push_all [] (direct sources) (direct_cap sources) in
    let relay = to_list sources.relay in
    rw (build_candidates-push_all sources) (
      ground (
        arith,
        h,
        among-offered sources x,
        push_all_there [] (direct sources) x (direct_cap sources),
        push_all-contains before relay x max_candidates,
        push_all_there before relay x max_candidates,
        length-push_all_ge before relay max_candidates,
      ))
