-- ===== src/Routes/Manager/Syncing.antt =====
-- What `sync` tracks when it succeeds, and when it fails.
use hextet.Base.{
  ◌≡◌, refl, ◌∙◌, ap, arith, Bool, true, false, ◌||◌, ◌&&◌, List, [], ◌∷◌, ◌++◌, contains,
  contains-append, if◌then◌else◌, ◌=?◌, =?_self, none, some, Bool-cases, inl, inr, ℕ_equality,
  list_equality,
}
use hextet.Base.Assoc.{lookup, insert, lookup-insert}
use hextet.Base.Bytes.{Bytes}
use hextet.Routes.{Ipv6Route, route_equality, route_same_iff}
use hextet.Routes.Manager.{
  Backend, State, SyncOutcome, Progress, routes_of, or_empty, drop_unwanted, add_missing, started,
  sync, conclude, resumed, delete_route,
}

module _ (backend : Backend) where
  contains_snoc :
      (xs : List Ipv6Route) (x r : Ipv6Route)
      → contains (xs ++ x ∷ []) r ≡ (contains xs r || x =? r)
  unfolding contains
  contains_snoc xs x r = ground (arith, contains-append xs (x ∷ []) r)

  drop_unwanted-keep :
      (desired current : List Ipv6Route) (p : Progress) (r : Ipv6Route)
      → (drop_unwanted backend desired current p).finished ≡ true
      → contains (drop_unwanted backend desired current p).keep r
        ≡ (contains p.keep r || (contains current r && contains desired r))
  unfolding drop_unwanted contains
  drop_unwanted-keep desired [] p r h = ground arith
  drop_unwanted-keep desired (route ∷ current) p r h =
      let kept : Progress = record {
        table = p.table;
        keep = p.keep ++ route ∷ [];
        moved = p.moved;
        finished = p.finished;
      } in
      let dropped : Progress = record {
        table = delete_route route p.table;
        keep = p.keep;
        moved = p.moved ++ route ∷ [];
        finished = p.finished;
      } in
      ground (
        arith,
        h,
        drop_unwanted-keep desired current kept r,
        drop_unwanted-keep desired current dropped r,
        contains_snoc p.keep route r,
        route_same_iff route r,
      )

  add_missing-keep :
      (desired : List Ipv6Route) (p : Progress) (r : Ipv6Route)
      → (add_missing backend desired p).finished ≡ true
      → contains (add_missing backend desired p).keep r ≡ (contains p.keep r || contains desired r)
  unfolding add_missing contains
  add_missing-keep [] p r h = ground arith
  add_missing-keep (route ∷ desired) p r h =
      let added : Progress = record {
        table = p.table ++ route ∷ [];
        keep = p.keep ++ route ∷ [];
        moved = p.moved ++ route ∷ [];
        finished = p.finished;
      } in
      ground (
        arith,
        h,
        add_missing-keep desired p r,
        add_missing-keep desired added r,
        contains_snoc p.keep route r,
        route_same_iff route r,
      )

nothing : (r : Ipv6Route) → contains [] r ≡ false
unfolding contains
nothing r = refl

routes_of-insert :
    (key : Bytes) (routes table : List Ipv6Route) (installed : List (Bytes × List Ipv6Route))
    → routes_of (record { table = table; installed = insert key routes installed }) key ≡ routes
routes_of-insert key routes table installed =
    ap or_empty (lookup-insert key key routes installed)
    ∙ ap (λ b. or_empty (if b then some routes else lookup key installed)) (=?_self {A = Bytes} key)

conclude_failed :
    (key : Bytes) (routes : List Ipv6Route) (installed : List (Bytes × List Ipv6Route))
    (p q : Progress)
    → (conclude key (insert key routes installed) p q).1 ≡ none
    → routes_of (conclude key (insert key routes installed) p q).0 key ≡ routes
unfolding conclude
conclude_failed key routes installed p q h = elim (Bool-cases p.finished) [
  | inr early ↦ rw early (routes_of-insert key routes p.table installed)
  | inl dropped ↦ elim (Bool-cases q.finished) [
    | inr late ↦ rw (dropped, late) (routes_of-insert key routes q.table installed)
    | inl done ↦ absurd (ground (arith, h, dropped, done))
  ]
]

conclude_done :
    (key : Bytes) (entered : List (Bytes × List Ipv6Route)) (p q : Progress) (outcome : SyncOutcome)
    → (conclude key entered p q).1 ≡ some outcome
    → (p.finished ≡ true)
      × (q.finished ≡ true)
      × (routes_of (conclude key entered p q).0 key ≡ q.keep)
unfolding conclude
conclude_done key entered p q outcome h = elim (Bool-cases p.finished) [
  | inr early ↦ absurd (ground (arith, h, early))
  | inl dropped ↦ elim (Bool-cases q.finished) [
    | inr late ↦ absurd (ground (arith, h, dropped, late))
    | inl done ↦ (dropped, done, rw (dropped, done) (routes_of-insert key q.keep q.table entered))
  ]
]

-- A sync that fails leaves what is tracked for the peer as it was, whatever routes it had
-- already added to the system's table or removed from it.
pub sync_failed :
    (backend : Backend) (state : State) (key : Bytes) (desired : List Ipv6Route)
    → (sync backend state key desired).1 ≡ none
    → routes_of (sync backend state key desired).0 key ≡ routes_of state key
unfolding sync
sync_failed backend state key desired h =
    conclude_failed key (routes_of state key) state.installed _ _ h

-- A sync that succeeds tracks exactly the routes that are wanted.
sync_tracks :
    (backend : Backend) (state : State) (key : Bytes) (desired : List Ipv6Route)
    (outcome : SyncOutcome) (r : Ipv6Route)
    → (sync backend state key desired).1 ≡ some outcome
    → contains (routes_of (sync backend state key desired).0 key) r ≡ contains desired r
unfolding sync
sync_tracks backend state key desired outcome r h =
    let first = drop_unwanted backend desired (routes_of state key) (started state.table) in
    let second = add_missing backend desired (resumed first) in
    let done =
      conclude_done key (insert key (routes_of state key) state.installed) first second outcome h in
    ap (λ l. contains l r) done.2
    ∙ add_missing-keep backend desired (resumed first) r done.1
    ∙ ap (λ b. b || contains desired r)
        (drop_unwanted-keep backend desired (routes_of state key) (started state.table) r done.0)
    ∙ absorbs (contains (routes_of state key) r) (contains desired r)
  where
    absorbs : (b c : Bool) → ((contains [] r || (b && c)) || c) ≡ c
    absorbs b c = ground (arith, nothing r)
