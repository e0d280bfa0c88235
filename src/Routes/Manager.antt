-- ===== src/Routes/Manager.antt =====
-- crates/engine/src/route_manager.rs: `RouteManager`. The backend adds a route to the system's table
-- or removes it, or fails and leaves it as it is; which calls fail is a parameter.
pub mod Syncing
use hextet.Base.{
  ℕ, ◌≡◌, refl, sym, ◌∙◌, ap, subst, arith, Bool, true, false, not, ◌||◌, List, [], ◌∷◌, ◌++◌,
  contains, contains-append, if◌then◌else◌, ◌=?◌, =?_self, Option, none, some, Bool-cases,
  Option-cases, inl, inr, ℕ_equality, list_equality, list_same,
}
use hextet.Base.Assoc.{lookup, insert, remove, lookup-insert}
use hextet.Base.Bytes.{Bytes}
use hextet.Routes.{Ipv6Route, route_equality, route_same_iff}

-- `PlatformError` on a route.
pub record Backend : Type 0 where
  pub add_fails : Ipv6Route → Bool
  pub remove_fails : Ipv6Route → Bool

pub record SyncOutcome : Type 0 where
  pub added : List Ipv6Route
  pub removed : List Ipv6Route

-- The system's routes and what is tracked for each peer.
pub record State : Type 0 where
  pub table : List Ipv6Route
  pub installed : List (Bytes × List Ipv6Route)

abbrev pub or_empty : Option (List Ipv6Route) → List Ipv6Route
or_empty none = []
or_empty (some routes) = routes

abbrev pub routes_of : State → Bytes → List Ipv6Route
routes_of state peer_key = or_empty (lookup peer_key state.installed)

unfoldable pub delete_route : Ipv6Route → List Ipv6Route → List Ipv6Route
delete_route route [] = []
delete_route route (r ∷ table) =
    let rest = delete_route route table in if r =? route then rest else r ∷ rest

-- What a loop leaves: the system's table, what is kept, what was done, and whether it went through.
pub record Progress : Type 0 where
  pub table : List Ipv6Route
  pub keep : List Ipv6Route
  pub moved : List Ipv6Route
  pub finished : Bool

-- The first loop of `sync`, over the routes that are tracked.
unfoldable pub drop_unwanted : Backend → List Ipv6Route → List Ipv6Route → Progress → Progress
unfolding contains delete_route
drop_unwanted backend desired [] p = p
drop_unwanted backend desired (route ∷ current) p =
    let kept = drop_unwanted backend desired current (record {
      table = p.table;
      keep = p.keep ++ route ∷ [];
      moved = p.moved;
      finished = p.finished;
    }) in
    let dropped = drop_unwanted backend desired current (record {
      table = delete_route route p.table;
      keep = p.keep;
      moved = p.moved ++ route ∷ [];
      finished = p.finished;
    }) in
    if contains desired route
    then kept
    else if backend.remove_fails route
    then record { table = p.table; keep = p.keep; moved = p.moved; finished = false }
    else dropped

-- The second, over the routes that are wanted.
unfoldable pub add_missing : Backend → List Ipv6Route → Progress → Progress
unfolding contains
add_missing backend [] p = p
add_missing backend (route ∷ desired) p =
    let there = add_missing backend desired p in
    let added = add_missing backend desired (record {
      table = p.table ++ route ∷ [];
      keep = p.keep ++ route ∷ [];
      moved = p.moved ++ route ∷ [];
      finished = p.finished;
    }) in
    if contains p.keep route
    then there
    else if backend.add_fails route
    then record { table = p.table; keep = p.keep; moved = p.moved; finished = false }
    else added

abbrev pub started : List Ipv6Route → Progress
started table = record { table = table; keep = []; moved = []; finished = true }

-- After the loops: the state and the outcome, none for the error of either loop.
unfoldable pub conclude :
    Bytes → List (Bytes × List Ipv6Route) → Progress → Progress → State × Option SyncOutcome
conclude peer_key entered first second =
    if not first.finished
    then (record { table = first.table; installed = entered }, none)
    else if not second.finished
    then (record { table = second.table; installed = entered }, none)
    else (
      record { table = second.table; installed = insert peer_key second.keep entered },
      some (record { added = second.moved; removed = first.moved }),
    )

-- The second loop starts with what the first one left.
abbrev pub resumed : Progress → Progress
resumed first = record { table = first.table; keep = first.keep; moved = []; finished = true }

-- `entry().or_default()` comes first.
unfoldable pub sync : Backend → State → Bytes → List Ipv6Route → State × Option SyncOutcome
sync backend state peer_key desired =
    let current = routes_of state peer_key in
    let first = drop_unwanted backend desired current (started state.table) in
    conclude peer_key (insert peer_key current state.installed) first
      (add_missing backend desired (resumed first))

-- A loop of `remove_route`, up to the first failure.
unfoldable pub remove_routes : Backend → List Ipv6Route → List Ipv6Route → List Ipv6Route × Bool
unfolding delete_route
remove_routes backend [] table = (table, true)
remove_routes backend (route ∷ routes) table =
    let rest = remove_routes backend routes (delete_route route table) in
    if backend.remove_fails route then (table, false) else rest

unfoldable pub remove_peer : Backend → State → Bytes → State × Bool
remove_peer backend state peer_key =
    let removed = remove_routes backend (routes_of state peer_key) state.table in
    (record { table = removed.0; installed = remove peer_key state.installed }, removed.1)
