-- ===== src/RelayServer/Control/Invariant.antt =====
-- The control loop's invariant on the session table and the tasks' senders.
use hextet.Base.{
  ℕ, ◌≤◌, ◌≡◌, refl, sym, ◌∙◌, ap, arith, Bool, true, false, List, [], length, contains, ltb, leb,
  ◌==◌, if◌then◌else◌, Option, none, some, ◌=?◌, option_same, Bool-cases, Option-cases, inl, inr,
  ℕ_equality, list_equality, pair_equality, take, =?_eq,
}
use hextet.Base.Assoc.{
  lookup, insert, keys_where, IsMap, lookup-insert, lookup-remove, lookup-remove_all, insert-IsMap,
  remove-IsMap, remove_all-IsMap, length-insert-le, length-insert_old, length-remove-le,
  length-remove_all,
}
use hextet.Base.Outcome.{Outcome, ok, err, panic}
use hextet.Endpoint.{Endpoint, endpoint_equality}
use hextet.Wire.Relay.{
  RelayFrame, RelayKind, RelayError, register, register_ack, unregister, SessionKey, session_key,
  decode,
}
use hextet.RelayServer.Table.{
  RelayTable, Session, insert_session, touch_addr, port_of, prune, max_sessions, is_stale, slot,
  has_session, allows,
}
use hextet.RelayServer.Forward.{v4, v6}
use hextet.RelayServer.Control.{
  Server, Config, Wake, pruning, received, prune_server, open_session, register_side,
  handle_register, handle_unregister, handle_frame, dispatch, respond, serve, side_of,
  seq_skew_tolerance_secs, abs_diff, control_buf,
}

pub record IsServer (server : Server) : Type 0 where
  pub is_map : IsMap server.table
  pub bounded : length server.table ≤ max_sessions
  pub tasks : (k : SessionKey) → lookup k server.senders ≡ port_of server.table k

pub empty-IsServer : IsServer (record { table = []; senders = [] })
unfolding lookup
empty-IsServer = record { is_map = tt; bounded = omega arith; tasks = λ k. refl }

abbrev port_in : Option Session → Option ℕ
port_in o = elim o [ none ↦ none | some s ↦ some s.port ]

prune_server-IsServer :
    (server : Server) (now : ℕ) → IsServer server → IsServer (prune_server server now)
unfolding prune_server prune
prune_server-IsServer server now s =
    let stale = keys_where (is_stale now) server.table in
    record {
      is_map = remove_all-IsMap stale server.table s.is_map;
      bounded = omega (arith, length-remove_all stale server.table, s.bounded);
      tasks = λ k.
          both _ _ _ _ (contains stale k) (lookup-remove_all stale k server.senders)
            (lookup-remove_all stale k server.table) (s.tasks k);
    }
  where
    both :
        (o p : Option ℕ) (t u : Option Session) (b : Bool)
        → p ≡ (if b then none else o)
        → u ≡ (if b then none else t)
        → o ≡ port_in t
        → p ≡ port_in u
    both o p t u true h k l = h ∙ sym (ap port_in k)
    both o p t u false h k l = h ∙ l ∙ sym (ap port_in k)

-- Putting a session and its sender in keeps them matched.
put_tasks :
    (table : RelayTable) (senders : List (SessionKey × ℕ)) (key : SessionKey) (session : Session)
    → ((k : SessionKey) → lookup k senders ≡ port_of table k)
    → (k : SessionKey)
    → lookup k (insert key session.port senders) ≡ port_of (insert key session table) k
put_tasks table senders key session h k =
    lookup-insert key k session.port senders
    ∙ chosen (key =? k)
    ∙ sym (ap port_in (lookup-insert key k session table))
  where
    chosen :
        (b : Bool)
        → (if b then some session.port else lookup k senders)
          ≡ port_in (if b then some session else lookup k table)
    chosen true = refl
    chosen false = h k

open_session-IsServer :
    (server : Server) (key : SessionKey) (now : ℕ) (bind : Option ℕ)
    → IsServer server
    → IsServer (open_session server key now bind).0
unfolding open_session insert_session
open_session-IsServer server key now none s =
    let pruned = prune_server server now in
    elim (Bool-cases (leb max_sessions (length pruned.table))) [
      | inl full ↦ rw full (prune_server-IsServer server now s)
      | inr room ↦ rw room (prune_server-IsServer server now s)
    ]
open_session-IsServer server key now (some port) s =
    let pruned = prune_server server now in
    let p = prune_server-IsServer server now s in
    elim (Bool-cases (leb max_sessions (length pruned.table))) [
      | inl full ↦ rw full p
      | inr room ↦ rw room (record {
        is_map = insert-IsMap key _ pruned.table p.is_map;
        bounded =
            grown pruned.table (record { port = port; addrs = (none, none); last_seen_unix = now })
              room;
        tasks =
            put_tasks pruned.table pruned.senders key
              (record { port = port; addrs = (none, none); last_seen_unix = now }) p.tasks;
      })
    ]
  where
    grown :
        (table : RelayTable) (session : Session)
        → leb max_sessions (length table) ≡ false
        → length (insert key session table) ≤ max_sessions
    grown table session room = ground (arith, room, length-insert-le key session table)

-- `touch_addr` changes no port and adds no session.
touched :
    (server : Server) (key : SessionKey) (old session : Session)
    → lookup key server.table ≡ some old
    → session.port ≡ old.port
    → IsServer server
    → IsServer (record { table = insert key session server.table; senders = server.senders })
touched server key old session e q s = record {
  is_map = insert-IsMap key session server.table s.is_map;
  bounded = omega (arith, length-insert_old key session old server.table e, s.bounded);
  tasks = λ k.
      s.tasks k
      ∙ same k (key =? k) (=?_eq key k)
      ∙ sym (ap port_in (lookup-insert key k session server.table));
}
  where
    same :
        (k : SessionKey) (b : Bool)
        → (b ≡ true → key ≡ k)
        → port_of server.table k ≡ port_in (if b then some session else lookup k server.table)
    same k true at =
        ap port_in (ap (λ j. lookup j server.table) (sym (at refl)) ∙ e) ∙ ap some (sym q)
    same k false at = refl

touch_addr-IsServer :
    (server : Server) (key : SessionKey) (side : ℕ) (addr : Endpoint) (now : ℕ)
    → IsServer server
    → IsServer
        (record { table = (touch_addr server.table key side addr now).0; senders = server.senders })
unfolding touch_addr
touch_addr-IsServer server key side addr now s = elim (Option-cases (lookup key server.table)) [
  | inl absent ↦ rw (absent, touch_addr) s
  | inr (old, e) ↦ elim (Bool-cases (option_same (slot old.addrs side) (some addr))) [
    | inl same ↦ rw (e, touch_addr) (rw same (touched server key old _ e refl s))
    | inr moved ↦ rw (e, touch_addr) (rw moved (touched server key old _ e refl s))
  ]
]

register_side-IsServer :
    (config : Config) (server : Server) (frame : RelayFrame) (src : Endpoint) (now : ℕ)
    → IsServer server
    → IsServer (register_side config server frame src now).0
unfolding register_side
register_side-IsServer config server frame src now s =
    touch_addr-IsServer server (session_key frame) (side_of frame) _ now s

handle_register-IsServer :
    (config : Config) (server : Server) (frame : RelayFrame) (src : Endpoint) (now : ℕ)
    (bind : Option ℕ)
    → IsServer server
    → IsServer (handle_register config server frame src now bind).0
unfolding handle_register
handle_register-IsServer config server frame src now bind s =
    let key = session_key frame in
    let opened = open_session server key now bind in
    let o = open_session-IsServer server key now bind s in
    elim (Bool-cases (frame.port == 0)) [
      | inl no_port ↦ rw no_port s
      | inr port ↦ rw port (elim (Bool-cases (has_session server.table key)) [
        | inl old ↦ rw old (register_side-IsServer config server frame src now s)
        | inr fresh ↦ rw fresh (elim (Option-cases opened.1) [
          | inl refused ↦ rw refused o
          | inr (p, e) ↦ rw e (register_side-IsServer config opened.0 frame src now o)
        ])
      ])
    ]

handle_unregister-IsServer :
    (server : Server) (frame : RelayFrame)
    → IsServer server
    → IsServer (handle_unregister server frame)
unfolding handle_unregister
handle_unregister-IsServer server frame s =
    let key = session_key frame in
    elim (Bool-cases (has_session server.table key)) [
      | inr absent ↦ rw absent s
      | inl held ↦ rw held (record {
        is_map = remove-IsMap key server.table s.is_map;
        bounded = omega (arith, length-remove-le key server.table, s.bounded);
        tasks = λ k.
            lookup-remove key k server.senders
            ∙ chosen k (key =? k)
            ∙ sym (ap port_in (lookup-remove key k server.table));
      })
    ]
  where
    chosen :
        (k : SessionKey) (b : Bool)
        → (if b then none else lookup k server.senders)
          ≡ port_in (if b then none else lookup k server.table)
    chosen k true = refl
    chosen k false = s.tasks k

dispatch-IsServer :
    (config : Config) (server : Server) (frame : RelayFrame) (src : Endpoint) (now : ℕ)
    (bind : Option ℕ) (kind : RelayKind)
    → IsServer server
    → IsServer (dispatch config server frame src now bind kind).0
unfolding dispatch
dispatch-IsServer config server frame src now bind register s =
    handle_register-IsServer config server frame src now bind s
dispatch-IsServer config server frame src now bind unregister s =
    handle_unregister-IsServer server frame s
dispatch-IsServer config server frame src now bind register_ack s = s

handle_frame-IsServer :
    (config : Config) (server : Server) (frame : RelayFrame) (src : Endpoint) (now : ℕ)
    (bind : Option ℕ)
    → IsServer server
    → IsServer (handle_frame config server frame src now bind).0
unfolding handle_frame
handle_frame-IsServer config server frame src now bind s =
    elim (Bool-cases (ltb seq_skew_tolerance_secs (abs_diff frame.seq now))) [
      | inl skewed ↦ rw skewed s
      | inr timely ↦ rw timely (elim (Bool-cases (allows config.policy frame.self_key)) [
        | inr refused ↦ rw refused s
        | inl allowed ↦ rw allowed (dispatch-IsServer config server frame src now bind frame.kind s)
      ])
    ]

respond-IsServer :
    (config : Config) (server : Server) (src : Endpoint) (now : ℕ) (bind : Option ℕ)
    (o : Outcome RelayError RelayFrame)
    → IsServer server
    → IsServer (respond config server src now bind o).0
unfolding respond
respond-IsServer config server src now bind (ok frame) s =
    handle_frame-IsServer config server frame src now bind s
respond-IsServer config server src now bind (err e) s = s
respond-IsServer config server src now bind panic s = s

-- Whatever wakes the control loop, it keeps this: at most 256 sessions, one to a pair of nodes,
-- and a sender for exactly the sessions in the table, each with its session's port.
pub serve-IsServer :
    (config : Config) (server : Server) (wake : Wake)
    → IsServer server
    → IsServer (serve config server wake).0
unfolding serve
serve-IsServer config server (pruning now) s = prune_server-IsServer server now s
serve-IsServer config server (received datagram v4 now bind) s = s
serve-IsServer config server (received datagram (v6 src) now bind) s =
    respond-IsServer config server src now bind
      (decode config.hmac config.ed25519 (take control_buf datagram) config.relay_key) s
