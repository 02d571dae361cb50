-- ===== src/Ocpp/Sockets.antt =====
-- The sockets of charge points, in `mountOcpp` and `checkBasic` of apps/api/src/ocpp/gateway.js: who may connect,
-- what a second connection and a close do, and the limit of frames. The Basic credentials come decoded.
use package.text.Mathlib.Text.{starts_with}
use volt_hub_csms.Prelude.{
  ℕ, ◌+◌, Bool, true, false, not, ◌&&◌, String, List, [], Option, none, some, ltb, ◌==◌, nat_eq,
  text_comparable, if◌then◌else◌,
}
use volt_hub_csms.Prelude.Lists.{filter, push, length}
use volt_hub_csms.Prelude.Dict.{Dict, lookup, insert, erase}
use volt_hub_csms.State.{Store}
use volt_hub_csms.Ocpp.Calls.{Calls, Peer, is_foreign}

-- A socket, with the times of the profiles that were pushed over it.
pub record Socket : Type 0 where
  pub socket_id : ℕ
  pub is_open : Bool
  pub push_times : List ℕ

-- `registry`, `lastMsg`, and the sockets that were closed here.
pub record Registry : Type 0 where
  pub sockets : Dict String Socket
  pub last_msg : Dict String (List ℕ)
  pub closed : List ℕ

-- `process.env.OCPP_AUTH === 'off'`, `NODE_ENV === 'production'`
pub record AuthMode : Type 0 where
  pub is_off : Bool
  pub is_production : Bool

-- `checkBasic`; a secret that is missing or empty is `none`.
unfoldable pub check_basic : AuthMode → Option String → String → Option (String × String) → Bool
check_basic m secret identity credentials =
    if m.is_off && not m.is_production then true else elim secret [
      | none ↦ false
      | some key ↦ if m.is_production && starts_with key "dev-" then false else elim credentials [
        | none ↦ false
        | some (user, pass) ↦ user == identity && pass == key
      ]
    ]

abbrev pub set_online : ℕ → Bool → Option ℕ → Store → Store
set_online cp online seen s = elim (lookup cp s.charging.cps) as (λ _. Store) [
  | none ↦ s
  | some x ↦ record s {
    charging = record s.charging {
      cps =
          insert cp
            (record x {
              is_online = online;
              last_seen_at = elim seen [ none ↦ x.last_seen_at | some t ↦ some t ];
            })
            s.charging.cps;
    };
  }
]

-- The socket that stood in the registry is closed, if it is another one.
abbrev pub close_previous : Option Socket → ℕ → List ℕ → List ℕ
close_previous none id closed = closed
close_previous (some p) id closed = if p.socket_id == id then closed else push p.socket_id closed

-- The connection of a known and authenticated charge point.
unfoldable pub accept_socket : ℕ → String → ℕ → ℕ → Registry × Store → Registry × Store
accept_socket now identity cp id (r, s) = (
  record r {
    sockets =
        insert identity (record { socket_id = id; is_open = true; push_times = [] }) r.sockets;
    closed = close_previous (lookup identity r.sockets) id r.closed;
  },
  set_online cp true (some now) s,
)

-- `wss.on('connection')`: 4404, 4401, or the connection.
pub data Connected : Type 0 where
  unknown_identity unauthorized accepted_socket : Connected

unfoldable pub connect :
    AuthMode
    → ℕ
    → String
    → Option (String × String)
    → ℕ
    → Registry × Store
    → Connected × Registry × Store
connect m now identity credentials id (r, s) = elim (lookup identity s.charging.cps_by_ocpp) [
  | none ↦ (unknown_identity, r, s)
  | some cp ↦ elim (lookup cp s.charging.cps) [
    | none ↦ (unauthorized, r, s)
    | some x ↦
        let secret = if x.auth_secret == "" then none else some x.auth_secret in
        if check_basic m secret identity credentials
        then (let done = accept_socket now identity cp id (r, s) in
            (accepted_socket, done.0, done.1))
        else (unauthorized, r, s)
  ]
]

-- `ws.on('close')`: only the socket that holds the slot leaves it.
unfoldable pub close : String → ℕ → ℕ → Registry × Store → Registry × Store
close identity cp id (r, s) = elim (lookup identity r.sockets) [
  | none ↦ (r, s)
  | some x ↦
      if x.socket_id == id
      then (record r { sockets = erase identity r.sockets }, set_online cp false none s)
      else (r, s)
]

-- The times of the last second with the one of this frame, and whether they are too many.
abbrev pub recent : ℕ → ℕ → List ℕ → List ℕ
recent window now ts = push now (filter (λ t. ltb now (t + window)) ts)

abbrev pub times_of : String → Registry → List ℕ
times_of identity r = elim (lookup identity r.last_msg) [ none ↦ [] | some ts ↦ ts ]

unfoldable pub count_frame : ℕ → String → Registry → Bool × Registry
count_frame now identity r =
    let ts = recent 1000 now (times_of identity r) in
    (ltb 10 (length ts), record r { last_msg = insert identity ts r.last_msg })

-- Whether an answer passes the limit: it answers a call that is pending for this socket.
unfoldable pub passes_limit : String → Peer → Calls → Bool
passes_limit uid from c = elim (lookup uid c.pending) [
  | none ↦ false
  | some p ↦ not (is_foreign p from)
]
