-- ===== src/Sessions/Starts.antt =====
-- About the checks of `startSession` of apps/api/src/db/store.js, and its changes to reservations
-- and holds.
use volt_hub_csms.Prelude.{
  ℕ, ◌≡◌, true, false, ◌⊎◌, Option, none, some, arith, nat_eq, Bool-cases, Option-cases, inl, inr,
}
use volt_hub_csms.Prelude.Lists.{find, find-test}
use volt_hub_csms.Prelude.Dict.{values, lookup}
use volt_hub_csms.Prelude.Table.{IsTable, find-lookup}
use volt_hub_csms.Prelude.Outcome.{ok, Outcome-cases}
use volt_hub_csms.State.{Charging, Reservation, Connector, ref_eq, is_bookable, is_reserved}
use volt_hub_csms.Store.{truthy}
use volt_hub_csms.Sessions.{StartRequest, owns_window, resolve_reservation, check_start}

-- A booked window of the caller on the connector, and the id under which it stands.
abbrev pub OwnWindow : StartRequest → Charging → Option ℕ → Type 0
OwnWindow q ch rid =
    (id : ℕ) × (r : Reservation) × (rid ≡ some id)
    × (lookup id ch.reservations ≡ some r)
    × (owns_window q.uid q.key r ≡ true)

-- Either no window is converted, or one that is booked on the connector by the caller.
abbrev pub Adopts : StartRequest → Charging → Option ℕ → Type 0
Adopts q ch rid = (rid ≡ none) ⊎ OwnWindow q ch rid

pub resolve_named :
    (q : StartRequest) (ch : Charging) (id : ℕ) (rid : Option ℕ) (c : Connector)
    → truthy q.reservation_id ≡ some id
    → resolve_reservation q c ch ≡ ok rid
    → OwnWindow q ch rid
unfolding resolve_reservation
resolve_named q ch id rid c named e = elim (Option-cases (lookup id ch.reservations)) [
  | inl gone ↦ absurd (ground (arith, named, gone, e))
  | inr (r, there) ↦
      (id, r, ground (arith, named, there, e), there, ground (arith, named, there, e))
]

pub resolve_own :
    (q : StartRequest) (ch : Charging) (rid : Option ℕ) (c : Connector)
    → IsTable (λ (r : Reservation). r.reservation_id) ch.reservations
    → truthy q.reservation_id ≡ none
    → is_reserved c.status ≡ true
    → resolve_reservation q c ch ≡ ok rid
    → OwnWindow q ch rid
unfolding resolve_reservation
resolve_own q ch rid c t unnamed held e =
    elim (Option-cases (find (owns_window q.uid q.key) (values ch.reservations))) [
      | inl gone ↦ absurd (ground (arith, unnamed, held, gone, e))
      | inr (r, found) ↦ (
        r.reservation_id,
        r,
        ground (arith, unnamed, held, found, e),
        find-lookup (λ (x : Reservation). x.reservation_id) (owns_window q.uid q.key) r
            ch.reservations t found,
        find-test (owns_window q.uid q.key) (values ch.reservations) r found,
      )
    ]

pub check_start_lem :
    (q : StartRequest) (ch : Charging) (w : Connector × Option ℕ)
    → check_start q ch ≡ ok w
    → (lookup q.key ch.connectors ≡ some w.0)
      × (is_bookable w.0.status ≡ true)
      × (resolve_reservation q w.0 ch ≡ ok w.1)
unfolding check_start
check_start_lem q ch w e = elim (Option-cases (lookup q.key ch.connectors)) [
  | inl gone ↦ absurd (ground (arith, gone, e))
  | inr (c, there) ↦ elim (Outcome-cases (resolve_reservation q c ch)) [
    | inl (rid, found) ↦ ground (arith, there, found, e)
    | inr (f, refused) ↦ absurd (ground (arith, there, refused, e))
  ]
]

resolve_none :
    (q : StartRequest) (ch : Charging) (rid : Option ℕ) (c : Connector)
    → truthy q.reservation_id ≡ none
    → is_reserved c.status ≡ false
    → resolve_reservation q c ch ≡ ok rid
    → rid ≡ none
unfolding resolve_reservation
resolve_none q ch rid c unnamed free e = ground (arith, unnamed, free, e)

pub resolve-Adopts :
    (q : StartRequest) (ch : Charging) (rid : Option ℕ) (c : Connector)
    → IsTable (λ (r : Reservation). r.reservation_id) ch.reservations
    → resolve_reservation q c ch ≡ ok rid
    → Adopts q ch rid
resolve-Adopts q ch rid c t e = elim (Option-cases (truthy q.reservation_id)) [
  | inr (id, named) ↦ inr (resolve_named q ch id rid c named e)
  | inl unnamed ↦ elim (Bool-cases (is_reserved c.status)) [
    | inl held ↦ inr (resolve_own q ch rid c t unnamed held e)
    | inr free ↦ inl (resolve_none q ch rid c unnamed free e)
  ]
]
