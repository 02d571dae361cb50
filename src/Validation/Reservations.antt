-- ===== src/Validation/Reservations.antt =====
-- About the routes' check of a reservation (packages/shared/src/index.js) beside the store's
-- (apps/api/src/db/store.js).
use volt_hub_csms.Prelude.{ℕ, ◌≡◌, arith}
use volt_hub_csms.Prelude.Outcome.{ok}
use volt_hub_csms.Booking.{check_window}
use volt_hub_csms.Validation.{ReservationBody, v_reservation}

-- A window that the routes' validator admits is admitted by the store's window check at the same time, and
-- both read the same two times.
pub v_reservation-check_window :
    (now : ℕ) (b : ReservationBody) (w : ℕ × ℕ)
    → v_reservation now b ≡ ok w
    → check_window now b.start_at b.end_at ≡ ok w
unfolding v_reservation check_window
v_reservation-check_window now b w h = ground (arith, h)
