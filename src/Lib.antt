-- ===== src/Lib.antt =====
-- The charging network management system VoltHub CSMS, as functions on an explicit state: its store
-- (apps/api/src/db/store.js), the gateway of the charge points (apps/api/src/ocpp), the control of
-- power (apps/api/src/control), the relay of events (apps/worker/src/index.js) and the shared rules
-- (packages/shared/src/index.js, packages/ocpp-messages/src/index.js).
--
-- The store holds users, reservations, charging sessions, meter readings, tariffs, wallets,
-- invoices and control records in memory, and tells the telemetry relay about changes by an outbox.
-- The REST routes (apps/api/src/routes.js), the gateway and the controller call its operations. An
-- operation takes the store, the time and its arguments and returns the result, a value or the
-- error that the source throws, with the store that it leaves behind, also when it throws.
--
-- State and its children: the tables (Tables), their rows (Rows, ControlRows, RailRows), the events
-- (Events), the enumerations and dedupe keys (Enums), and the errors with their HTTP status and
-- Oracle number (Errors). A Map is an association list in insertion order; a missing or null field
-- is `none`. Outbox: emitOutbox, pruneOutbox and pruneOutboxIfDue. Store: auditLog, notify,
-- getConnector. Booking: createReservation, cancelReservation, expireStale and syncConnectorHold.
-- Metering: recordTick, the meter part of stopSession, and readingsFor. Sessions: startSession,
-- transition and stopSession. Wallets: topup and payInvoice. Billing: resolveBandPrice and
-- billSession. Tariffs: createTariffVersion. Rail: the signed wallets and top-up intents of the
-- store and of apps/api/src/wallet/rail.js. Grid: grid assets and control modes. Control:
-- decisions, certificates and enforcement ticks. Profiles: the charging profiles pushed to charge
-- points. Letters: quarantineOutbox, outboxLag and the dead letters. Provision: provisionStation,
-- provisionChargePoint and updateStation. Directory: createUser, setUserStatus and createVehicle.
-- Validation: vReservation and vVehicle of packages/shared/src/index.js. Shared: legalTransition.
--
-- Schedule: solveSchedule of apps/api/src/control/model.js, its first two passes in the module
-- itself, the third and the metrics in Shift. Certify: certifyVehicle and certifySite. Controller:
-- compileToProfiles, envelopeCheck, shouldReplan, verifyCompliance and the resolvers of deadlines
-- and requirements. Ocpp, the gateway: the frames (Messages), the calls that the CSMS sends and
-- their answers (Calls), the calls of charge points by action (Frames, with Reports of status and
-- Meters), who may connect (Sockets), and setChargingProfile of apps/api/src/ocpp/smart-charging.js
-- (SmartCharging), the commands of the console in apps/api/src/ocpp/commands.js (Commands) and how
-- commands are sent (Dispatch). Relay: relayOnce of the worker in its local mode, with the routes
-- /internal/outbox and /internal/outbox/ack.
--
-- How they meet: Ocpp.Frames runs the operations of Sessions and Metering on the store,
-- SmartCharging asks Controller for the envelope, which asks Grid for the capacity of the site, and
-- records in Profiles; Certify issues through Control and keeps the floors that Schedule serves
-- first; Relay reads and acknowledges the queue of Outbox. System: a history of the calls on
-- reservations, sessions and money, each at its own time; calls of the other parts do not touch
-- those tables, but for a wallet settlement, which is a topup, a tariff version, provisioning,
-- which adds connectors, status reports and a new user's wallet. Tests: the theorems at concrete
-- inputs.
--
-- A call is one step, and an interleaving is a list of calls. The source gives some calls a part
-- that can wait for a lock with other calls in between, which is not modelled: transitionLocal sets
-- the status of the connector under the lock of the session, then waits for the lock of the
-- connector before syncConnectorHold, and writes its outbox event and audit row after that;
-- stopSession writes the end of the meter under no lock and then queues its transition;
-- cancelReservation ends a window under the lock of the reservation, then waits for that of the
-- connector; expireStale expires one window after the other, each under the lock of its connector.
-- The histories of System are those in which no other call runs within such a call. A new user is
-- made in two steps, since the source awaits the password hash between them. An operation reads the
-- clock once, where the source reads it several times within one step. Numbers for money, energy
-- and power are exact decimals in millionths, not doubles, and `toFixed` rounds a tie away from
-- zero. pruneOutbox tests each event where the source removes events by their ids, which is the
-- same as ids come from a sequence. The schedule and its metrics are those before the source rounds
-- them to four places. In Schedule and Certify energy is a natural number of millionths of a kW for
-- a minute, so that the energy of a slot is exact; a state of charge and the acceptance factor are
-- cut to a millionth, and what the source takes for nothing (less than 1e-9 kWh) is 0. The time
-- zone, which decides the weekday and minute at which a band is looked up, is an argument, and so
-- are the password hash, the recovery of a signer, `JSON.stringify` and `JSON.parse`, `toUpperCase`
-- and `toLowerCase`. Texts of messages and the constant fields of rows (currency, method, unit,
-- source) are left out. All loops run over a list or a count of slots and stop with it, so no fuel
-- is needed.
--
-- Not modelled: the REST layer and its checks of tokens, the Oracle and Timescale adapters, which
-- are SQL, the carbon intensities, which are computed in doubles, planSite, which runs the parts of
-- the controller in turn, the simulator and the web application.
pub mod Prelude
pub mod State
pub mod Outbox
pub mod Store
pub mod Shared
pub mod Booking
pub mod Metering
pub mod Sessions
pub mod Wallets
pub mod Billing
pub mod Rail
pub mod Tariffs
pub mod Grid
pub mod Control
pub mod Profiles
pub mod Letters
pub mod Provision
pub mod Validation
pub mod Schedule
pub mod Certify
pub mod Controller
pub mod Ocpp
pub mod Relay
pub mod Directory
pub mod System
pub mod Tests
