-- ===== src/Broker/Leases.antt =====
-- shared-worker.ts, case 'syncTurn': which tab may sync a database, and until when.
pub mod Exclusive
use remelon_db.Prelude.{
  ℕ, ◌+◌, String, Bool, true, false, ◌||◌, Option, none, some, eqb, leb, max, min, if◌then◌else◌,
}
use remelon_db.Prelude.Map.{Map, get, set}
use remelon_db.Broker.{LeaseMs, millis, negative, not_finite}

pub record Lease : Type 0 where
  pub port : ℕ
  pub expires_at : ℕ

-- `MAX_SYNC_LEASE_MS`
abbrev pub max_sync_lease_ms : ℕ
max_sync_lease_ms = 300000

-- the length that is granted
abbrev pub lease_length : LeaseMs → ℕ
lease_length (millis n) = min (max n 1) max_sync_lease_ms
lease_length negative = 1
lease_length not_finite = max_sync_lease_ms

-- !lease || lease.port === port || lease.expiresAt <= now
unfoldable pub may_sync : ℕ → ℕ → Option Lease → Bool
may_sync port now none = true
may_sync port now (some lease) = eqb lease.port port || leb lease.expires_at now

-- `syncLeases` after the request, and whether it is granted
unfoldable pub sync_turn : ℕ → ℕ → String → LeaseMs → Map Lease → Map Lease × Bool
unfolding may_sync
sync_turn port now name asked leases =
    let granted = may_sync port now (get name leases) in
    let lease : Lease = record { port = port; expires_at = now + lease_length asked } in
    ((if granted then set name lease leases else leases), granted)
