-- ===== src/Broker/Leases/Exclusive.antt =====
-- A lease that is held.
use remelon_db.Prelude.{
  ℕ, ◌+◌, ◌≤◌, ◌<◌, ◌≡◌, refl, ◌∙◌, String, Bool, true, false, not, ◌&&◌, ◌||◌, some, List, [], ◌∷◌,
  ◌==◌, arith, eq_iff, eq_refl, eqb, ltb, all, and_left, and_right, if_cases, if◌then◌else◌,
}
use remelon_db.Prelude.Map.{Map, get, get-set}
use remelon_db.Broker.{LeaseMs, millis, negative, not_finite}
use remelon_db.Broker.Leases.{Lease, lease_length, may_sync, sync_turn}

-- a request for a lease: the port, the name, the length and the time
pub record Turn : Type 0 where
  pub port : ℕ
  pub name : String
  pub asked : LeaseMs
  pub now : ℕ

unfoldable pub after_turn : Turn → Map Lease → Map Lease
unfolding sync_turn
after_turn t leases = (sync_turn t.port t.now t.name t.asked leases).0

unfoldable pub granted : Turn → Map Lease → Bool
unfolding sync_turn
granted t leases = (sync_turn t.port t.now t.name t.asked leases).1

-- another port asks, or for another name, while the lease runs
unfoldable pub is_foreign : String → Lease → Turn → Bool
is_foreign name lease t =
    not (t.name == name) || (not (eqb t.port lease.port) && ltb t.now lease.expires_at)

-- none of the turns about the name is granted
unfoldable pub refused : String → List Turn → Map Lease → Bool
unfolding granted after_turn
refused name [] leases = true
refused name (t ∷ turns) leases =
    (not (t.name == name) || not (granted t leases)) && refused name turns (after_turn t leases)

unfoldable pub run_turns : List Turn → Map Lease → Map Lease
unfolding after_turn
run_turns [] leases = leases
run_turns (t ∷ turns) leases = run_turns turns (after_turn t leases)

lease_length-le : (asked : LeaseMs) → (1 ≤ lease_length asked) × (lease_length asked ≤ 300000)
lease_length-le (millis n) = (omega arith, omega arith)
lease_length-le negative = (omega arith, omega arith)
lease_length-le not_finite = (omega arith, omega arith)

-- the lease that is held refuses the turn
may_sync-foreign :
    (name : String) (lease : Lease) (t : Turn) (leases : Map Lease)
    → is_foreign name lease t ≡ true
    → get name leases ≡ some lease
    → (t.name == name) ≡ true
    → may_sync t.port t.now (get t.name leases) ≡ false
unfolding is_foreign may_sync
may_sync-foreign name lease t leases foreign held same =
    rw ((eq_iff t.name name).0 same) (rw held (ground (arith, foreign, same)))

after_turn-foreign :
    (name : String) (lease : Lease) (t : Turn) (leases : Map Lease)
    → is_foreign name lease t ≡ true
    → get name leases ≡ some lease
    → get name (after_turn t leases) ≡ some lease
unfolding after_turn sync_turn
after_turn-foreign name lease t leases foreign held =
    if_cases (λ (ls : Map Lease). get name ls ≡ some lease)
      (may_sync t.port t.now (get t.name leases))
      (λ may.
        get-set t.name name (record { port = t.port; expires_at = t.now + lease_length t.asked })
          leases
        ∙ elsewhere (t.name == name)
            (record { port = t.port; expires_at = t.now + lease_length t.asked })
            (may_sync-foreign name lease t leases foreign held) may)
      (λ refused. held)
  where
    elsewhere :
        (same : Bool) (other : Lease)
        → (same ≡ true → may_sync t.port t.now (get t.name leases) ≡ false)
        → may_sync t.port t.now (get t.name leases) ≡ true
        → (if same then some other else get name leases) ≡ some lease
    elsewhere true other never may = cc (never refl, may)
    elsewhere false other never may = held

granted-foreign :
    (name : String) (lease : Lease) (t : Turn) (leases : Map Lease)
    → is_foreign name lease t ≡ true
    → get name leases ≡ some lease
    → (not (t.name == name) || not (granted t leases)) ≡ true
unfolding granted sync_turn
granted-foreign name lease t leases foreign held =
    ground (arith, may_sync-foreign name lease t leases foreign held)

run_turns-foreign :
    (name : String) (lease : Lease) (turns : List Turn) (leases : Map Lease)
    → all (is_foreign name lease) turns ≡ true
    → get name leases ≡ some lease
    → (refused name turns leases ≡ true) × (get name (run_turns turns leases) ≡ some lease)
unfolding refused run_turns
run_turns-foreign name lease [] leases foreign held = (refl, held)
run_turns-foreign name lease (t ∷ turns) leases foreign held =
    let first = and_left (is_foreign name lease t) (all (is_foreign name lease) turns) foreign in
    let others = and_right (is_foreign name lease t) (all (is_foreign name lease) turns) foreign in
    let kept = after_turn-foreign name lease t leases first held in
    let (none_granted, still) =
      run_turns-foreign name lease turns (after_turn t leases) others kept in
    (ground (arith, granted-foreign name lease t leases first held, none_granted), still)

-- A turn that is granted gives its port the lease of the name, which ends later than now and at
-- most 300,000 ms from now, whatever length the tab asked for; and while it runs, requests of other
-- ports for that name are all refused and leave the lease as it is.
pub sync_turn_excludes :
    (turn : Turn) (turns : List Turn) (leases : Map Lease)
    → granted turn leases ≡ true
    → all
        (is_foreign turn.name
          (record { port = turn.port; expires_at = turn.now + lease_length turn.asked }))
        turns
      ≡ true
    → (turn.now < turn.now + lease_length turn.asked)
      × (turn.now + lease_length turn.asked ≤ turn.now + 300000)
      × (refused turn.name turns (after_turn turn leases) ≡ true)
      × (get turn.name (run_turns turns (after_turn turn leases))
          ≡ some (record { port = turn.port; expires_at = turn.now + lease_length turn.asked }))
unfolding granted after_turn sync_turn
sync_turn_excludes turn turns leases may foreign =
    let lease : Lease = record {
      port = turn.port;
      expires_at = turn.now + lease_length turn.asked;
    } in
    let (least, most) = lease_length-le turn.asked in
    let held : get turn.name (after_turn turn leases) ≡ some lease =
      rw may (get-set turn.name turn.name lease leases ∙ rw (eq_refl turn.name) refl) in
    let (none_granted, still) =
      run_turns-foreign turn.name lease turns (after_turn turn leases) foreign held in
    (omega (arith, least), omega (arith, most), none_granted, still)
