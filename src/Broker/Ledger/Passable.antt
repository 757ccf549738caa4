-- ===== src/Broker/Ledger/Passable.antt =====
-- The routes that carry user work, and the ids of pings.
use remelon_db.Prelude.{
  ℕ, ◌<◌, ◌≡◌, refl, sym, ap, ◌∙◌, Bool, true, false, Option, none, some, List, [], ◌∷◌, arith, eqb,
  eqb_iff, All, if_cases, if◌then◌else◌,
}
use remelon_db.Prelude.Ids.{get_at, set_at, AreBelow, get_at-set_at}
use remelon_db.Broker.State.{Pending, Route, passed, pinged, retired, Probe}
use remelon_db.Broker.Epoch.{is_work, stranded}
use remelon_db.Broker.Ledger.{IsPassable}

pub stranded-work :
    (probes : List (ℕ × Probe)) (routes : List (ℕ × Route))
    → All (IsPassable probes) routes
    → All (λ p. is_work p.request ≡ true) (stranded routes)
unfolding stranded
stranded-work probes [] h = tt
stranded-work probes ((k, passed p) ∷ routes) ((work, apart), h) =
    if_cases (λ (ps : List Pending). All (λ q. is_work q.request ≡ true) ps) (is_work p.request)
      (λ kept. (work, stranded-work probes routes h)) (λ dropped. stranded-work probes routes h)
stranded-work probes ((k, pinged) ∷ routes) (p, h) = stranded-work probes routes h
stranded-work probes ((k, retired target) ∷ routes) (p, h) = stranded-work probes routes h

pub none-ne-some : {v : Probe} → ◌≡◌ {A = Option Probe} none (some v) → ⊥
none-ne-some e = cc

-- a key that is not there stays so when another one is written again
pub set_at-free :
    (k j : ℕ) (v w : Probe) (m : List (ℕ × Probe))
    → get_at k m ≡ some v
    → get_at j m ≡ none
    → get_at j (set_at k w m) ≡ none
set_at-free k j v w m found free = get_at-set_at k j w m ∙ other (eqb k j) refl
  where
    other : (same : Bool) → eqb k j ≡ same → (if same then some w else get_at j m) ≡ none
    other true e =
        absurd (none-ne-some (sym free ∙ ap (λ i. get_at i m) (sym ((eqb_iff k j).0 e)) ∙ found))
    other false e = free

pub still-IsPassable :
    (probes later : List (ℕ × Probe)) (n : ℕ)
    → ((k : ℕ) → get_at k probes ≡ none → k < n → get_at k later ≡ none)
    → (routes : List (ℕ × Route)) → AreBelow n routes
    → All (IsPassable probes) routes
    → All (IsPassable later) routes
still-IsPassable probes later n apart [] lts h = tt
still-IsPassable probes later n apart ((k, passed p) ∷ routes) (lt, lts) ((work, free), h) =
    ((work, apart k free lt), still-IsPassable probes later n apart routes lts h)
still-IsPassable probes later n apart ((k, pinged) ∷ routes) (lt, lts) (p, h) =
    (tt, still-IsPassable probes later n apart routes lts h)
still-IsPassable probes later n apart ((k, retired target) ∷ routes) (lt, lts) (p, h) =
    (tt, still-IsPassable probes later n apart routes lts h)

-- the next key is not one that was handed out
pub set_at-above :
    (n k : ℕ) (v : Probe) (m : List (ℕ × Probe))
    → get_at k m ≡ none
    → k < n
    → get_at k (set_at n v m) ≡ none
set_at-above n k v m free lt = ground (arith, get_at-set_at n k v m, free, lt)
