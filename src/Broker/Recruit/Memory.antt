-- ===== src/Broker/Recruit/Memory.antt =====
-- The ports that the broker remembers.
use remelon_db.Prelude.{
  ℕ, ◌≤◌, ◌≡◌, refl, ap, ◌∙◌, Bool, true, false, not, ◌&&◌, ◌||◌, some, List, [], ◌∷◌, ◌++◌, arith,
  eqb, eqb_iff, filter, length, leb, length-append, length-filter-le, if_cases,
}
use remelon_db.Broker.Recruit.{drop_first, remember_port, find_asker, reverse}
use remelon_db.Broker.Handle.{has_port}

-- no port twice
unfoldable pub is_unique : List ℕ → Bool
is_unique [] = true
is_unique (port ∷ ports) = not (has_port port ports) && is_unique ports

has_port-filter :
    (q port : ℕ) (ports : List ℕ)
    → has_port q (filter (λ p. not (eqb p port)) ports) ≡ has_port q ports && not (eqb q port)
has_port-filter q port [] = refl
has_port-filter q port (x ∷ ports) =
    ground (arith, has_port-filter q port ports, eqb_iff x q, eqb_iff x port, eqb_iff q port)

filter_unique :
    (port : ℕ) (ports : List ℕ)
    → is_unique ports ≡ true
    → is_unique (filter (λ p. not (eqb p port)) ports) ≡ true
unfolding is_unique
filter_unique port [] h = refl
filter_unique port (x ∷ ports) h =
    ground (arith, filter_unique port ports, has_port-filter x port ports)

has_port-snoc :
    (q port : ℕ) (ports : List ℕ)
    → has_port q (ports ++ (port ∷ [])) ≡ has_port q ports || eqb port q
has_port-snoc q port [] = ground arith
has_port-snoc q port (x ∷ ports) = ground (arith, has_port-snoc q port ports)

snoc_unique :
    (port : ℕ) (ports : List ℕ)
    → is_unique ports ≡ true
    → has_port port ports ≡ false
    → is_unique (ports ++ (port ∷ [])) ≡ true
unfolding is_unique
snoc_unique port [] h free = refl
snoc_unique port (x ∷ ports) h free =
    ground
      (arith, snoc_unique port ports, has_port-snoc x port ports, eqb_iff port x, eqb_iff x port)

reverse-snoc : (ports : List ℕ) (port : ℕ) → reverse (ports ++ (port ∷ [])) ≡ port ∷ reverse ports
unfolding reverse
reverse-snoc [] port = refl
reverse-snoc (x ∷ ports) port = ap (λ ps. ps ++ (x ∷ [])) (reverse-snoc ports port)

-- what is remembered, with the port at its end
record IsRemembered (port : ℕ) (ports : List ℕ) : Type 0 where
  unique : is_unique ports ≡ true
  few : length ports ≤ 8
  latest : find_asker [] (reverse ports) ≡ some port

snoc-IsRemembered :
    (port : ℕ) (ports : List ℕ)
    → is_unique ports ≡ true
    → has_port port ports ≡ false
    → length ports ≤ 7
    → IsRemembered port (ports ++ (port ∷ []))
unfolding find_asker
snoc-IsRemembered port ports unique free le = record {
  unique = snoc_unique port ports unique free;
  few = omega (arith, length-append ports (port ∷ []), le);
  latest = rw (reverse-snoc ports port) refl;
}

-- one place is made where there is none
drop_first-IsRemembered :
    (port : ℕ) (ports : List ℕ)
    → is_unique ports ≡ true
    → has_port port ports ≡ false
    → length ports ≤ 8
    → leb (length (ports ++ (port ∷ []))) 8 ≡ false
    → IsRemembered port (drop_first (ports ++ (port ∷ [])))
unfolding is_unique
drop_first-IsRemembered port [] unique free le full =
    let never : ⊥ = ground (arith, full) in absurd never
drop_first-IsRemembered port (x ∷ ports) unique free le full =
    snoc-IsRemembered port ports (ground (arith, unique)) (ground (arith, free)) (omega (arith, le))

-- The broker remembers each port once, at most eight of them, with the one that was heard last at
-- the end, whenever that held before.
pub remember_port_bounds :
    (port : ℕ) (ports : List ℕ)
    → is_unique ports ≡ true
    → length ports ≤ 8
    → (is_unique (remember_port port ports) ≡ true)
      × (length (remember_port port ports) ≤ 8)
      × (find_asker [] (reverse (remember_port port ports)) ≡ some port)
unfolding remember_port
remember_port_bounds port ports unique le =
    let others = filter (λ p. not (eqb p port)) ports in
    let distinct = filter_unique port ports unique in
    let free : has_port port others ≡ false =
      has_port-filter port port ports ∙ ground (arith, eqb_iff port port) in
    let few = length-filter-le (λ p. not (eqb p port)) ports in
    let k : IsRemembered port (remember_port port ports) =
      if_cases (IsRemembered port) (leb (length (others ++ (port ∷ []))) 8)
        (λ fits.
          snoc-IsRemembered port others distinct free
            (ground (arith, fits, length-append others (port ∷ []))))
        (λ full. drop_first-IsRemembered port others distinct free (omega (arith, few, le)) full) in
    (k.unique, k.few, k.latest)
