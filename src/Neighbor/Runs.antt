-- ===== src/Neighbor/Runs.antt =====
-- Sequences of neighbor events.
use ospfd_rfc.Base.{ℕ, ◌≤◌, ◌≡◌, ◌⊎◌, List, [], Result, ok, arith, inl, inr, ◌>>=◌, >>=-eq-ok, ◌∷◌}
use ospfd_rfc.Lsdb.{Lsdb}
use ospfd_rfc.Neighbor.{rank, Neighbor, Host, new_neighbor}
use ospfd_rfc.Neighbor.Machine.{Event, negotiation_done, start, fire, IsTidy, fire-IsTidy}

-- A sequence of events, up to the first assertion that fails.
unfoldable pub run : Host → Lsdb → List Event → Neighbor → Result Neighbor
run host db [] n = ok n
run host db (e ∷ es) n = fire host db e n >>= λ m. run host db es m

-- An event of the sequence.
abbrev pub Occurs : Event → List Event → Type 0
Occurs e [] = ⊥
Occurs e (x ∷ xs) = (e ≡ x) ⊎ Occurs e xs

-- A step into the exchange or beyond is a negotiation that is done.
fire_into_exchange :
    (host : Host) (db : Lsdb) (e : Event) (n n' : Neighbor)
    → fire host db e n ≡ ok n'
    → 5 ≤ rank n'.state
    → (5 ≤ rank n.state) ⊎ (negotiation_done ≡ e)
unfolding fire
fire_into_exchange host db start n n' h r = ground arith
fire_into_exchange _ _ _ _ _ h r = ground arith

run_into_exchange :
    (host : Host) (db : Lsdb) (es : List Event) (n n' : Neighbor)
    → run host db es n ≡ ok n'
    → 5 ≤ rank n'.state
    → (5 ≤ rank n.state) ⊎ Occurs negotiation_done es
unfolding run
run_into_exchange host db [] n n' h r = inl (ground arith)
run_into_exchange host db (e ∷ es) n n' h r =
    let (m, first, rest) = >>=-eq-ok (fire host db e n) _ h in
    elim (run_into_exchange host db es m n' rest r) [
      | inl r' ↦ elim (fire_into_exchange host db e n m first r') [
        | inl r'' ↦ inl r''
        | inr e' ↦ inr (inl e')
      ]
      | inr o ↦ inr (inr o)
    ]

-- No neighbor gets to Exchange, Loading or Full with no NegotiationDone among its events.
pub exchange_needs_negotiation :
    (host : Host) (db : Lsdb) (memory : Neighbor) (ip : ℕ) (es : List Event) (n : Neighbor)
    → run host db es (new_neighbor memory ip) ≡ ok n
    → 5 ≤ rank n.state
    → Occurs negotiation_done es
unfolding new_neighbor
exchange_needs_negotiation host db memory ip es n h r =
    elim (run_into_exchange host db es _ n h r) [ inl r' ↦ absurd (omega arith) | inr o ↦ o ]

-- Over any sequence of events from a new neighbor the lists below two-way communication stay empty.
pub run-IsTidy :
    (host : Host) (db : Lsdb) (es : List Event) (n n' : Neighbor)
    → run host db es n ≡ ok n'
    → IsTidy n
    → IsTidy n'
unfolding run
run-IsTidy host db [] n n' h v = ground arith
run-IsTidy host db (e ∷ es) n n' h v =
    let (m, first, rest) = >>=-eq-ok (fire host db e n) _ h in
    run-IsTidy host db es m n' rest (fire-IsTidy host db e n m first v)
