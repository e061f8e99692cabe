-- ===== src/Router/Loops/Timers.antt =====
-- The Hello timer over the rounds of send_loop.
use ospfd_rfc.Base.{
  ℕ, zero, suc, ◌+◌, ◌%◌, ◌<◌, ◌≡◌, refl, sym, ap, ◌∙◌, true, false, List, leb, get_elem?, [], ◌∷◌,
  ◌≢◌, set-set, set_same, Result, ok, null_dereference, from_option-ok, ◌>>=◌, arith,
}
use ospfd_rfc.Interface.{Interface, same_if_state}
use ospfd_rfc.Interface
use ospfd_rfc.Routing.{Choices}
use ospfd_rfc.Packet.{checked_body, produce_hello}
use ospfd_rfc.Packet.PacketType
use ospfd_rfc.Router.{Router, all_spf_routers, interface_at, put_interface, send_packet}
use ospfd_rfc.Router.Loops.{tick_hello, tick_neighbors, tick_interface, tick_from, send_round}

-- `n` rounds of send_loop, each with its own order of the heap and of the maps.
unfoldable pub send_rounds : (ℕ → Choices) → ℕ → Router → Result Router
send_rounds cs zero r = ok r
send_rounds cs (suc n) r = do r' ← send_round (cs n) r; send_rounds cs n r'

abbrev at_time : Interface → ℕ → Interface
at_time i t = record i { hello_timer = t }

tick_quiet :
    (r : Router) (k : ℕ) (i : Interface)
    → i.hello_timer + 1 < i.hello_interval
    → i.hello_interval < 4294967296
    → tick_hello r k i ≡ ok (put_interface r k (at_time i (i.hello_timer + 1)))
unfolding tick_hello
tick_quiet r k i early small =
    let no_wrap : (i.hello_timer + 1) % 4294967296 ≡ i.hello_timer + 1 = omega arith in
    let not_yet : leb i.hello_interval (i.hello_timer + 1) ≡ false = ground arith in
    rw no_wrap (rw not_yet refl)

tick_sends :
    (r : Router) (k : ℕ) (i : Interface) (body : List ℕ)
    → i.hello_timer + 1 ≡ i.hello_interval
    → i.hello_interval < 4294967296
    → checked_body (produce_hello (at_time i 0)) ≡ ok body
    → tick_hello r k i
      ≡ ok (
          send_packet
            (put_interface r k (at_time i 0))
            k
            (at_time i 0)
            PacketType.hello
            body
            all_spf_routers)
unfolding tick_hello
tick_sends r k i body due small fits =
    let now : leb i.hello_interval ((i.hello_timer + 1) % 4294967296) ≡ true = ground arith in
    rw now (rw fits refl)

put_put :
    (r : Router) (k : ℕ) (i j : Interface)
    → put_interface (put_interface r k i) k j ≡ put_interface r k j
put_put r k i j = rw (set-set r.interfaces k i j) refl

put_same : (r : Router) (k : ℕ) (i : Interface) → interface_at r k ≡ ok i → put_interface r k i ≡ r
put_same r k i at_k =
    ap (λ (is : List Interface). record r { interfaces = is })
      (set_same r.interfaces k i
        (from_option-ok null_dereference (get_elem? r.interfaces k) i at_k))

-- The router's only interface is `i`, which is not down and has no neighbor.
abbrev IsAlone : Router → Interface → Type 0
IsAlone r i = (r.interfaces ≡ i ∷ []) × (i.neighbors ≡ []) × (i.state ≢ Interface.down)

alone_at : (r : Router) (i : Interface) → IsAlone r i → interface_at r 0 ≡ ok i
alone_at r i (only, _, _) = rw only refl

put_interface-IsAlone :
    (r : Router) (i : Interface) (t : ℕ)
    → IsAlone r i
    → IsAlone (put_interface r 0 (at_time i t)) (at_time i t)
put_interface-IsAlone r i t (only, none, up) = (rw only refl, none, up)

-- A round is then a tick of the Hello timer.
tick_interface_alone :
    (c : Choices) (r r' : Router) (i : Interface)
    → IsAlone r i
    → tick_hello r 0 i ≡ ok r'
    → tick_interface c r 0 ≡ ok r'
unfolding tick_interface tick_neighbors
tick_interface_alone c r r' i (only, none, up) ticked =
    let open_to : same_if_state i.state Interface.down ≡ false = ground arith in
    let at_k = alone_at r i (only, none, up) in rw at_k (rw open_to (rw ticked (rw none refl)))

send_round_alone :
    (c : Choices) (r r' : Router) (i : Interface)
    → IsAlone r i
    → tick_hello r 0 i ≡ ok r'
    → send_round c r ≡ ok r'
unfolding send_round tick_from
send_round_alone c r r' i alone ticked =
    let one : tick_from c 0 (i ∷ []) r ≡ ok r' =
      rw (tick_interface_alone c r r' i alone ticked) refl in
    ap (λ (is : List Interface). tick_from c 0 is r) alone.0 ∙ one

-- One round and then the others.
rounds_step :
    (cs : ℕ → Choices) (n : ℕ) (r r' : Router) (i : Interface)
    → IsAlone r i
    → tick_hello r 0 i ≡ ok r'
    → send_rounds cs (suc n) r ≡ send_rounds cs n r'
unfolding send_rounds
rounds_step cs n r r' i alone ticked = rw (send_round_alone (cs n) r r' i alone ticked) refl

rounds_from :
    (cs : ℕ → Choices) (n : ℕ) (r : Router) (i : Interface)
    → IsAlone r i
    → i.hello_timer + n < i.hello_interval
    → i.hello_interval < 4294967296
    → send_rounds cs n r ≡ ok (put_interface r 0 (at_time i (i.hello_timer + n)))
unfolding send_rounds
rounds_from cs zero r i alone early small =
    let now : i.hello_timer ≡ i.hello_timer + 0 = omega arith in
    ap ok (
      sym (put_same r 0 i (alone_at r i alone))
      ∙ ap (λ (t : ℕ). put_interface r 0 (at_time i t)) now)
rounds_from cs (suc n) r i alone early small =
    let i' = at_time i (i.hello_timer + 1) in
    let r' = put_interface r 0 i' in
    let sum : (i.hello_timer + 1) + n ≡ i.hello_timer + suc n = omega arith in
    let one = rounds_step cs n r r' i alone (tick_quiet r 0 i (omega (arith, early)) small) in
    let others =
      rounds_from cs n r' i' (put_interface-IsAlone r i (i.hello_timer + 1) alone)
        (omega (arith, early)) small in
    one
    ∙ others
    ∙ ap ok (put_put r 0 i' (at_time i' ((i.hello_timer + 1) + n)))
    ∙ ap (λ (t : ℕ). ok (put_interface r 0 (at_time i t))) sum

sends_from :
    (cs : ℕ → Choices) (n : ℕ) (r : Router) (i : Interface) (body : List ℕ)
    → IsAlone r i
    → i.hello_timer + suc n ≡ i.hello_interval
    → i.hello_interval < 4294967296
    → checked_body (produce_hello (at_time i 0)) ≡ ok body
    → send_rounds cs (suc n) r
      ≡ ok (
          send_packet
            (put_interface r 0 (at_time i 0))
            0
            (at_time i 0)
            PacketType.hello
            body
            all_spf_routers)
unfolding send_rounds
sends_from cs zero r i body alone due small fits =
    rounds_step cs 0 r _ i alone (tick_sends r 0 i body due small fits)
sends_from cs (suc n) r i body alone due small fits =
    let i' = at_time i (i.hello_timer + 1) in
    let r' = put_interface r 0 i' in
    rounds_step cs (suc n) r r' i alone (tick_quiet r 0 i (omega (arith, due)) small)
    ∙ sends_from cs n r' i' body (put_interface-IsAlone r i (i.hello_timer + 1) alone)
        (omega (arith, due)) small fits
    ∙ ap (λ (x : Router). ok (send_packet x 0 (at_time i 0) PacketType.hello body all_spf_routers))
        (put_put r 0 i' (at_time i 0))

-- A router with one interface, which is not down, has no neighbor and has its Hello timer at 0: in
-- fewer rounds of send_loop than the Hello interval nothing but the timer changes, and in as many as
-- the interval exactly one packet goes out, a Hello to AllSPFRouters, and the timer is at 0 again,
-- where the Hello fits the buffer. The interval is below 2^32.
pub hello_period :
    (cs : ℕ → Choices) (n : ℕ) (r : Router) (i : Interface) (body : List ℕ)
    → r.interfaces ≡ i ∷ []
    → i.neighbors ≡ []
    → i.state ≢ Interface.down
    → i.hello_timer ≡ 0
    → n < i.hello_interval
    → i.hello_interval < 4294967296
    → checked_body (produce_hello i) ≡ ok body
    → (send_rounds cs n r ≡ ok (put_interface r 0 (record i { hello_timer = n })))
      × (send_rounds cs i.hello_interval r
          ≡ ok (send_packet r 0 i PacketType.hello body all_spf_routers))
hello_period cs n r i body only none up zero_timer early small fits =
    let alone : IsAlone r i = (only, none, up) in
    let (m, interval) = less_cases n i.hello_interval early in
    let same : at_time i 0 ≡ i = ap (λ (t : ℕ). at_time i t) (sym zero_timer) in
    let fits' : checked_body (produce_hello (at_time i 0)) ≡ ok body =
      ap (λ (x : Interface). checked_body (produce_hello x)) same ∙ fits in
    let sum : i.hello_timer + n ≡ n = omega (arith, zero_timer) in
    (
      rounds_from cs n r i alone (omega (arith, zero_timer, early)) small
          ∙ ap (λ (t : ℕ). ok (put_interface r 0 (at_time i t))) sum,
      ap (λ (t : ℕ). send_rounds cs t r) interval
          ∙ sends_from cs m r i body alone (omega (arith, zero_timer, interval)) small fits'
          ∙ ap
              (λ (x : Interface).
                ok (send_packet (put_interface r 0 x) 0 x PacketType.hello body all_spf_routers))
              same
          ∙ ap (λ (x : Router). ok (send_packet x 0 i PacketType.hello body all_spf_routers))
              (put_same r 0 i (alone_at r i alone)),
    )
  where
    less_cases : (a b : ℕ) → a < b → (m : ℕ) × (b ≡ suc m)
    less_cases a zero h = absurd (omega (arith, h))
    less_cases a (suc b) h = (b, refl)
