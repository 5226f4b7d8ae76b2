-- ===== src/Traceroute/Measured.antt =====
-- What the probes of src/traceroute.c hold at the end of a hop, by the clock, the kernel and the packets.
use knetutils.Base.{ℕ, zero, suc, ◌+◌}
use knetutils.Base.{◌≡◌, refl, sym, ap, ◌∙◌, ◌⊎◌, inl, inr, arith}
use knetutils.Base.{Bool, true, ◌&&◌, Option, none, some, List, [], ◌∷◌}
use knetutils.Base.{◌==◌, Bool-cases, Option-cases}
use knetutils.Base.{replicate, u8}
use knetutils.Traceroute.Probe.{Config, State, send_traceroute_probe}
use knetutils.Traceroute.Run.{
  Probe, Packet, Tick, Hop, Sending, Waiting, blank, send_one, send_probes, credit, pending,
  find_mine, is_mine, receive, wait_round, wait_loop, run_hop,
}
use knetutils.Traceroute.Named.{send_probes-unanswered, received_in_round}
use mathlib.Core.Path.{subst}

module _ (config : Config) (pid base_seq ttl : ℕ) where
  -- The round brought a packet that answers the probe `i`; its sender and the clock were noted.
  abbrev pub Brings : ℕ → Probe → Tick → Type 0
  Brings i p tick =
      (pkt : Packet) × (tick.packet ≡ some pkt)
      × (is_mine config pid base_seq ttl pkt i ≡ true)
      × (p.src_addr ≡ pkt.src)
      × (p.recv_time ≡ tick.match_time)

  abbrev pub SomeBrings : ℕ → Probe → List Tick → Type 0
  SomeBrings i p [] = ⊥
  SomeBrings i p (tick ∷ ticks) = Brings i p tick ⊎ SomeBrings i p ticks

  -- A probe that was sent was taken by the kernel, at the time noted; one that was answered was sent, and
  -- answered by a packet of some round.
  pub record IsMeasured (hop : Hop) (i : ℕ) (p : Probe) : Type 0 where
    pub taken : p.sent_ok ≡ true → hop.taken i ≡ true
    pub sent_at : p.sent_ok ≡ true → p.send_time ≡ hop.send_time i
    pub was_sent : p.received ≡ true → p.sent_ok ≡ true
    pub answered : p.received ≡ true → SomeBrings i p hop.ticks

-- So do the probes of all hops, each with the identifier and the first sequence number of its hop.
abbrev pub AllMeasured : Config → State → ℕ → List Hop → Type 0
AllMeasured config st ttl [] = Unit
AllMeasured config st ttl (hop ∷ hops) =
    ((i : ℕ) → IsMeasured config st.pid st.seq ttl hop i ((run_hop config st ttl hop).1 i))
    × AllMeasured config (run_hop config st ttl hop).0 (u8 (ttl + 1)) hops

find_mine-some :
    (mine : ℕ → Bool) (probes : ℕ → Probe) (left probe k : ℕ)
    → find_mine mine probes left probe ≡ some k
    → (pending probes k ≡ true) × (mine k ≡ true)
unfolding find_mine
find_mine-some mine probes zero probe k e = ground (arith, e)
find_mine-some mine probes (suc left) probe k e =
    let rest = find_mine-some mine probes left (probe + 1) k in
    elim (Bool-cases (pending probes probe && mine probe)) [
      | inl t ↦ ground (arith, e, t)
      | inr f ↦ rest (ground (arith, e, f))
    ]

module _ (config : Config) (st : State) (base_seq ttl : ℕ) (hop : Hop) where
  abbrev AreMeasured : (ℕ → Probe) → Type 0
  AreMeasured probes = (i : ℕ) → IsMeasured config st.pid base_seq ttl hop i (probes i)

  credit-AreMeasured :
      (tick : Tick) (pkt : Packet) (found : Option ℕ) (w : Waiting)
      → ((i : ℕ) (p : Probe)
          → Brings config st.pid base_seq ttl i p tick
          → SomeBrings config st.pid base_seq ttl i p hop.ticks)
      → tick.packet ≡ some pkt
      → ((k : ℕ)
          → found ≡ some k
          → (pending w.probes k ≡ true) × (is_mine config st.pid base_seq ttl pkt k ≡ true))
      → AreMeasured w.probes
      → AreMeasured (credit config tick pkt found w).probes
  unfolding credit
  credit-AreMeasured tick pkt none w within comes mine m i = m i
  credit-AreMeasured tick pkt (some k) w within comes mine m i = elim (Bool-cases (i == k)) [
    | inr e ↦ rw e (m i)
    | inl e ↦
        let same : i ≡ k = ground (arith, e) in
        let (waits, ours) = mine k refl in
        let old : IsMeasured config st.pid base_seq ttl hop i (w.probes k) =
          subst (λ j. IsMeasured config st.pid base_seq ttl hop i (w.probes j)) same (m i) in
        let sent : (w.probes k).sent_ok ≡ true = ground (arith, waits) in
        let here : is_mine config st.pid base_seq ttl pkt i ≡ true =
          ap (is_mine config st.pid base_seq ttl pkt) same ∙ ours in
        let p : Probe = record (w.probes k) {
          recv_time = tick.match_time;
          src_addr = pkt.src;
          received = true;
        } in
        rw e (record {
          taken = old.taken;
          sent_at = old.sent_at;
          was_sent = λ r. sent;
          answered = λ r. within i p (pkt, comes, here, refl, refl);
        })
  ]

  receive-AreMeasured :
      (tick : Tick) (packet : Option Packet) (w : Waiting)
      → ((i : ℕ) (p : Probe)
          → Brings config st.pid base_seq ttl i p tick
          → SomeBrings config st.pid base_seq ttl i p hop.ticks)
      → tick.packet ≡ packet
      → AreMeasured w.probes
      → AreMeasured (receive config st base_seq ttl tick packet w).probes
  unfolding receive
  receive-AreMeasured tick none w within comes m = m
  receive-AreMeasured tick (some pkt) w within comes m =
      let mine = is_mine config st.pid base_seq ttl pkt in
      credit-AreMeasured tick pkt (find_mine mine w.probes config.queries 0) w within comes
        (find_mine-some mine w.probes config.queries 0) m

  wait-AreMeasured :
      (until : ℕ) (ticks : List Tick) (w : Waiting)
      → ((i : ℕ) (p : Probe)
          → SomeBrings config st.pid base_seq ttl i p ticks
          → SomeBrings config st.pid base_seq ttl i p hop.ticks)
      → AreMeasured w.probes
      → AreMeasured (wait_loop config st base_seq ttl until ticks w).probes
  unfolding wait_loop
  wait-AreMeasured until [] w within m = m
  wait-AreMeasured until (tick ∷ ticks) w within m =
      elim (Option-cases (wait_round config st base_seq ttl until tick w)) [
        | inl e ↦ rw (e, wait_loop) m
        | inr (w', e) ↦
            let next : AreMeasured w'.probes =
              subst (λ (x : Waiting). AreMeasured x.probes)
                (sym (received_in_round config st base_seq ttl until tick w w' e))
                (receive-AreMeasured tick tick.packet w (λ i p b. within i p (inl b)) refl m) in
            rw (e, wait_loop) (wait-AreMeasured until ticks w' (λ i p b. within i p (inr b)) next)
      ]

-- What holds of a probe while the probes are sent.
abbrev WasSent : Hop → ℕ → Probe → Type 0
WasSent hop i p =
    (p.sent_ok ≡ true → hop.taken i ≡ true) × (p.sent_ok ≡ true → p.send_time ≡ hop.send_time i)

send_one-WasSent :
    (config : Config) (ttl : ℕ) (hop : Hop) (probe : ℕ) (s : Sending)
    → ((i : ℕ) → WasSent hop i (s.probes i))
    → (i : ℕ) → WasSent hop i ((send_one config ttl hop probe s).probes i)
unfolding send_one send_traceroute_probe
send_one-WasSent config ttl hop probe s h i = elim (Bool-cases (i == probe)) [
  | inr e ↦ rw e (h i)
  | inl e ↦
      let same : i ≡ probe = ground (arith, e) in
      let ok = ap hop.taken same in
      let at = ap hop.send_time same in rw e ((λ t. ground (arith, ok, t)), (λ t. sym at))
]

send_probes-WasSent :
    (config : Config) (ttl : ℕ) (hop : Hop) (left probe : ℕ) (s : Sending)
    → ((i : ℕ) → WasSent hop i (s.probes i))
    → (i : ℕ) → WasSent hop i ((send_probes config ttl hop left probe s).probes i)
unfolding send_probes
send_probes-WasSent config ttl hop zero probe s h = h
send_probes-WasSent config ttl hop (suc left) probe s h =
    elim (Bool-cases (hop.send_running probe)) [
      | inr e ↦ rw (send_probes, e) h
      | inl e ↦
          rw (send_probes, e)
            (send_probes-WasSent config ttl hop left (probe + 1) (send_one config ttl hop probe s)
              (send_one-WasSent config ttl hop probe s h))
    ]

pid-send_one :
    (config : Config) (ttl : ℕ) (hop : Hop) (probe : ℕ) (s : Sending)
    → (send_one config ttl hop probe s).state.pid ≡ s.state.pid
unfolding send_one send_traceroute_probe
pid-send_one config ttl hop probe s = ground arith

pid-send_probes :
    (config : Config) (ttl : ℕ) (hop : Hop) (left probe : ℕ) (s : Sending)
    → (send_probes config ttl hop left probe s).state.pid ≡ s.state.pid
unfolding send_probes
pid-send_probes config ttl hop zero probe s = refl
pid-send_probes config ttl hop (suc left) probe s = ground (
  arith,
  pid-send_probes config ttl hop left (probe + 1) (send_one config ttl hop probe s),
  pid-send_one config ttl hop probe s,
)

run_hop-IsMeasured :
    (config : Config) (st : State) (ttl : ℕ) (hop : Hop) (i : ℕ)
    → IsMeasured config st.pid st.seq ttl hop i ((run_hop config st ttl hop).1 i)
unfolding run_hop
run_hop-IsMeasured config st ttl hop i =
    let start : Sending = record {
      state = record st { last_hop_addr = replicate 128 0 };
      probes = λ _. blank;
      wait_until = 0;
      log = [];
    } in
    let s : Sending = send_probes config ttl hop config.queries 0 start in
    let sent =
      send_probes-WasSent config ttl hop config.queries 0 start
        (λ j. ((λ t. absurd (ground (arith, t))), (λ t. absurd (ground (arith, t))))) in
    let silent = send_probes-unanswered config ttl hop config.queries 0 start (λ j. refl) in
    let before : AreMeasured config s.state st.seq ttl hop s.probes = λ j. record {
      taken = (sent j).0;
      sent_at = (sent j).1;
      was_sent = λ r. absurd (ground (arith, r, silent j));
      answered = λ r. absurd (ground (arith, r, silent j));
    } in
    let measured =
      wait-AreMeasured config s.state st.seq ttl hop s.wait_until hop.ticks
        (record { target_reached = s.state.target_reached; probes = s.probes }) (λ j p b. b) before
        i in
    subst (λ pid. IsMeasured config pid st.seq ttl hop i ((run_hop config st ttl hop).1 i))
      (pid-send_probes config ttl hop config.queries 0 start) measured

pub run-AllMeasured :
    (config : Config) (st : State) (ttl : ℕ) (hops : List Hop) → AllMeasured config st ttl hops
run-AllMeasured config st ttl [] = tt
run-AllMeasured config st ttl (hop ∷ hops) = (
  run_hop-IsMeasured config st ttl hop,
  run-AllMeasured config (run_hop config st ttl hop).0 (u8 (ttl + 1)) hops,
)
