-- ===== src/Traceroute/Named.antt =====
-- Every answer that src/traceroute.c notes in a run has the address of its sender.
use knetutils.Base.{ℕ, zero, suc, ◌+◌}
use knetutils.Base.{◌≡◌, refl, sym, ◌≢◌, inl, inr, arith}
use knetutils.Base.{true, false, Option, none, some, List, [], ◌∷◌}
use knetutils.Base.{◌==◌, Bool-cases, Option-cases}
use knetutils.Base.{replicate}
use knetutils.Traceroute.Probe.{Config, State}
use knetutils.Traceroute.Run.{
  Probe, Packet, Tick, Hop, Sending, Waiting, blank, send_one, send_probes, credit, find_mine,
  is_mine, receive, wait_round, wait_loop, run_hop,
}
use knetutils.Traceroute.Print.{no_addr}
use mathlib.Core.Path.{subst}

-- The sender of a packet that recvfrom gives has an address.
abbrev pub IsKnown : Option Packet → Type 0
IsKnown none = Unit
IsKnown (some pkt) = pkt.src ≢ no_addr

abbrev pub AreKnown : List Tick → Type 0
AreKnown [] = Unit
AreKnown (tick ∷ ticks) = IsKnown (tick.packet) × AreKnown ticks

abbrev pub AllKnown : List Hop → Type 0
AllKnown [] = Unit
AllKnown (hop ∷ hops) = AreKnown (hop.ticks) × AllKnown hops

-- Every answered probe was answered from an address.
abbrev pub AllNamed : (ℕ → Probe) → Type 0
AllNamed probes = (i : ℕ) → (probes i).received ≡ true → (probes i).src_addr ≢ no_addr

-- Invariant of a run: an answered probe has the address of some packet.
credit-AllNamed :
    (config : Config) (tick : Tick) (pkt : Packet) (found : Option ℕ) (w : Waiting)
    → pkt.src ≢ no_addr
    → AllNamed (w.probes)
    → AllNamed ((credit config tick pkt found w).probes)
unfolding credit
credit-AllNamed config tick pkt none w known h i r = h i r
credit-AllNamed config tick pkt (some k) w known h i r = elim (Bool-cases (i == k)) [
  | inl e ↦ rw e known
  | inr e ↦ let old : (w.probes i).received ≡ true = ground (arith, e, r) in rw e (h i old)
]

receive-AllNamed :
    (config : Config) (st : State) (base_seq ttl : ℕ) (tick : Tick) (packet : Option Packet)
    (w : Waiting)
    → IsKnown packet
    → AllNamed (w.probes)
    → AllNamed ((receive config st base_seq ttl tick packet w).probes)
unfolding receive
receive-AllNamed config st base_seq ttl tick none w known h = h
receive-AllNamed config st base_seq ttl tick (some pkt) w known h =
    credit-AllNamed config tick pkt
      (find_mine (is_mine config st.pid base_seq ttl pkt) w.probes config.queries 0) w known h

pub received_in_round :
    (config : Config) (st : State) (base_seq ttl until : ℕ) (tick : Tick) (w w' : Waiting)
    → wait_round config st base_seq ttl until tick w ≡ some w'
    → w' ≡ receive config st base_seq ttl tick (tick.packet) w
unfolding wait_round
received_in_round config st base_seq ttl until tick w w' e = ground (arith, e)

wait-AllNamed :
    (config : Config) (st : State) (base_seq ttl until : ℕ) (ticks : List Tick) (w : Waiting)
    → AreKnown ticks
    → AllNamed (w.probes)
    → AllNamed ((wait_loop config st base_seq ttl until ticks w).probes)
unfolding wait_loop
wait-AllNamed config st base_seq ttl until [] w known h = h
wait-AllNamed config st base_seq ttl until (tick ∷ ticks) w known h =
    elim (Option-cases (wait_round config st base_seq ttl until tick w)) [
      | inl e ↦ rw (e, wait_loop) h
      | inr (w', e) ↦
          let next : AllNamed (w'.probes) =
            subst (λ (x : Waiting). AllNamed (x.probes))
              (sym (received_in_round config st base_seq ttl until tick w w' e))
              (receive-AllNamed config st base_seq ttl tick (tick.packet) w known.0 h) in
          rw (e, wait_loop) (wait-AllNamed config st base_seq ttl until ticks w' known.1 next)
    ]

-- While the probes are sent, none has an answer.
pub send_probes-unanswered :
    (config : Config) (ttl : ℕ) (hop : Hop) (left probe : ℕ) (s : Sending)
    → ((i : ℕ) → (s.probes i).received ≡ false)
    → (i : ℕ) → ((send_probes config ttl hop left probe s).probes i).received ≡ false
unfolding send_probes send_one
send_probes-unanswered config ttl hop zero probe s h i = h i
send_probes-unanswered config ttl hop (suc left) probe s h i =
    let one : (j : ℕ) → ((send_one config ttl hop probe s).probes j).received ≡ false =
      λ j. ground (arith, h j, h probe) in
    ground (
      arith,
      h i,
      send_probes-unanswered config ttl hop left (probe + 1) (send_one config ttl hop probe s) one
          i,
    )

pub run_hop-AllNamed :
    (config : Config) (st : State) (ttl : ℕ) (hop : Hop)
    → AreKnown (hop.ticks)
    → AllNamed ((run_hop config st ttl hop).1)
unfolding run_hop
run_hop-AllNamed config st ttl hop known =
    let sending : Sending = record {
      state = record st { last_hop_addr = replicate 128 0 };
      probes = λ _. blank;
      wait_until = 0;
      log = [];
    } in
    wait-AllNamed config _ st.seq ttl _ hop.ticks _ known (λ i r. absurd (
      ground
        (arith, r, send_probes-unanswered config ttl hop config.queries 0 sending (λ j. refl) i)))
