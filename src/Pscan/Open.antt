-- ===== src/Pscan/Open.antt =====
-- Which ports are open after a whole scan by src/pscan.c.
use knetutils.Base.{ℕ, ◌+◌, ◌-◌, ◌<◌}
use knetutils.Base.{◌≡◌, refl, sym, ap, ap₂, ◌∙◌, inl, inr, arith}
use knetutils.Base.{Bool, true, false, ◌||◌, List, [], ◌∷◌, ◌++◌}
use knetutils.Base.{Bool-cases}
use knetutils.Base.{length, get_or}
use knetutils.Base.{Text}
use knetutils.Pscan.State.{Config, State}
use knetutils.Pscan.Packet.{in_range, process_packet}
use knetutils.Pscan.Probe.{Packet, Turn, send_probe, drain_packets, probe_ports}
use knetutils.Pscan.Answered.{
  answers, any_answers, SameScan, is_open, process_packet-SameScan, process_packet-open,
}

pub SameScan-trans : (a b c : State) → SameScan a b → SameScan b c → SameScan a c
SameScan-trans a b c s r = record {
  same_target = r.same_target ∙ s.same_target;
  same_sport = r.same_sport ∙ s.same_sport;
  same_slots = r.same_slots ∙ s.same_slots;
}

pub drain-SameScan :
    (config : Config) (st : State) (pkts : List Packet) → SameScan st (drain_packets config st pkts)
unfolding drain_packets
drain-SameScan config st [] = record { same_target = refl; same_sport = refl; same_slots = refl }
drain-SameScan config st (pkt ∷ pkts) =
    let st₁ : State = process_packet config st pkt.buf pkt.len pkt.family pkt.name pkt.recv_time in
    SameScan-trans st st₁ (drain_packets config st₁ pkts) (process_packet-SameScan config st pkt)
      (drain-SameScan config st₁ pkts)

pub or_assoc : (a b c : Bool) → ((a || b) || c) ≡ (a || (b || c))
or_assoc true b c = refl
or_assoc false b c = refl

pub or_nothing : (a : Bool) → a ≡ (a || false)
or_nothing true = refl
or_nothing false = refl

module _ (config : Config) (port : ℕ) (inside : in_range config port ≡ true) where
  pub drain-open :
      (st : State) (pkts : List Packet)
      → config.end_port < config.start_port + length st.open_ports
      → is_open config (drain_packets config st pkts) port
        ≡ (is_open config st port || any_answers config st.target_str st.sport port pkts)
  unfolding drain_packets
  drain-open st [] room = or_nothing (is_open config st port)
  drain-open st (pkt ∷ pkts) room =
      let st₁ : State =
        process_packet config st pkt.buf pkt.len pkt.family pkt.name pkt.recv_time in
      let s = process_packet-SameScan config st pkt in
      drain-open st₁ pkts (omega (arith, s.same_slots))
      ∙ ap₂ (λ a b. a || b) (process_packet-open config st port inside room pkt)
          (ap₂ (λ target sport. any_answers config target sport port pkts) s.same_target
            s.same_sport)
      ∙ or_assoc (is_open config st port) (answers config st.target_str st.sport port pkt)
          (any_answers config st.target_str st.sport port pkts)

-- The packets of all turns, in order.
abbrev pub packets_of : List (ℕ × Turn) → List Packet
packets_of [] = []
packets_of ((port, turn) ∷ turns) = turn.packets ++ packets_of turns

send-SameScan :
    (config : Config) (st : State) (p now : ℕ)
    → SameScan st (send_probe config st p now).0
      × ((send_probe config st p now).0.open_ports ≡ st.open_ports)
unfolding send_probe
send-SameScan config st p now = elim (Bool-cases (in_range config p)) [
  | inl e ↦ rw e (record { same_target = refl; same_sport = refl; same_slots = refl }, refl)
  | inr e ↦ rw e (record { same_target = refl; same_sport = refl; same_slots = refl }, refl)
]

-- The probing does what receiving all its packets does to the open ports.
pub any-append :
    (config : Config) (target : Text) (sport port : ℕ) (xs ys : List Packet)
    → any_answers config target sport port (xs ++ ys)
      ≡ (any_answers config target sport port xs || any_answers config target sport port ys)
any-append config target sport port [] ys = refl
any-append config target sport port (x ∷ xs) ys =
    ap (λ b. answers config target sport port x || b) (any-append config target sport port xs ys)
    ∙ sym (
        or_assoc (answers config target sport port x) (any_answers config target sport port xs)
          (any_answers config target sport port ys))

pub probe-SameScan :
    (config : Config) (st : State) (turns : List (ℕ × Turn))
    → SameScan st (probe_ports config st turns)
unfolding probe_ports
probe-SameScan config st [] = record { same_target = refl; same_sport = refl; same_slots = refl }
probe-SameScan config st ((p, turn) ∷ turns) =
    let sent : State = (send_probe config st p turn.now).0 in
    let st₁ : State = drain_packets config sent turn.packets in
    SameScan-trans st sent (probe_ports config st₁ turns) (send-SameScan config st p turn.now).0 (
      SameScan-trans sent st₁ (probe_ports config st₁ turns)
        (drain-SameScan config sent turn.packets) (probe-SameScan config st₁ turns))

module _ (config : Config) (port : ℕ) (inside : in_range config port ≡ true) where
  pub probe-open :
      (st : State) (turns : List (ℕ × Turn))
      → config.end_port < config.start_port + length st.open_ports
      → is_open config (probe_ports config st turns) port ≡ (
          is_open config st port
          || any_answers config st.target_str st.sport port (packets_of turns))
  unfolding probe_ports
  probe-open st [] room = or_nothing (is_open config st port)
  probe-open st ((p, turn) ∷ turns) room =
      let sent : State = (send_probe config st p turn.now).0 in
      let st₁ : State = drain_packets config sent turn.packets in
      let (a, same) = send-SameScan config st p turn.now in
      let b = drain-SameScan config sent turn.packets in
      let s = SameScan-trans st sent st₁ a b in
      let spec = λ (xs : List Packet). any_answers config st.target_str st.sport port xs in
      probe-open st₁ turns (omega (arith, s.same_slots))
      ∙ ap₂ (λ x y. x || y)
          (drain-open config port inside sent turn.packets (omega (arith, a.same_slots))
            ∙ ap₂ (λ x y. x || y) (ap (λ l. get_or l (port - config.start_port) false) same)
                (ap₂ (λ t n. any_answers config t n port turn.packets) a.same_target a.same_sport))
          (ap₂ (λ t n. any_answers config t n port (packets_of turns)) s.same_target s.same_sport)
      ∙ or_assoc (is_open config st port) (spec turn.packets) (spec (packets_of turns))
      ∙ ap (λ x. is_open config st port || x)
          (sym (any-append config st.target_str st.sport port turn.packets (packets_of turns)))
