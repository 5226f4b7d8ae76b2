-- ===== src/Pscan/Shown.antt =====
-- The lines that src/pscan.c prints for open ports while it scans.
use knetutils.Base.{ℕ, suc, ◌+◌, ◌-◌, ◌<◌}
use knetutils.Base.{◌≡◌, refl, sym, ap, ◌∙◌, inl, inr, arith}
use knetutils.Base.{Bool, true, false, not, ◌&&◌, Option, none, some, List, [], ◌∷◌, ◌++◌}
use knetutils.Base.{ltb, ◌==◌, ◌!=◌, if◌then◌else◌, Bool-cases}
use knetutils.Base.{length, get_or, set}
use knetutils.Base.{length-set, get_or-set_self, get_or-set_ne}
use knetutils.Base.{same_text}
use knetutils.Base.{Family, is_inet}
use native.Mathlib.Decide.{ℕ_discrete}
use knetutils.Pscan.State.{Config, OpenLine, State}
use knetutils.Pscan.Packet.{
  in_range, close_port, refused_v4, refused_v6, Segment, segment_of, is_syn_ack, open_port,
  take_segment, process_packet,
}
use knetutils.Pscan.Probe.{Packet}
use knetutils.Pscan.Answered.{is_open}

-- How many lines there are for a port.
abbrev pub lines_for : ℕ → List OpenLine → ℕ
lines_for port [] = 0
lines_for port (line ∷ lines) =
    if line.port == port then suc (lines_for port lines) else lines_for port lines

lines_for-append :
    (port : ℕ) (xs ys : List OpenLine)
    → lines_for port (xs ++ ys) ≡ lines_for port xs + lines_for port ys
lines_for-append port [] ys = omega arith
lines_for-append port (x ∷ xs) ys = ground (arith, lines_for-append port xs ys)

abbrev pub one_if : Bool → ℕ
one_if b = if b then 1 else 0

-- There is one line for each open port, and none for another port of the range or one outside.
pub record IsShown (config : Config) (st : State) : Type 0 where
  pub room : config.end_port < config.start_port + length st.open_ports
  pub once :
      (port : ℕ)
      → in_range config port ≡ true
      → lines_for port st.printed ≡ one_if (is_open config st port)
  pub inside : (port : ℕ) → in_range config port ≡ false → lines_for port st.printed ≡ 0

-- One more line, for the port of the segment.
opened_lines :
    (config : Config) (family : Family) (now idx : ℕ) (seg : Segment) (st : State) (port : ℕ)
    → config.json_output ≡ false
    → lines_for port (open_port config family now idx seg st).printed
      ≡ lines_for port st.printed + one_if (seg.port == port)
unfolding open_port
opened_lines config family now idx seg st port loud = rw loud (lines_for-append port st.printed _)

opened_slots :
    (config : Config) (family : Family) (now idx : ℕ) (seg : Segment) (st : State)
    → (open_port config family now idx seg st).open_ports ≡ set st.open_ports idx true
unfolding open_port
opened_slots config family now idx seg st = refl

chosen-IsShown :
    (config : Config) (test : Bool) (a b : State)
    → (test ≡ true → IsShown config a)
    → (test ≡ false → IsShown config b)
    → IsShown config (if test then a else b)
chosen-IsShown config true a b yes' no' = yes' refl
chosen-IsShown config false a b yes' no' = no' refl

-- The lines and the slots of a state decide.
pub agreeing-IsShown :
    (config : Config) (st st' : State)
    → st'.printed ≡ st.printed
    → st'.open_ports ≡ st.open_ports
    → IsShown config st
    → IsShown config st'
agreeing-IsShown config st st' lines slots s = record {
  room = omega (arith, s.room, ap length slots);
  once = λ port at.
      ap (lines_for port) lines
      ∙ s.once port at
      ∙ ap (λ l. one_if (get_or l (port - config.start_port) false)) (sym slots);
  inside = λ port out. ap (lines_for port) lines ∙ s.inside port out;
}

module _ (config : Config) (loud : config.json_output ≡ false) where
  open_port-IsShown :
      (family : Family) (now : ℕ) (seg : Segment) (st : State)
      → in_range config seg.port ≡ true
      → is_open config st seg.port ≡ false
      → IsShown config st
      → IsShown config (open_port config family now (seg.port - config.start_port) seg st)
  open_port-IsShown family now seg st here fresh s =
      let idx = seg.port - config.start_port in
      let slots = opened_slots config family now idx seg st in
      record {
        room = omega (arith, s.room, ap length slots, length-set st.open_ports idx true);
        once = λ port at.
            let one = opened_lines config family now idx seg st port loud in
            let flag = ap (λ l. one_if (get_or l (port - config.start_port) false)) slots in
            elim (ℕ_discrete seg.port port) [
              | yes e ↦
                  let hit : get_or (set st.open_ports idx true) (port - config.start_port) false
                      ≡ true =
                    ap (λ n. get_or (set st.open_ports idx true) (n - config.start_port) false)
                      (sym e)
                    ∙ get_or-set_self st.open_ports idx true false (ground (arith, here, s.room)) in
                  let old : is_open config st port ≡ false =
                    ap (is_open config st) (sym e) ∙ fresh in
                  ground (arith, one, flag, hit, old, s.once port at)
              | no ne ↦
                  let other =
                    get_or-set_ne st.open_ports idx (port - config.start_port) true false
                      (ground (arith, here, at, ne)) in
                  ground (arith, one, flag, other, s.once port at)
            ];
        inside = λ port out.
            let one = opened_lines config family now idx seg st port loud in
            let differ : (seg.port == port) ≡ false = ground (arith, here, out) in
            ground (arith, one, differ, s.inside port out);
      }

  take_segment-IsShown :
      (family : Family) (now : ℕ) (seg : Option Segment) (st : State)
      → IsShown config st
      → IsShown config (take_segment config family now seg st)
  unfolding take_segment
  take_segment-IsShown family now none st s = s
  take_segment-IsShown family now (some seg) st s =
      let idx = seg.port - config.start_port in
      let opened = open_port config family now idx seg st in
      let fresh = is_syn_ack seg && not (get_or st.open_ports idx false) in
      let answer = if fresh then opened else st in
      let inside = if not (in_range config seg.port) then st else answer in
      chosen-IsShown config (seg.dport != st.sport) st inside (λ e. s)
        (λ e.
          chosen-IsShown config (not (in_range config seg.port)) st answer (λ f. s)
            (λ f.
              chosen-IsShown config fresh opened st
                (λ g. open_port-IsShown family now seg st (ground (arith, f)) (ground (arith, g)) s)
                (λ g. s)))

  close_port-IsShown :
      (port : Option ℕ) (st : State)
      → IsShown config st
      → IsShown config (close_port config port st)
  unfolding close_port
  close_port-IsShown none st s = s
  close_port-IsShown (some port) st s = elim (Bool-cases (in_range config port)) [
    | inl e ↦ rw e (agreeing-IsShown config st _ refl refl s)
    | inr e ↦ rw e s
  ]

  pub process_packet-IsShown :
      (st : State) (pkt : Packet)
      → IsShown config st
      → IsShown config (process_packet config st pkt.buf pkt.len pkt.family pkt.name pkt.recv_time)
  unfolding process_packet
  process_packet-IsShown st pkt s =
      let seg = segment_of pkt.family pkt.buf pkt.len in
      let p =
        if is_inet config.target_family
        then refused_v4 pkt.buf pkt.len
        else refused_v6 pkt.buf pkt.len in
      let closed = close_port config p st in
      let taken = take_segment config pkt.family pkt.recv_time seg st in
      let named = if not (same_text pkt.name st.target_str) then st else taken in
      let sized = if ltb pkt.len 20 then st else named in
      chosen-IsShown config config.udp closed sized (λ e. close_port-IsShown p st s)
        (λ e.
          chosen-IsShown config (ltb pkt.len 20) st named (λ f. s)
            (λ f.
              chosen-IsShown config (not (same_text pkt.name st.target_str)) st taken (λ g. s)
                (λ g. take_segment-IsShown pkt.family pkt.recv_time seg st s)))
