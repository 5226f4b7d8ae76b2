-- ===== src/Pscan/Tests.antt =====
-- A scan by pscan.c, with the theorems applied to it.
use knetutils.Base.{
  ℕ, ◌+◌, ◌-◌, ◌*◌, ◌≤◌, ◌≡◌, refl, sym, ◌∙◌, arith, true, false, ◌&&◌, Option, none, some,
}
use knetutils.Base.{
  List, [], ◌∷◌, ◌++◌, length, get_or, replicate, Text, codes, same_text, Family, inet, leb,
  if◌then◌else◌,
}
use knetutils.Base.{AgreeBelow, byte_at-append_left}
use knetutils.Base.Options.{Opt, goes, read_options, atoi, strtol}
use knetutils.Pscan.State.{Config, State, init_state}
use knetutils.Pscan.Ports.{port_list, count, count-port_list}
use knetutils.Pscan.Packet.{segment_of, process_packet}
use knetutils.Pscan.Safe.{process_packet-AgreeBelow}
use knetutils.Base.{◌==◌}
use knetutils.Pscan.Probe.{Packet, Turn}
use knetutils.Pscan.Banner.{grab_banner, AllPrintable, grab_banner-AllPrintable}
use knetutils.Pscan.Report.{json_report, ports_from, json_report_never}
use knetutils.Base.{map}
use knetutils.Pscan.Report.{Entry}
use knetutils.Pscan.Run.{World, json, pscan_run}
use knetutils.Pscan.Quoted.{unreachable_v4}
use knetutils.Pscan.Run.{Report}
use knetutils.Pscan.Udp.{unrefused_ports, ports_listed, pscan_run-unrefused_ports}
use knetutils.Pscan.Refine.{answered_ports, port_of, pscan_run-answered_ports}
use knetutils.Base.{zero, suc, get_or, Text, codes, ℕ}
use knetutils.Pscan.Json.{json_text}
use knetutils.Pscan.Grammar.{is_plain, is_digit, checked, All, digits, fraction, value, IsJson}
use knetutils.Pscan.Printed.{json_report-IsJson}
use knetutils.Base.{◌&&◌, false}
use knetutils.Pscan.Packet.{in_range}
use knetutils.Pscan.Run.{scan}
use knetutils.Pscan.Scan.{is_answered}
use knetutils.Pscan.Shown.{lines_for, one_if}
use knetutils.Pscan.OnceShown.{scan-lines}
use knetutils.Pscan.Options.{
  defaults, pscan_main, apply_option, apply_range, port_range, split_dash, take_target,
}

abbrev config_of : ℕ → ℕ → Config
config_of first last = record defaults { start_port = first; end_port = last; target_family = inet }

abbrev start : State
unfolding init_state
start = init_state (config_of 22 25) (10 ∷ 0 ∷ 0 ∷ 1 ∷ []) (codes "10.0.0.2") 77

-- A SYN-ACK from port 23 to the source port 1101, as a raw socket delivers it.
abbrev syn_ack : List ℕ
syn_ack =
    0x45 ∷ replicate 7 0
    ++ (64 ∷ replicate 11 0)
    ++ (0 ∷ 23 ∷ 4 ∷ 77 ∷ replicate 8 0 ++ (0x50 ∷ 0x12 ∷ 255 ∷ 255 ∷ 0 ∷ 0 ∷ 0 ∷ 0 ∷ []))

abbrev dirty : List ℕ
dirty = syn_ack ++ (1 ∷ 2 ∷ [])

abbrev clean : List ℕ
clean = syn_ack ++ (0 ∷ 0 ∷ [])

agree : AgreeBelow 40 dirty clean
agree i h =
    byte_at-append_left syn_ack (1 ∷ 2 ∷ []) i h
    ∙ sym (byte_at-append_left syn_ack (0 ∷ 0 ∷ []) i h)

process_packet-AgreeBelow_example :
    process_packet (config_of 22 25) start dirty 40 inet (codes "10.0.0.2") 9
    ≡ process_packet (config_of 22 25) start clean 40 inet (codes "10.0.0.2") 9
process_packet-AgreeBelow_example =
    process_packet-AgreeBelow (config_of 22 25) start dirty clean 40 inet (codes "10.0.0.2") 9 agree

opens :
    get_or
      (process_packet (config_of 22 25) start syn_ack 40 inet (codes "10.0.0.2") 9).open_ports
      1
      false
    ≡ true
unfolding init_state process_packet same_text segment_of
opens = refl

count-port_list_example :
    count 23 (port_list (record (config_of 22 25) { randomize = true }) (λ i. i * 7))
    ≡ (if leb 22 23 && leb 23 25 then 1 else 0)
count-port_list_example =
    count-port_list (record (config_of 22 25) { randomize = true }) (λ i. i * 7) 23 (omega arith)
      (omega arith)

grab_banner-AllPrintable_example :
    let out = grab_banner true true none (some (83 ∷ 83 ∷ 72 ∷ 13 ∷ 10 ∷ [])) [] 128 in
    AllPrintable out × (length out ≤ 127)
grab_banner-AllPrintable_example =
    grab_banner-AllPrintable true true none (some (83 ∷ 83 ∷ 72 ∷ 13 ∷ 10 ∷ [])) [] tt (omega arith)

json_report_never_example : json_report 100 (config_of 65530 65535) start ≡ none
json_report_never_example = json_report_never 100 (config_of 65530 65535) start (omega arith) refl

abbrev resolver : Text → Family → Option (List ℕ × Family)
resolver name family = some (10 ∷ 0 ∷ 0 ∷ 1 ∷ [], inet)

abbrev options : List Opt
options = (b'p', codes "20-25") ∷ []

abbrev chosen : Config
chosen = record defaults {
  start_port = 20;
  end_port = 25;
  target_addr = 10 ∷ 0 ∷ 0 ∷ 1 ∷ [];
  target_family = inet;
}

started : pscan_main resolver options (codes "host" ∷ []) ≡ goes chosen
unfolding pscan_main take_target apply_option apply_range port_range split_dash read_options atoi
    strtol
started = refl

-- The ports 23 and 22 are probed, and the answer of 23 is received after the second probe.
abbrev turns : List (ℕ × Turn)
turns =
    (23, record { now = 5; packets = [] })
    ∷ (
      22,
      record {
        now = 8;
        packets =
            record {
              buf = syn_ack;
              len = 40;
              family = inet;
              name = codes "10.0.0.2";
              recv_time = 9;
            }
            ∷ [];
      },
    )
    ∷ []

-- Only the second turn receives a packet, and the waiting receives it again.
abbrev syn_ack_packet : Packet
syn_ack_packet = record {
  buf = syn_ack;
  len = 40;
  family = inet;
  name = codes "10.0.0.2";
  recv_time = 9;
}

abbrev world : World
world = record {
  src_addr = 10 ∷ 0 ∷ 0 ∷ 1 ∷ [];
  target_str = codes "10.0.0.2";
  pid = 77;
  rand = λ i. 0;
  turn = λ i.
      if i == 1
      then record { now = 5; packets = syn_ack_packet ∷ [] }
      else record { now = 4; packets = [] };
  waited = (syn_ack_packet ∷ []) ∷ [];
  connection =
      λ port. record { opened = true; connected = true; first = none; second = some (83 ∷ []) };
}

abbrev json_config : Config
json_config = record (config_of 22 25) { json_output = true; banner_grab = true; randomize = true }

answered : answered_ports json_config world (ports_from 22 4) ≡ 23 ∷ []
unfolding same_text segment_of port_list
answered = refl

pscan_run-answered_ports_example :
    (es : List Entry) × (pscan_run (25 + 2 - 22) json_config world
      ≡ some (json (codes "10.0.0.2") es))
    × (map port_of es ≡ answered_ports json_config world (ports_from 22 (25 + 1 - 22)))
pscan_run-answered_ports_example =
    pscan_run-answered_ports json_config world refl refl (omega arith) (omega arith)

-- The answer of the target to the UDP probe of port 23: no process listens there.
abbrev unreachable : List ℕ
unreachable =
    0x45 ∷ replicate 19 0
    ++ (3 ∷ 3 ∷ replicate 6 0 ++ (0x45 ∷ replicate 19 0 ++ (4 ∷ 77 ∷ 0 ∷ 23 ∷ 0 ∷ 8 ∷ 0 ∷ 0 ∷ [])))

abbrev udp_world : World
udp_world = record world {
  waited = (record syn_ack_packet { buf = unreachable; len = 56 } ∷ []) ∷ [];
}

abbrev udp_config : Config
udp_config = record (config_of 22 25) { udp = true }

unrefused : unrefused_ports udp_config udp_world (ports_from 22 4) ≡ 22 ∷ 24 ∷ 25 ∷ []
unfolding port_list unreachable_v4
unrefused = refl

pscan_run-unrefused_ports_example :
    (r : Report) × (pscan_run (25 + 2 - 22) udp_config udp_world ≡ some r)
    × (ports_listed r ≡ unrefused_ports udp_config udp_world (ports_from 22 (25 + 1 - 22)))
pscan_run-unrefused_ports_example =
    pscan_run-unrefused_ports udp_config udp_world refl (omega arith) (omega arith)

-- A scan that found the port 22 open, with a banner.
abbrev found : State
unfolding init_state
found = record start {
  banners = codes "SSH-2.0" ∷ [];
  os_guesses = codes "Linux" ∷ [];
  open_ports = true ∷ [];
  open_rtt = 1_500_000 ∷ [];
}

abbrev shows : ℕ → ℕ → Text
shows n d = codes "1.500"

plain_slot :
    (text : Text) → All is_plain text → (idx : ℕ) → All is_plain (get_or (text ∷ []) idx [])
plain_slot text plain zero = plain
plain_slot text plain (suc idx) = tt

json_report-IsJson_example :
    (es : List Entry) × (json_report 2 (config_of 22 22) found ≡ some es)
    × IsJson value (json_text shows (codes "10.0.0.2") es)
unfolding init_state
json_report-IsJson_example =
    json_report-IsJson shows (config_of 22 22) found
      (λ n.
        fraction (codes "1") b'5' (codes "00") (codes "1.500")
          (digits b'1' [] (codes "1") refl (omega arith) tt refl)
          (checked is_digit (codes "500") refl) refl)
      (record {
        target = checked is_plain (codes "10.0.0.2") refl;
        guesses = plain_slot (codes "Linux") (checked is_plain (codes "Linux") refl);
        banners = plain_slot (codes "SSH-2.0") (checked is_plain (codes "SSH-2.0") refl);
      })
      (omega arith) (omega arith) (omega arith)

abbrev plain_config : Config
plain_config = record json_config { json_output = false }

scan-lines_example :
    lines_for 23 (scan plain_config world).printed
    ≡ one_if (in_range plain_config 23 && is_answered plain_config world 23)
scan-lines_example = scan-lines plain_config world 23 refl (omega arith) (omega arith)
