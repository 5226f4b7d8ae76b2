-- ===== src/Traceroute/Tests.antt =====
-- Packets and runs of traceroute.c, with the theorems applied to them.
use knetutils.Base.{
  ℕ, ◌+◌, ◌-◌, ◌≤◌, ◌≡◌, inl, refl, sym, ◌∙◌, arith, true, false, ◌&&◌, ◌==◌, Option, none, some,
}
use knetutils.Base.{List, [], ◌∷◌, ◌++◌, length, take, replicate, swap16, Text, codes, Family, inet}
use knetutils.Base.{AgreeBelow, byte_at-append_left}
use knetutils.Base.Options.{Opt, goes, read_options, atoi, strtol}
use knetutils.Traceroute.Match.{is_our_probe_v4, is_our_probe_v6, check_is_target}
use knetutils.Traceroute.Safe.{packet_tests-AgreeBelow}
use knetutils.Traceroute.Probe.{Config, State, echo_v4}
use knetutils.Traceroute.Run.{Packet, Hop, Tick, is_mine, traceroute_loop}
use knetutils.Traceroute.Unique.{is_mine_unique}
use knetutils.Traceroute.Hops.{traceroute_loop-le, traceroute_loop_endless}
use knetutils.Traceroute.Answer.{IsHeader, message, is_our_probe_v4-quoted}
use knetutils.Base.{map, ◌≢◌}
use knetutils.Traceroute.Probe.{init_traceroute_state}
use knetutils.Traceroute.Print.{no_addr, traceroute_run}
use knetutils.Traceroute.Measured.{AllMeasured}
use knetutils.Traceroute.Read.{read_line, seen_hop, read-traceroute_run}
use knetutils.Traceroute.Options.{defaults, traceroute_main, take_target, apply_option}

abbrev header : List ℕ
header = 0x45 ∷ replicate 19 0

header-IsHeader : IsHeader header
header-IsHeader = record { says = refl; room = omega arith }

abbrev buffer : List ℕ
buffer = replicate 28 0

abbrev seven : List ℕ
seven = replicate 7 0

-- The error that a router sends back for the probe with the given identifier and number.
abbrev expired_reply : ℕ → ℕ → List ℕ
expired_reply id seq = header ++ message 11 seven (header ++ (take 8 (echo_v4 buffer id seq) ++ []))

is_our_probe_v4-quoted_example :
    is_our_probe_v4
      (expired_reply 77 3)
      (length (expired_reply 77 3))
      (swap16 77)
      (swap16 4)
      false
      33434
    ≡ (77 == 77 && 3 == 4)
is_our_probe_v4-quoted_example =
    is_our_probe_v4-quoted header seven header [] buffer 11 77 3 77 4 33434 header-IsHeader
      header-IsHeader refl (inl refl) (omega arith) (omega arith) (omega arith) (omega arith)
      (omega arith)

-- An echo reply with identifier 77 and number 3, as raw sockets of IPv4 deliver it.
abbrev reply : List ℕ
reply = header ++ (0 ∷ 0 ∷ 0 ∷ 0 ∷ 0 ∷ 77 ∷ 0 ∷ 3 ∷ replicate 20 0)

abbrev dirty : List ℕ
dirty = reply ++ (1 ∷ 2 ∷ 3 ∷ [])

abbrev clean : List ℕ
clean = reply ++ (0 ∷ 0 ∷ 0 ∷ [])

agree : AgreeBelow 48 dirty clean
agree i h =
    byte_at-append_left reply (1 ∷ 2 ∷ 3 ∷ []) i h
    ∙ sym (byte_at-append_left reply (0 ∷ 0 ∷ 0 ∷ []) i h)

packet_tests-AgreeBelow_example :
    (is_our_probe_v4 dirty 48 (swap16 77) (swap16 3) false 33434
      ≡ is_our_probe_v4 clean 48 (swap16 77) (swap16 3) false 33434)
    × (is_our_probe_v6 dirty 48 (swap16 77) (swap16 3) false 33434
        ≡ is_our_probe_v6 clean 48 (swap16 77) (swap16 3) false 33434)
    × (check_is_target inet false dirty 48 ≡ check_is_target inet false clean 48)
packet_tests-AgreeBelow_example =
    packet_tests-AgreeBelow dirty clean 48 (swap16 77) (swap16 3) false 33434 inet (omega arith)
      agree

abbrev config_of : ℕ → Config
config_of max_ttl = record defaults { max_ttl = max_ttl; family = inet }

abbrev packet : Packet
packet = record { buf = reply; len = 48; src = [] }

is_reply : is_mine (config_of 30) 77 1 2 packet 2 ≡ true
unfolding is_mine is_our_probe_v4
is_reply = refl

is_mine_unique_example : ◌≡◌ {A = ℕ} 2 2
is_mine_unique_example =
    is_mine_unique (config_of 30) 77 1 2 packet 2 2 (omega arith) (omega arith) is_reply is_reply

abbrev start : State
start = record {
  pid = 77;
  seq = 1;
  target_reached = false;
  packet = buffer;
  header_size = 28;
  last_hop_addr = [];
}

abbrev tick : Tick
tick = record { running = true; head_time = 9; left_time = 9; packet = none; match_time = 9 }

abbrev hop : Hop
hop = record {
  running = true;
  send_running = λ _. true;
  send_time = λ k. k;
  taken = λ _. true;
  ticks = tick ∷ [];
}

traceroute_loop-le_example :
    length (traceroute_loop (config_of 30) start 29 (hop ∷ hop ∷ hop ∷ [])) ≤ 30 + 1 - 29
traceroute_loop-le_example =
    traceroute_loop-le (config_of 30) start 29 (hop ∷ hop ∷ hop ∷ []) (omega arith) (omega arith)

traceroute_loop_endless_example :
    length (traceroute_loop (config_of 255) start 254 (hop ∷ hop ∷ hop ∷ [])) ≡ 3
traceroute_loop_endless_example =
    traceroute_loop_endless (config_of 255) start 254 (hop ∷ hop ∷ hop ∷ []) refl (omega arith) refl
      (refl, (refl, tt), (refl, (refl, tt), (refl, (refl, tt), tt)))

-- The answer to the third probe of the first hop comes from the address 10.0.0.9.
abbrev answer : Packet
answer = record { buf = reply; len = 48; src = 2 ∷ 0 ∷ 0 ∷ 0 ∷ 10 ∷ 0 ∷ 0 ∷ 9 ∷ replicate 120 0 }

abbrev answered_hop : Hop
answered_hop = record hop { ticks = record tick { packet = some answer } ∷ [] }

names : List ℕ → Text × Option Text
names src = (codes "10.0.0.9", some (codes "router"))

ratio : ℕ → ℕ → Text
ratio a b = codes "0.004"

answer_known : (2 ∷ 0 ∷ 0 ∷ 0 ∷ 10 ∷ 0 ∷ 0 ∷ 9 ∷ replicate 120 0) ≢ no_addr
answer_known e = ground arith

read-traceroute_run_example :
    (map read_line (traceroute_run names ratio (config_of 30) 77 (answered_hop ∷ hop ∷ []))
      ≡ map (seen_hop names ratio (config_of 30)) (
          traceroute_loop
            (config_of 30)
            (init_traceroute_state (config_of 30) 77)
            1
            (answered_hop ∷ hop ∷ [])))
    × AllMeasured
        (config_of 30)
        (init_traceroute_state (config_of 30) 77)
        1
        (answered_hop ∷ hop ∷ [])
read-traceroute_run_example =
    read-traceroute_run names ratio (config_of 30) 77 (answered_hop ∷ hop ∷ [])
      ((answer_known, tt), ((tt, tt), tt))

abbrev resolver : Text → Family → Option (List ℕ × Family)
resolver name family = some (10 ∷ 0 ∷ 0 ∷ 1 ∷ [], inet)

abbrev options : List Opt
options = (b'm', codes "12") ∷ (b'f', codes "2") ∷ []

abbrev chosen : Config
chosen = record defaults {
  first_ttl = 2;
  max_ttl = 12;
  target_addr = 10 ∷ 0 ∷ 0 ∷ 1 ∷ [];
  family = inet;
}

started : traceroute_main resolver options (codes "host" ∷ []) ≡ goes chosen
unfolding traceroute_main take_target apply_option read_options atoi strtol
started = refl
