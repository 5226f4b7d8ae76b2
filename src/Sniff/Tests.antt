-- ===== src/Sniff/Tests.antt =====
-- A frame that sniff receives, with the theorems applied to it.
use knetutils.Base.{ℕ, ◌≡◌, sym, ◌∙◌, arith, List, [], ◌∷◌, ◌++◌, replicate}
use knetutils.Base.{AgreeBelow, byte_at-append_left}
use knetutils.Sniff.Options.{defaults}
use knetutils.Sniff.Packet.{process_packet, print_hex_dump}
use knetutils.Sniff.Print.{dump_text}
use knetutils.Sniff.Dump.{read_dump, read_dump-print_hex_dump}
use knetutils.Base.{IsBytes, Bool, ltb, ◌&&◌, ◌<◌}
use knetutils.Base.{refl, true, none, some, codes, length, ◌≤◌}
use knetutils.Sniff.Options.{Config}
use knetutils.Sniff.Capture.{Packet, Tick, init_sniff_state, sniff_loop}
use knetutils.Sniff.Pcap.{read_pcap, IsReceived, AllReceived, all_captured, taken, sniff_loop-read}
use knetutils.Sniff.Safe.{process_packet_prints}

-- A frame with an IPv4 header and a UDP header.
abbrev frame : List ℕ
frame =
    replicate 12 1
    ++ (8 ∷ 0 ∷ 0x45 ∷ replicate 8 0
        ++ (17 ∷ replicate 10 0 ++ (0 ∷ 53 ∷ 4 ∷ 1 ∷ 0 ∷ 8 ∷ 0 ∷ 0 ∷ 97 ∷ 98 ∷ [])))

agree : AgreeBelow 44 (frame ++ (1 ∷ [])) (frame ++ (2 ∷ []))
agree i h = byte_at-append_left frame (1 ∷ []) i h ∙ sym (byte_at-append_left frame (2 ∷ []) i h)

process_packet_prints_example :
    process_packet (record defaults { verbosity = 2 }) (frame ++ (1 ∷ [])) 44
    ≡ process_packet (record defaults { verbosity = 2 }) (frame ++ (2 ∷ [])) 44
process_packet_prints_example =
    process_packet_prints (record defaults { verbosity = 2 }) (frame ++ (1 ∷ []))
      (frame ++ (2 ∷ [])) 44 agree

abbrev are_small : List ℕ → Bool
are_small [] = true
are_small (x ∷ xs) = ltb x 256 && are_small xs

small-IsBytes : (xs : List ℕ) → are_small xs ≡ true → IsBytes xs
small-IsBytes [] h = tt
small-IsBytes (x ∷ xs) h =
    let (here, rest) : (x < 256) × (are_small xs ≡ true) = ground (arith, h) in
    (here, small-IsBytes xs rest)

read_dump-print_hex_dump_example : read_dump 44 (dump_text (print_hex_dump 44 0 frame)) ≡ frame
read_dump-print_hex_dump_example =
    read_dump-print_hex_dump 44 0 frame (small-IsBytes frame refl) (omega arith)

-- A run that stops after the second of three packets, with a round without a packet.
abbrev config : Config
config = record defaults { max_packets = 2; pcap_file = some (codes "out.pcap") }

abbrev packet : ℕ → Packet
packet sec = record { buf = frame; len = 44; tv_sec = sec; tv_nsec = 5000 }

abbrev ticks : List Tick
ticks = some (packet 1) ∷ none ∷ some (packet 2) ∷ some (packet 3) ∷ []

packet-IsReceived : (sec : ℕ) → sec ≤ 3 → IsReceived (packet sec)
packet-IsReceived sec h = record {
  sec_fits = omega arith;
  nsec_fits = omega arith;
  len_fits = omega arith;
  held = omega arith;
}

ticks-AllReceived : AllReceived ticks
ticks-AllReceived = (
  packet-IsReceived 1 (omega arith),
  (packet-IsReceived 2 (omega arith), (packet-IsReceived 3 (omega arith), tt)),
)

sniff_loop-read_example :
    let st = init_sniff_state config true in
    let pkts = taken config st ticks in
    (file : List ℕ) × ((sniff_loop config st ticks).pcap_fp ≡ some file)
    × (read_pcap 4 file ≡ some (all_captured pkts))
    × (length pkts ≤ 2)
sniff_loop-read_example =
    sniff_loop-read config (codes "out.pcap") ticks 4 refl (omega arith) (omega arith)
      ticks-AllReceived (omega arith)
