-- ===== src/Sniff/Capture.antt =====
-- The loop of `sniff_run` of src/sniff.c and the pcap file that it writes. What `poll` and `recv_packet`
-- give comes from an environment, one `Tick` for each round, and the run is interrupted where they end. A
-- write to the file does not fail.
use knetutils.Base.{ℕ, ◌+◌, ◌/◌, ◌^◌}
use knetutils.Base.{Bool, ◌&&◌, Option, none, some, List, [], ◌∷◌, ◌++◌}
use knetutils.Base.{ltb, leb, if◌then◌else◌}
use knetutils.Base.{take}
use knetutils.Base.{u32}
use knetutils.Base.{le32_bytes, le16_bytes}
use knetutils.Sniff.Options.{Config}
use knetutils.Sniff.Packet.{Line, process_packet}

-- `pcap_hdr_t` with its constants.
unfoldable pub pcap_header : List ℕ
pcap_header =
    le32_bytes 0xa1b2c3d4
    ++ (le16_bytes 2
        ++ (le16_bytes 4 ++ (le32_bytes 0 ++ (le32_bytes 0 ++ (le32_bytes 65535 ++ le32_bytes 1)))))

-- What was received: the buffer, the number of bytes, the clock of CLOCK_REALTIME.
pub record Packet : Type 0 where
  pub buf : List ℕ
  pub len : ℕ
  pub tv_sec : ℕ
  pub tv_nsec : ℕ

-- `pcaprec_hdr_t` and the bytes of the packet.
unfoldable pub pcap_record : Packet → List ℕ
pcap_record pkt =
    le32_bytes pkt.tv_sec
    ++ (le32_bytes (pkt.tv_nsec / 1000)
        ++ (le32_bytes pkt.len ++ (le32_bytes pkt.len ++ take pkt.len pkt.buf)))

-- The file, if there is one.
unfoldable pub write_pcap_packet : Option (List ℕ) → Packet → Option (List ℕ)
unfolding pcap_record
write_pcap_packet none pkt = none
write_pcap_packet (some file) pkt = some (file ++ pcap_record pkt)

-- The state with the lines printed; the socket is left out.
pub record State : Type 0 where
  pub packets_captured : ℕ
  pub pcap_fp : Option (List ℕ)
  pub printed : List Line

-- The state at the head of the loop, where `opened` says whether `fopen` succeeded.
unfoldable pub init_sniff_state : Config → Bool → State
unfolding pcap_header
init_sniff_state config opened = record {
  packets_captured = 0;
  pcap_fp =
      if opened
      then elim config.pcap_file as (λ _. Option (List ℕ)) [
        | none ↦ none
        | some name ↦ some pcap_header
      ]
      else none;
  printed = [];
}

unfoldable pub take_packet : Config → State → Packet → State
unfolding write_pcap_packet
take_packet config st pkt = record {
  packets_captured = u32 (st.packets_captured + 1);
  pcap_fp = write_pcap_packet st.pcap_fp pkt;
  printed = st.printed ++ process_packet config pkt.buf pkt.len;
}

-- `config->max_packets > 0 && st.packets_captured >= config->max_packets`, of ints.
abbrev pub is_full : Config → State → Bool
is_full config st =
    (ltb 0 config.max_packets && ltb config.max_packets (2 ^ 31))
    && leb config.max_packets st.packets_captured

-- What a round gives: nothing, or a packet.
abbrev pub Tick : Type 0
Tick = Option Packet

unfoldable pub after_tick : Config → State → Tick → State
unfolding take_packet
after_tick config st none = st
after_tick config st (some pkt) = take_packet config st pkt

unfoldable pub sniff_loop : Config → State → List Tick → State
sniff_loop config st [] = st
sniff_loop config st (tick ∷ ticks) =
    let rest = sniff_loop config (after_tick config st tick) ticks in
    if is_full config st then st else rest
