-- ===== src/Pscan/Packet.antt =====
-- `process_packet` of pscan.c. `len` is the number of bytes received into `buf`; `src_str` is the
-- name of the sender that getnameinfo gives, `now` the clock. sizeof(struct tcphdr) is 20.
use knetutils.Base.{ℕ, ◌+◌, ◌-◌, ◌*◌, ◌%◌}
use knetutils.Base.{Bool, true, false, not, ◌&&◌, Option, none, some, List, [], ◌∷◌, ◌++◌}
use knetutils.Base.{ltb, leb, ◌==◌, ◌!=◌, if◌then◌else◌}
use knetutils.Base.{get_or, set}
use knetutils.Base.{has_bit}
use knetutils.Base.{byte_at, be16}
use knetutils.Base.{Text, same_text}
use knetutils.Base.{Family, is_inet}
use knetutils.Utils.{time_diff_ns}
use knetutils.Pscan.State.{Config, OpenLine, State}
use knetutils.Pscan.Os.{guess_os_from_ttl, stored_guess}

-- `port >= config->start_port && port <= config->end_port`.
abbrev pub in_range : Config → ℕ → Bool
in_range config port = leb config.start_port port && leb port config.end_port

-- The port of the UDP header that an ICMP port-unreachable message quotes.
unfoldable pub refused_v4 : List ℕ → ℕ → Option ℕ
refused_v4 buf len =
    let hlen = byte_at buf 0 % 16 * 4 in
    let orig_iph_len = byte_at buf (hlen + 8) % 16 * 4 in
    if ltb len (hlen + 8)
    then none
    else if byte_at buf hlen == 3 && byte_at buf (hlen + 1) == 3
    then if ltb len (hlen + 8 + orig_iph_len + 8)
      then none
      else some (be16 buf (hlen + 8 + orig_iph_len + 2))
    else none

unfoldable pub refused_v6 : List ℕ → ℕ → Option ℕ
refused_v6 buf len =
    if ltb len 8
    then none
    else if byte_at buf 0 == 1 && byte_at buf 1 == 4
    then if ltb len (8 + 40 + 8) then none else some (be16 buf (8 + 40 + 2))
    else none

unfoldable pub close_port : Config → Option ℕ → State → State
close_port config none st = st
close_port config (some port) st =
    if in_range config port
    then record st { closed_ports = set st.closed_ports (port - config.start_port) true }
    else st

-- The fields that the TCP branch takes from a segment.
pub record Segment : Type 0 where
  pub ttl : ℕ
  pub port : ℕ
  pub dport : ℕ
  pub flags : ℕ
  pub win : ℕ

abbrev pub segment_at : List ℕ → ℕ → ℕ → Segment
segment_at buf at ttl = record {
  ttl = ttl;
  port = be16 buf at;
  dport = be16 buf (at + 2);
  flags = byte_at buf (at + 13);
  win = be16 buf (at + 14);
}

unfoldable pub segment_of : Family → List ℕ → ℕ → Option Segment
segment_of family buf len =
    let ip_hlen = byte_at buf 0 % 16 * 4 in
    if is_inet family
    then if ltb len (ip_hlen + 20) then none else some (segment_at buf ip_hlen (byte_at buf 8))
    else some (segment_at buf 0 0)

-- `(tcph->th_flags & TH_SYN) && (tcph->th_flags & TH_ACK)`.
abbrev pub is_syn_ack : Segment → Bool
is_syn_ack seg = has_bit seg.flags 1 && has_bit seg.flags 4

-- The first SYN-ACK from the port in slot `idx`, with the line printed.
unfoldable pub open_port : Config → Family → ℕ → ℕ → Segment → State → State
open_port config family now idx seg st =
    let sent = get_or st.sent_time idx 0 in
    let rtt = if ltb 0 sent then time_diff_ns sent now else 0 in
    let guesses =
      if config.os_fingerprint && is_inet family
      then set st.os_guesses idx (stored_guess (guess_os_from_ttl seg.ttl seg.win))
      else st.os_guesses in
    let line : OpenLine = record {
      port = seg.port;
      rtt = rtt;
      guess = if config.os_fingerprint then get_or guesses idx [] else [];
    } in
    record st {
      open_ports = set st.open_ports idx true;
      open_rtt = set st.open_rtt idx rtt;
      os_guesses = guesses;
      printed = if config.json_output then st.printed else st.printed ++ (line ∷ []);
    }

unfoldable pub take_segment : Config → Family → ℕ → Option Segment → State → State
unfolding open_port
take_segment config family now none st = st
take_segment config family now (some seg) st =
    let idx = seg.port - config.start_port in
    if seg.dport != st.sport
    then st
    else if not (in_range config seg.port)
    then st
    else if is_syn_ack seg && not (get_or st.open_ports idx false)
    then open_port config family now idx seg st
    else st

unfoldable pub process_packet : Config → State → List ℕ → ℕ → Family → Text → ℕ → State
unfolding close_port take_segment
process_packet config st buf len src_family src_str now =
    if config.udp
    then close_port config
        (if is_inet config.target_family then refused_v4 buf len else refused_v6 buf len) st
    else if ltb len 20
    then st
    else if not (same_text src_str st.target_str)
    then st
    else take_segment config src_family now (segment_of src_family buf len) st
