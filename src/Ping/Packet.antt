-- ===== src/Ping/Packet.antt =====
-- The packets of src/ping.c: `init_ping_state`, `send_ping_request` and what `drain_ping_replies` does
-- with a packet. The process id, the clock and the kind of socket are arguments. sizeof(struct icmp) is 28, that of struct icmp6_hdr 8.
use knetutils.Base.{ℕ, zero, suc, ◌+◌, ◌*◌, ◌/◌, ◌%◌, ◌^◌}
use knetutils.Base.{Bool, true, false, not, ◌&&◌, ◌||◌, Option, none, some, List, [], ◌∷◌, ◌++◌}
use knetutils.Base.{ltb, leb, ◌!=◌, if◌then◌else◌}
use knetutils.Base.{length, get_or, take, replicate}
use knetutils.Base.{update}
use knetutils.Base.{u16, u32, swap16}
use knetutils.Base.{byte_at, le16, be16, be16_bytes, le16_bytes, write}
use knetutils.Base.{is_inet, is_inet6}
use knetutils.Utils.{time_diff_ns}
use knetutils.Net.Checksum.{calculate_checksum}
use knetutils.Base.{◌-◌, Text}
use knetutils.Ping.State.{Config, Event, requested, replied, State, update_ping_stats}

-- A u_int64_t as the host stores and loads it.
abbrev pub le64_bytes : ℕ → List ℕ
le64_bytes x =
    le16_bytes x
    ++ (le16_bytes (x / 2 ^ 16) ++ (le16_bytes (x / 2 ^ 32) ++ le16_bytes (x / 2 ^ 48)))

abbrev pub le64 : List ℕ → ℕ → ℕ
le64 buf i =
    le16 buf i + 2 ^ 16 * le16 buf (i + 2) + 2 ^ 32 * le16 buf (i + 4) + 2 ^ 48 * le16 buf (i + 6)

-- `payload[i] = config->pattern[i % config->pattern_len]`, for `left` bytes from `i` on.
unfoldable pub repeated : List ℕ → ℕ → ℕ → List ℕ
repeated pattern zero i = []
repeated pattern (suc left) i =
    get_or pattern (i % length pattern) 0 ∷ repeated pattern left (i + 1)

unfoldable pub init_ping_state : Config → ℕ → ℕ → Bool → State
unfolding repeated
init_ping_state config pid start_time is_dgram =
    let header_size = if is_inet6 config.family then 8 else 28 in
    let payload =
      if ltb 0 (length config.pattern)
      then repeated config.pattern config.payload_size 0
      else replicate config.payload_size 0 in
    record {
      pid = u16 pid;
      seq = 1;
      sent = 0;
      received = 0;
      start_time = start_time;
      rtt_min = 0;
      rtt_max = 0;
      rtt_sum = 0;
      rtt_sum_us = 0;
      rtt_sum_squares_us = 0;
      rtt_last = 0;
      icmp_req_type = if is_inet6 config.family then 128 else 8;
      icmp_rep_type = if is_inet6 config.family then 129 else 0;
      is_dgram = is_dgram;
      packet = replicate header_size 0 ++ payload;
      header_size = header_size;
      total_len = header_size + config.payload_size;
      sent_times = λ _. 0;
      replied_or_timeout = λ _. false;
      next_timeout_check_seq = 1;
      printed = [];
    }

-- The fields of the request and the time stamp in its payload, with a zero checksum.
abbrev pub request_fields : Config → State → ℕ → List ℕ
request_fields config st clock =
    let typed = write st.packet 0 (st.icmp_req_type ∷ 0 ∷ []) in
    let named = write (write typed 4 (be16_bytes st.pid)) 6 (be16_bytes st.seq) in
    let stamped =
      if leb 8 config.payload_size then write named st.header_size (le64_bytes clock) else named in
    write stamped 2 (0 ∷ 0 ∷ [])

-- The state after a request; its packet is what the kernel is given.
unfoldable pub send_ping_request : Config → State → ℕ → State
send_ping_request config st clock =
    let zeroed = request_fields config st clock in
    record st {
      packet =
          if is_inet config.family
          then write zeroed 2 (le16_bytes (calculate_checksum (take st.total_len zeroed)))
          else zeroed;
      sent = u32 (st.sent + 1);
      printed = st.printed ++ (requested ∷ []);
    }

-- What was received: the buffer, the number of bytes, the sender's name that getnameinfo gives, the
-- clock at the match.
pub record Packet : Type 0 where
  pub buf : List ℕ
  pub len : ℕ
  pub name : Text
  pub recv_time : ℕ

abbrev pub header_len : Config → State → Packet → ℕ
header_len config st pkt =
    if is_inet config.family && not st.is_dgram then byte_at pkt.buf 0 % 16 * 4 else 0

-- The sequence number that a packet answers, if it is a reply to this process.
unfoldable pub answered_seq : Config → State → Packet → Option ℕ
answered_seq config st pkt =
    let hlen = header_len config st pkt in
    if ltb pkt.len (hlen + st.header_size)
    then none
    else if byte_at pkt.buf hlen != st.icmp_rep_type
        || (not st.is_dgram && le16 pkt.buf (hlen + 4) != swap16 st.pid)
    then none
    else some (be16 pkt.buf (hlen + 6))

-- The round-trip time, by the time noted or by that in the payload.
unfoldable pub round_trip : Config → State → Packet → ℕ → ℕ
round_trip config st pkt seq =
    let sent = st.sent_times seq in
    let ts = le64 pkt.buf (header_len config st pkt + st.header_size) in
    if ltb 0 sent && leb sent pkt.recv_time
    then time_diff_ns sent pkt.recv_time
    else if leb 8 config.payload_size && leb ts pkt.recv_time
    then time_diff_ns ts pkt.recv_time
    else 0

-- What is reported of a reply.
abbrev pub reply_event : Config → State → Packet → ℕ → ℕ → Event
reply_event config st pkt rtt seq =
    let raw = is_inet config.family && not st.is_dgram in
    replied rtt (pkt.len - header_len config st pkt) pkt.name seq
      (if raw then some (byte_at pkt.buf 8) else none)

unfoldable pub take_answer : (ℕ → Event) → ℕ → Option ℕ → State → State
take_answer shown rtt none st = st
take_answer shown rtt (some seq) st =
    let noted = record st { replied_or_timeout = update st.replied_or_timeout seq true } in
    let counted = update_ping_stats noted rtt in
    if st.replied_or_timeout seq then st else record counted {
      received = u32 (counted.received + 1);
      printed = counted.printed ++ (shown seq ∷ []);
    }

abbrev pub rtt_of : Config → State → Packet → Option ℕ → ℕ
rtt_of config st pkt none = 0
rtt_of config st pkt (some seq) = round_trip config st pkt seq

-- One packet of `drain_ping_replies`.
unfoldable pub take_reply : Config → State → Packet → State
unfolding answered_seq take_answer round_trip
take_reply config st pkt =
    let seq = answered_seq config st pkt in
    let rtt = rtt_of config st pkt seq in take_answer (reply_event config st pkt rtt) rtt seq st

unfoldable pub drain_ping_replies : Config → State → List Packet → State
drain_ping_replies config st [] = st
drain_ping_replies config st (pkt ∷ pkts) =
    drain_ping_replies config (take_reply config st pkt) pkts
