-- ===== src/Traceroute/Match.antt =====
-- How traceroute.c tells whether a received packet answers one of its probes. `buf` is the
-- receive buffer, `len` the number of bytes received into it; ids and sequence numbers are compared
-- as the host loads them. sizeof(struct ip) is 20, sizeof(struct icmp) is 28, that of
-- struct icmp6_hdr and of struct udphdr 8, and that of struct ip6_hdr 40.
use knetutils.Base.{ℕ, ◌+◌, ◌*◌, ◌%◌}
use knetutils.Base.{Bool, false, not, ◌&&◌, ◌||◌, List}
use knetutils.Base.{ltb, leb, ◌==◌, if◌then◌else◌}
use knetutils.Base.{byte_at, le16, be16}
use knetutils.Base.{Family, is_inet}

unfoldable pub is_our_probe_v4 : List ℕ → ℕ → ℕ → ℕ → Bool → ℕ → Bool
is_our_probe_v4 buf len expected_id expected_seq use_udp expected_port =
    let hlen = byte_at buf 0 % 16 * 4 in
    let icmp_type = byte_at buf hlen in
    let inner_hlen = byte_at buf (hlen + 8) % 16 * 4 in
    let inner = hlen + 8 + inner_hlen in
    if ltb len 20
    then false
    else if ltb len (hlen + 28)
    then false
    else if not use_udp && icmp_type == 0
    then le16 buf (hlen + 4) == expected_id && le16 buf (hlen + 6) == expected_seq
    else if icmp_type == 11 || icmp_type == 3
    then if ltb len (hlen + 8 + 20)
      then false
      else if use_udp
      then if ltb len (inner + 8) then false else be16 buf (inner + 2) == expected_port
      else if ltb len (inner + 8)
      then false
      else le16 buf (inner + 4) == expected_id && le16 buf (inner + 6) == expected_seq
    else false

unfoldable pub is_our_probe_v6 : List ℕ → ℕ → ℕ → ℕ → Bool → ℕ → Bool
is_our_probe_v6 buf len expected_id expected_seq use_udp expected_port =
    let icmp6_type = byte_at buf 0 in
    if ltb len 8
    then false
    else if not use_udp && icmp6_type == 129
    then le16 buf 4 == expected_id && le16 buf 6 == expected_seq
    else if icmp6_type == 3 || icmp6_type == 1
    then if ltb len (8 + 40 + 8)
      then false
      else if use_udp
      then be16 buf (8 + 40 + 2) == expected_port
      else le16 buf (8 + 40 + 4) == expected_id && le16 buf (8 + 40 + 6) == expected_seq
    else false

unfoldable pub check_is_target : Family → Bool → List ℕ → ℕ → Bool
check_is_target family use_udp recv_buf n =
    let hlen = byte_at recv_buf 0 % 16 * 4 in
    if is_inet family
    then leb (hlen + 28) n && (byte_at recv_buf hlen == 0 || use_udp && byte_at recv_buf hlen == 3)
    else leb 8 n && (byte_at recv_buf 0 == 129 || use_udp && byte_at recv_buf 0 == 1)
