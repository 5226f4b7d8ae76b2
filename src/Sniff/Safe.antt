-- ===== src/Sniff/Safe.antt =====
-- What src/sniff.c reads of a frame.
use knetutils.Base.{ℕ, ◌+◌, ◌-◌}
use knetutils.Base.{◌≡◌, refl, ap, inl, inr, arith}
use knetutils.Base.{false, ◌&&◌, List, [], ◌∷◌, ◌++◌}
use knetutils.Base.{ltb, leb, ◌!=◌, if◌then◌else◌, Bool-cases}
use knetutils.Base.{be16, AgreeBelow}
use knetutils.Sniff.Options.{Config}
use knetutils.Sniff.Packet.{
  bytes_from, bytes_from-agree, mac, Printed, handle_tcp, handle_udp, handle_icmp, handle_icmpv6,
  handle_l4_protocol, handle_ipv4, handle_ipv6, handle_l3, dump_lines, upper_lines, process_packet,
}

module _ (b c : List ℕ) (n : ℕ) (h : AgreeBelow n b c) where
  agree_at :
      (offset count : ℕ)
      → ltb n (offset + count) ≡ false
      → bytes_from b offset count ≡ bytes_from c offset count
  agree_at offset count e = bytes_from-agree b c n offset count h (ground arith)

  tcp_agrees : (offset : ℕ) → handle_tcp b offset n ≡ handle_tcp c offset n
  unfolding handle_tcp
  tcp_agrees offset = elim (Bool-cases (ltb n (offset + 20))) [
    | inl e ↦ rw e refl
    | inr e ↦ rw (e, agree_at offset 20 e) refl
  ]

  udp_agrees : (offset : ℕ) → handle_udp b offset n ≡ handle_udp c offset n
  unfolding handle_udp
  udp_agrees offset = elim (Bool-cases (ltb n (offset + 8))) [
    | inl e ↦ rw e refl
    | inr e ↦ rw (e, agree_at offset 8 e) refl
  ]

  icmp_agrees : (offset : ℕ) → handle_icmp b offset n ≡ handle_icmp c offset n
  unfolding handle_icmp
  icmp_agrees offset = elim (Bool-cases (ltb n (offset + 8))) [
    | inl e ↦ rw e refl
    | inr e ↦ rw (e, agree_at offset 8 e) refl
  ]

  icmpv6_agrees : (offset : ℕ) → handle_icmpv6 b offset n ≡ handle_icmpv6 c offset n
  unfolding handle_icmpv6
  icmpv6_agrees offset = elim (Bool-cases (ltb n (offset + 8))) [
    | inl e ↦ rw e refl
    | inr e ↦ rw (e, agree_at offset 8 e) refl
  ]

  ipv4_agrees : (offset : ℕ) → handle_ipv4 b offset n ≡ handle_ipv4 c offset n
  unfolding handle_ipv4
  ipv4_agrees offset = elim (Bool-cases (ltb n (offset + 20))) [
    | inl e ↦ rw e refl
    | inr e ↦ rw (e, agree_at offset 20 e) refl
  ]

  ipv6_agrees : (offset : ℕ) → handle_ipv6 b offset n ≡ handle_ipv6 c offset n
  unfolding handle_ipv6
  ipv6_agrees offset = elim (Bool-cases (ltb n (offset + 40))) [
    | inl e ↦ rw e refl
    | inr e ↦ rw (e, agree_at offset 40 e) refl
  ]

  l4_agrees :
      (offset proto : ℕ) → handle_l4_protocol b offset n proto ≡ handle_l4_protocol c offset n proto
  unfolding handle_l4_protocol
  l4_agrees offset proto =
      rw (tcp_agrees offset, udp_agrees offset, icmp_agrees offset, icmpv6_agrees offset) refl

  l3_agrees : (eth_type : ℕ) → handle_l3 b n eth_type ≡ handle_l3 c n eth_type
  unfolding handle_l3
  l3_agrees eth_type = rw (ipv4_agrees 14, ipv6_agrees 14) refl

  dump_agrees :
      (config : Config) (offset : ℕ) → dump_lines config b n offset ≡ dump_lines config c n offset
  unfolding dump_lines
  dump_agrees config offset =
      rw
        (
          bytes_from-agree b c n 0 n h (omega arith),
          bytes_from-agree b c n offset (n - offset) h (omega arith),
        )
        refl

  upper_agrees :
      (config : Config) (p : ℕ × Printed) → upper_lines config b n p ≡ upper_lines config c n p
  unfolding upper_lines
  upper_agrees config (proto, (offset, lines)) =
      let (behind, printed) : Printed =
        if leb 1 config.verbosity && proto != 0
        then handle_l4_protocol c offset n proto
        else (offset, []) in
      rw (l4_agrees offset proto) (ap (λ t. lines ++ (printed ++ t)) (dump_agrees config behind))

-- sniff prints of a frame what its received bytes say: on two buffers that agree below `n` it prints
-- the same lines.
pub process_packet_prints :
    (config : Config) (b c : List ℕ) (n : ℕ)
    → AgreeBelow n b c
    → process_packet config b n ≡ process_packet config c n
unfolding process_packet
process_packet_prints config b c n h = elim (Bool-cases (ltb n 14)) [
  | inl e ↦ rw e refl
  | inr e ↦
      rw (e, agree_at b c n h 0 14 e, l3_agrees b c n h (be16 (bytes_from c 0 14) 12))
        (ap
          (λ t.
            mac (bytes_from (bytes_from c 0 14) 6 6) (bytes_from (bytes_from c 0 14) 0 6)
              (be16 (bytes_from c 0 14) 12)
            ∷ t)
          (upper_agrees b c n h config (handle_l3 c n (be16 (bytes_from c 0 14) 12))))
]
