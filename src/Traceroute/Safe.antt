-- ===== src/Traceroute/Safe.antt =====
-- The packet tests of traceroute.c read no byte past those received.
use knetutils.Base.{ℕ, ◌+◌, ◌*◌, ◌%◌, ◌<◌}
use knetutils.Base.{◌≡◌, arith}
use knetutils.Base.{Bool, List}
use knetutils.Base.{byte_at, AgreeBelow}
use knetutils.Base.{Family}
use knetutils.Traceroute.Match.{is_our_probe_v4, is_our_probe_v6, check_is_target}

-- The IPv4 test whether a packet answers a probe depends on the `len` received bytes alone: on two
-- buffers that agree below `len` it gives the same answer.
is_our_probe_v4-AgreeBelow :
    (b c : List ℕ) (len id seq : ℕ) (udp : Bool) (port : ℕ)
    → AgreeBelow len b c
    → is_our_probe_v4 b len id seq udp port ≡ is_our_probe_v4 c len id seq udp port
unfolding is_our_probe_v4
is_our_probe_v4-AgreeBelow b c len id seq udp port h =
    let hl : ℕ = byte_at b 0 % 16 * 4 in
    let inner : ℕ = hl + 8 + byte_at b (hl + 8) % 16 * 4 in
    ground (
      arith,
      h 0,
      h hl,
      h (hl + 4),
      h (hl + 4 + 1),
      h (hl + 6),
      h (hl + 6 + 1),
      h (hl + 8),
      h (inner + 2),
      h (inner + 2 + 1),
      h (inner + 4),
      h (inner + 4 + 1),
      h (inner + 6),
      h (inner + 6 + 1),
    )

-- The IPv6 test whether a packet answers a probe gives the same answer on two buffers that agree
-- below `len`, the number of received bytes.
is_our_probe_v6-AgreeBelow :
    (b c : List ℕ) (len id seq : ℕ) (udp : Bool) (port : ℕ)
    → AgreeBelow len b c
    → is_our_probe_v6 b len id seq udp port ≡ is_our_probe_v6 c len id seq udp port
unfolding is_our_probe_v6
is_our_probe_v6-AgreeBelow b c len id seq udp port h =
    ground (arith, h 0, h 4, h 5, h 6, h 7, h 50, h 51, h 52, h 53, h 54, h 55)

-- The test whether a packet of at least one byte comes from the target gives the same answer on two
-- buffers that agree below the number of received bytes.
check_is_target-AgreeBelow :
    (b c : List ℕ) (n : ℕ) (family : Family) (udp : Bool)
    → 0 < n
    → AgreeBelow n b c
    → check_is_target family udp b n ≡ check_is_target family udp c n
unfolding check_is_target
check_is_target-AgreeBelow b c n family udp pos h = ground (arith, h 0, h (byte_at b 0 % 16 * 4))

-- The tests whether a packet answers a probe, in either family, and whether it comes from the target
-- depend on the `len` received bytes alone, of which there is at least one: on two buffers that agree
-- below `len` they give the same answers.
pub packet_tests-AgreeBelow :
    (b c : List ℕ) (len id seq : ℕ) (udp : Bool) (port : ℕ) (family : Family)
    → 0 < len
    → AgreeBelow len b c
    → (is_our_probe_v4 b len id seq udp port ≡ is_our_probe_v4 c len id seq udp port)
      × (is_our_probe_v6 b len id seq udp port ≡ is_our_probe_v6 c len id seq udp port)
      × (check_is_target family udp b len ≡ check_is_target family udp c len)
packet_tests-AgreeBelow b c len id seq udp port family pos h = (
  is_our_probe_v4-AgreeBelow b c len id seq udp port h,
  is_our_probe_v6-AgreeBelow b c len id seq udp port h,
  check_is_target-AgreeBelow b c len family udp pos h,
)
