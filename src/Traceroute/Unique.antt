-- ===== src/Traceroute/Unique.antt =====
-- A packet answers at most one probe of a hop.
use knetutils.Base.{ℕ, ◌+◌, ◌-◌, ◌*◌, ◌<◌}
use knetutils.Base.{◌≡◌, ◌⊎◌, inl, inr, arith}
use knetutils.Base.{Bool, true, List}
use knetutils.Base.{Bool-cases}
use knetutils.Base.{u16, swap16}
use knetutils.Base.{is_inet}
use knetutils.Traceroute.Match.{is_our_probe_v4, is_our_probe_v6}
use knetutils.Traceroute.Probe.{Config}
use knetutils.Traceroute.Run.{Packet, is_mine}

v4_names_one :
    (buf : List ℕ) (len id s₁ s₂ : ℕ) (udp : Bool) (p₁ p₂ : ℕ)
    → is_our_probe_v4 buf len id s₁ udp p₁ ≡ true
    → is_our_probe_v4 buf len id s₂ udp p₂ ≡ true
    → (s₁ ≡ s₂) ⊎ (p₁ ≡ p₂)
unfolding is_our_probe_v4
v4_names_one buf len id s₁ s₂ udp p₁ p₂ h k = ground arith

v6_names_one :
    (buf : List ℕ) (len id s₁ s₂ : ℕ) (udp : Bool) (p₁ p₂ : ℕ)
    → is_our_probe_v6 buf len id s₁ udp p₁ ≡ true
    → is_our_probe_v6 buf len id s₂ udp p₂ ≡ true
    → (s₁ ≡ s₂) ⊎ (p₁ ≡ p₂)
unfolding is_our_probe_v6
v6_names_one buf len id s₁ s₂ udp p₁ p₂ h k = ground arith

ports_differ : (x i j : ℕ) → i < 256 → j < 256 → u16 (x + i) ≡ u16 (x + j) → i ≡ j
ports_differ x i j hi hj e = omega arith

seqs_differ : (b i j : ℕ) → i < 256 → j < 256 → swap16 (u16 (b + i)) ≡ swap16 (u16 (b + j)) → i ≡ j
seqs_differ b i j hi hj e = omega arith

same_probe :
    (x b i j : ℕ)
    → i < 256
    → j < 256
    → (swap16 (u16 (b + i)) ≡ swap16 (u16 (b + j))) ⊎ (u16 (x + i) ≡ u16 (x + j))
    → i ≡ j
same_probe x b i j hi hj (inl e) = seqs_differ b i j hi hj e
same_probe x b i j hi hj (inr e) = ports_differ x i j hi hj e

-- In either family and in either mode a packet is taken for the answer to at most one of the 256
-- probes that a hop can have.
pub is_mine_unique :
    (config : Config) (pid base_seq ttl : ℕ) (pkt : Packet) (i j : ℕ)
    → i < 256
    → j < 256
    → is_mine config pid base_seq ttl pkt i ≡ true
    → is_mine config pid base_seq ttl pkt j ≡ true
    → i ≡ j
unfolding is_mine
is_mine_unique config pid base ttl pkt i j hi hj h k =
    let x : ℕ = 33434 + ttl * config.queries + 65536 - config.queries in
    let id = swap16 pid in
    let si = swap16 (u16 (base + i)) in
    let sj = swap16 (u16 (base + j)) in
    elim (Bool-cases (is_inet config.family)) [
      | inl v4 ↦ same_probe x base i j hi hj (
          v4_names_one pkt.buf pkt.len id si sj config.use_udp (u16 (x + i)) (u16 (x + j))
            (rw v4 at h) (rw v4 at k))
      | inr v6 ↦ same_probe x base i j hi hj (
          v6_names_one pkt.buf pkt.len id si sj config.use_udp (u16 (x + i)) (u16 (x + j))
            (rw v6 at h) (rw v6 at k))
    ]
