-- ===== src/Net/Tcp.antt =====
-- The TCP segment of a probe: pscan.c and tcping.c build it in the same way, over the pseudo headers
-- of include/net.h.
use knetutils.Base.{ℕ, ◌%◌, ◌≤◌}
use knetutils.Base.{◌≡◌, sym, ap, ◌∙◌, arith}
use knetutils.Base.{List, [], ◌∷◌, ◌++◌}
use knetutils.Base.{length, take, drop, length-append}
use knetutils.Base.{be16_bytes, be32_bytes, le16_bytes, IsBytes}
use mathlib.Core.List.{append_assoc}
use knetutils.Net.Checksum.{calculate_checksum}
use knetutils.Net.Checksum.Verify.{packet_with, checksum_verifies}

-- The address in a sockaddr_in and in a sockaddr_in6.
abbrev pub in_addr : List ℕ → List ℕ
in_addr addr = take 4 (drop 4 addr)

abbrev pub in6_addr : List ℕ → List ℕ
in6_addr addr = take 16 (drop 8 addr)

-- `struct ipv4_pseudo_header`, filled for a segment of 20 bytes.
unfoldable pub ipv4_pseudo_header : List ℕ → List ℕ → List ℕ
ipv4_pseudo_header src dst = src ++ (dst ++ (0 ∷ 6 ∷ be16_bytes 20))

-- `struct ipv6_pseudo_header`, with its length field in front of the zeros.
unfoldable pub ipv6_pseudo_header : List ℕ → List ℕ → List ℕ
ipv6_pseudo_header src dst = src ++ (dst ++ (be32_bytes 20 ++ (0 ∷ 0 ∷ 0 ∷ 6 ∷ [])))

-- The fields before `th_sum`: ports, sequence and acknowledgement number, the offset of 5 words, SYN,
-- the window.
abbrev pub syn_front : ℕ → ℕ → ℕ → List ℕ
syn_front sport dport seq =
    be16_bytes sport
    ++ (be16_bytes dport ++ (be32_bytes seq ++ (be32_bytes 0 ++ (0x50 ∷ 2 ∷ be16_bytes 64240))))

-- `struct tcphdr` with the checksum `sum`; the urgent pointer is zero.
unfoldable pub tcp_syn : ℕ → ℕ → ℕ → ℕ → List ℕ
tcp_syn sport dport seq sum = packet_with (syn_front sport dport seq) sum (0 ∷ 0 ∷ [])

-- The header with the checksum over `csum_buf`, the pseudo header and the header in front of it.
unfoldable pub tcp_probe : List ℕ → ℕ → ℕ → ℕ → List ℕ
tcp_probe pseudo sport dport seq =
    tcp_syn sport dport seq (calculate_checksum (pseudo ++ tcp_syn sport dport seq 0))

append_packet : (a b c : List ℕ) (sum : ℕ) → a ++ packet_with b sum c ≡ packet_with (a ++ b) sum c
append_packet a b c sum = sym (append_assoc a b (le16_bytes sum ++ c))

IsBytes-append : (a b : List ℕ) → IsBytes a → IsBytes b → IsBytes (a ++ b)
IsBytes-append [] b va vb = vb
IsBytes-append (x ∷ a) b va vb = (va.0, IsBytes-append a b va.1 vb)

front-IsBytes : (sport dport seq : ℕ) → IsBytes (syn_front sport dport seq)
front-IsBytes sport dport seq = omega arith

-- The checksum over the pseudo header and the probe behind it is zero, as the receiver requires, for
-- every pseudo header of at most 1000 bytes, an even number.
pub tcp_probe_verifies :
    (pseudo : List ℕ) (sport dport seq : ℕ)
    → IsBytes pseudo
    → length pseudo % 2 ≡ 0
    → length pseudo ≤ 1000
    → calculate_checksum (pseudo ++ tcp_probe pseudo sport dport seq) ≡ 0
unfolding tcp_probe tcp_syn
tcp_probe_verifies pseudo sport dport seq v even h =
    let front : List ℕ = syn_front sport dport seq in
    let glue = λ (sum : ℕ). append_packet pseudo front (0 ∷ 0 ∷ []) sum in
    let len = length-append pseudo front in
    ap calculate_checksum (glue _)
    ∙ ap (λ c. calculate_checksum (packet_with (pseudo ++ front) c (0 ∷ 0 ∷ [])))
        (ap calculate_checksum (glue 0))
    ∙ checksum_verifies (pseudo ++ front) (0 ∷ 0 ∷ [])
        (IsBytes-append pseudo front v (front-IsBytes sport dport seq)) (omega arith)
        (omega (arith, len)) (omega (arith, len))
