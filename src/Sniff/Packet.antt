-- ===== src/Sniff/Packet.antt =====
-- What src/sniff.c prints of a frame: the handlers of the layers, `process_packet` and the hex dump. A
-- line printed is a value with the fields shown, whose text is in Sniff.Print; `n` is the number of bytes received into `buf`.
-- sizeof(struct ip) is 20, that of struct ip6_hdr 40, of struct tcphdr 20, of struct udphdr 8.
use knetutils.Base.{ℕ, zero, suc, ◌+◌, ◌-◌, ◌*◌, ◌/◌, ◌%◌, ◌≤◌}
use knetutils.Base.{◌≡◌, refl, ap, ap₂, ◌∙◌, arith}
use knetutils.Base.{◌&&◌, List, [], ◌∷◌, ◌++◌}
use knetutils.Base.{ltb, leb, ◌==◌, ◌!=◌, if◌then◌else◌}
use knetutils.Base.{length, take, drop}
use knetutils.Base.{byte_at, be16, be32, AgreeBelow}
use knetutils.Sniff.Options.{Config}

-- `count` bytes of the buffer, from `offset` on.
unfoldable pub bytes_from : List ℕ → ℕ → ℕ → List ℕ
bytes_from buf offset zero = []
bytes_from buf offset (suc count) = byte_at buf offset ∷ bytes_from buf (offset + 1) count

-- A row of a dump: its offset and its bytes, at most 16, which are shown as numbers and as characters.
abbrev pub Row : Type 0
Row = ℕ × List ℕ

-- The rows of the bytes that lie from offset `i` on.
unfoldable pub print_hex_dump : ℕ → ℕ → List ℕ → List Row
print_hex_dump zero i rest = []
print_hex_dump (suc fuel) i [] = []
print_hex_dump (suc fuel) i (c ∷ rest) =
    (i, take 16 (c ∷ rest)) ∷ print_hex_dump fuel (i + 16) (drop 16 (c ∷ rest))

pub data Line : Type 0 where
  mac : List ℕ → List ℕ → ℕ → Line
  ipv4 : List ℕ → List ℕ → ℕ → ℕ → Line
  ipv6 : List ℕ → List ℕ → ℕ → Line
  tcp : ℕ → ℕ → ℕ → ℕ → ℕ → ℕ → Line
  udp : ℕ → ℕ → ℕ → Line
  icmp icmpv6 : ℕ → ℕ → Line
  full_dump payload_dump : List Row → Line

-- The offset behind a header, and the lines printed.
abbrev pub Printed : Type 0
Printed = ℕ × List Line

unfoldable pub handle_tcp : List ℕ → ℕ → ℕ → Printed
handle_tcp buf offset n =
    let hdr = bytes_from buf offset 20 in
    if ltb n (offset + 20) then (offset, []) else (
      offset + byte_at hdr 12 / 16 * 4,
      tcp (be16 hdr 0) (be16 hdr 2) (byte_at hdr 13) (be32 hdr 4) (be32 hdr 8) (be16 hdr 14) ∷ [],
    )

unfoldable pub handle_udp : List ℕ → ℕ → ℕ → Printed
handle_udp buf offset n =
    let hdr = bytes_from buf offset 8 in
    if ltb n (offset + 8)
    then (offset, [])
    else (offset + 8, udp (be16 hdr 0) (be16 hdr 2) (be16 hdr 4) ∷ [])

unfoldable pub handle_icmp : List ℕ → ℕ → ℕ → Printed
handle_icmp buf offset n =
    let hdr = bytes_from buf offset 8 in
    if ltb n (offset + 8)
    then (offset, [])
    else (offset + 8, icmp (byte_at hdr 0) (byte_at hdr 1) ∷ [])

unfoldable pub handle_icmpv6 : List ℕ → ℕ → ℕ → Printed
handle_icmpv6 buf offset n =
    let hdr = bytes_from buf offset 8 in
    if ltb n (offset + 8)
    then (offset, [])
    else (offset + 8, icmpv6 (byte_at hdr 0) (byte_at hdr 1) ∷ [])

unfoldable pub handle_l4_protocol : List ℕ → ℕ → ℕ → ℕ → Printed
handle_l4_protocol buf offset n l4_proto =
    if l4_proto == 6
    then handle_tcp buf offset n
    else if l4_proto == 17
    then handle_udp buf offset n
    else if l4_proto == 1
    then handle_icmp buf offset n
    else if l4_proto == 58
    then handle_icmpv6 buf offset n
    else (offset, [])

-- The protocol above, the offset behind the header, and the lines; the protocol is 0 at first.
unfoldable pub handle_ipv4 : List ℕ → ℕ → ℕ → ℕ × Printed
handle_ipv4 buf offset n =
    let hdr = bytes_from buf offset 20 in
    if ltb n (offset + 20) then (0, (offset, [])) else (
      byte_at hdr 9,
      (
        offset + byte_at hdr 0 % 16 * 4,
        ipv4 (bytes_from hdr 12 4) (bytes_from hdr 16 4) (byte_at hdr 9) (be16 hdr 2) ∷ [],
      ),
    )

unfoldable pub handle_ipv6 : List ℕ → ℕ → ℕ → ℕ × Printed
handle_ipv6 buf offset n =
    let hdr = bytes_from buf offset 40 in
    if ltb n (offset + 40) then (0, (offset, [])) else (
      byte_at hdr 6,
      (offset + 40, ipv6 (bytes_from hdr 8 16) (bytes_from hdr 24 16) (byte_at hdr 6) ∷ []),
    )

unfoldable pub handle_l3 : List ℕ → ℕ → ℕ → ℕ × Printed
handle_l3 buf n eth_type =
    if eth_type == 0x0800
    then handle_ipv4 buf 14 n
    else if eth_type == 0x86dd
    then handle_ipv6 buf 14 n
    else (0, (14, []))

-- The lines of the dump that the verbosity asks for.
unfoldable pub dump_lines : Config → List ℕ → ℕ → ℕ → List Line
dump_lines config buf n offset =
    if leb 3 config.verbosity && ltb 0 n
    then full_dump (print_hex_dump n 0 (bytes_from buf 0 n)) ∷ []
    else if leb 2 config.verbosity && ltb offset n
    then payload_dump (print_hex_dump (n - offset) 0 (bytes_from buf offset (n - offset))) ∷ []
    else []

unfoldable pub upper_lines : Config → List ℕ → ℕ → ℕ × Printed → List Line
upper_lines config buf n (l4_proto, (offset, lines)) =
    let (behind, printed) =
      if leb 1 config.verbosity && l4_proto != 0
      then handle_l4_protocol buf offset n l4_proto
      else (offset, []) in
    lines ++ (printed ++ dump_lines config buf n behind)

unfoldable pub process_packet : Config → List ℕ → ℕ → List Line
process_packet config buf n =
    let eth = bytes_from buf 0 14 in
    if ltb n 14
    then []
    else mac (bytes_from eth 6 6) (bytes_from eth 0 6) (be16 eth 12)
      ∷ upper_lines config buf n (handle_l3 buf n (be16 eth 12))

take-drop : {A : Type 0} (k : ℕ) (xs : List A) → take k xs ++ drop k xs ≡ xs
take-drop zero xs = refl
take-drop (suc k) [] = refl
take-drop (suc k) (x ∷ xs) = ap (λ t. x ∷ t) (take-drop k xs)

length-drop : (k : ℕ) (xs : List ℕ) → length (drop k xs) ≤ length xs
length-drop zero xs = omega arith
length-drop (suc k) [] = omega arith
length-drop (suc k) (x ∷ xs) = omega (arith, length-drop k xs)

-- The bytes of the rows, one row behind the other.
abbrev pub row_bytes : List Row → List ℕ
row_bytes [] = []
row_bytes ((i, bytes) ∷ rows) = bytes ++ row_bytes rows

-- With one round for each byte the dump ends, and its rows show every byte, in order.
pub row_bytes-print_hex_dump :
    (fuel i : ℕ) (rest : List ℕ)
    → length rest ≤ fuel
    → row_bytes (print_hex_dump fuel i rest) ≡ rest
unfolding print_hex_dump
row_bytes-print_hex_dump zero i [] h = refl
row_bytes-print_hex_dump zero i (c ∷ rest) h = absurd (omega arith)
row_bytes-print_hex_dump (suc fuel) i [] h = refl
row_bytes-print_hex_dump (suc fuel) i (c ∷ rest) h =
    ap (λ t. take 16 (c ∷ rest) ++ t)
      (row_bytes-print_hex_dump fuel (i + 16) (drop 16 (c ∷ rest))
        (omega (arith, length-drop 15 rest)))
    ∙ take-drop 16 (c ∷ rest)

pub bytes_from-agree :
    (b c : List ℕ) (n offset count : ℕ)
    → AgreeBelow n b c
    → count ≤ n - offset
    → bytes_from b offset count ≡ bytes_from c offset count
unfolding bytes_from
bytes_from-agree b c n offset zero h low = refl
bytes_from-agree b c n offset (suc count) h low =
    ap₂ (λ x t. x ∷ t) (h offset (omega arith))
      (bytes_from-agree b c n (offset + 1) count h (omega arith))
