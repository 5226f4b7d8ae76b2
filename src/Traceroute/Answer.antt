-- ===== src/Traceroute/Answer.antt =====
-- The IPv4 echo probe of traceroute.c and its recognition in an ICMP error that quotes it.
use knetutils.Base.{ℕ, zero, suc, ◌+◌, ◌*◌, ◌%◌, ◌≤◌, ◌<◌}
use knetutils.Base.{◌≡◌, refl, ap, ap₂, ◌∙◌, ◌⊎◌, arith}
use knetutils.Base.{false, ◌&&◌, List, [], ◌∷◌, ◌++◌}
use knetutils.Base.{◌==◌}
use knetutils.Base.{length, take, drop, length-append}
use knetutils.Base.{swap16}
use knetutils.Base.{byte_at, le16, be16_bytes, IsBytes, byte_at-append, byte_at-append_left}
use knetutils.Net.Checksum.{calculate_checksum}
use knetutils.Net.Checksum.Verify.{packet_with, checksum_verifies}
use knetutils.Traceroute.Match.{is_our_probe_v4}
use knetutils.Traceroute.Probe.{echo_v4}

-- What stands behind the checksum of an echo request.
abbrev pub behind : ℕ → ℕ → List ℕ → List ℕ
behind pid seq rest = be16_bytes pid ++ (be16_bytes seq ++ rest)

abbrev pub type_code : List ℕ
type_code = 8 ∷ 0 ∷ []

-- The message that `echo_v4` builds over a buffer of eight bytes or more.
pub echo_v4_lem :
    (p : List ℕ) (pid seq : ℕ)
    → 8 ≤ length p
    → echo_v4 p pid seq
      ≡ packet_with type_code
          (calculate_checksum (packet_with type_code 0 (behind pid seq (drop 8 p))))
          (behind pid seq (drop 8 p))
unfolding echo_v4
echo_v4_lem [] pid seq h = absurd (omega arith)
echo_v4_lem (a ∷ []) pid seq h = absurd (omega arith)
echo_v4_lem (a ∷ b ∷ []) pid seq h = absurd (omega arith)
echo_v4_lem (a ∷ b ∷ c ∷ []) pid seq h = absurd (omega arith)
echo_v4_lem (a ∷ b ∷ c ∷ d ∷ []) pid seq h = absurd (omega arith)
echo_v4_lem (a ∷ b ∷ c ∷ d ∷ e ∷ []) pid seq h = absurd (omega arith)
echo_v4_lem (a ∷ b ∷ c ∷ d ∷ e ∷ f ∷ []) pid seq h = absurd (omega arith)
echo_v4_lem (a ∷ b ∷ c ∷ d ∷ e ∷ f ∷ g ∷ []) pid seq h = absurd (omega arith)
echo_v4_lem (a ∷ b ∷ c ∷ d ∷ e ∷ f ∷ g ∷ i ∷ p) pid seq h = refl

IsBytes-drop : (n : ℕ) (p : List ℕ) → IsBytes p → IsBytes (drop n p)
IsBytes-drop zero p v = v
IsBytes-drop (suc n) [] v = tt
IsBytes-drop (suc n) (x ∷ p) v = IsBytes-drop n p v.1

length-drop : (n : ℕ) (p : List ℕ) → length (drop n p) ≤ length p
length-drop zero p = omega arith
length-drop (suc n) [] = omega arith
length-drop (suc n) (x ∷ p) = omega (arith, length-drop n p)

-- The probe that is sent carries a valid checksum, whatever the buffer held before, for a buffer of
-- 8 to 65536 bytes.
echo_v4_verifies :
    (p : List ℕ) (pid seq : ℕ)
    → IsBytes p
    → 8 ≤ length p
    → length p ≤ 65536
    → calculate_checksum (echo_v4 p pid seq) ≡ 0
echo_v4_verifies p pid seq v low high =
    let bytes = IsBytes-drop 8 p v in
    rw (echo_v4_lem p pid seq low) (
      checksum_verifies type_code (behind pid seq (drop 8 p)) (omega arith)
        (omega arith, (omega arith, (omega arith, (omega arith, bytes)))) refl
        (omega (arith, length-drop 8 p)))

-- An IPv4 header: its first byte gives its length, of 20 bytes or more.
pub record IsHeader (hdr : List ℕ) : Type 0 where
  pub says : length hdr ≡ byte_at hdr 0 % 16 * 4
  pub room : 20 ≤ length hdr

-- An ICMP message: a type and seven more bytes, then its content.
abbrev pub message : ℕ → List ℕ → List ℕ → List ℕ
message type seven content = type ∷ (seven ++ content)

echo_bytes :
    (p : List ℕ) (id seq : ℕ) (rest : List ℕ)
    → 8 ≤ length p
    → let q = take 8 (echo_v4 p id seq) ++ rest in
      (le16 q 4 ≡ swap16 id) × (le16 q 6 ≡ swap16 seq) × (8 ≤ length q)
echo_bytes p id seq rest h = rw (echo_v4_lem p id seq h) (omega arith)

read_inner :
    (outer mid inner q : List ℕ) (n k : ℕ)
    → n ≡ length outer + (length mid + (length inner + k))
    → byte_at (outer ++ (mid ++ (inner ++ q))) n ≡ byte_at q k
read_inner outer mid inner q n k e = rw e (
    byte_at-append outer (mid ++ (inner ++ q)) (length mid + (length inner + k))
    ∙ byte_at-append mid (inner ++ q) (length inner + k)
    ∙ byte_at-append inner q k)

-- The test on a buffer of which the bytes that it reads are known.
test_lem :
    (b : List ℕ) (len H I type x y id seq port : ℕ)
    → byte_at b 0 % 16 * 4 ≡ H
    → byte_at b H ≡ type
    → byte_at b (H + 8) % 16 * 4 ≡ I
    → (type ≡ 11) ⊎ (type ≡ 3)
    → le16 b (H + 8 + I + 4) ≡ x
    → le16 b (H + 8 + I + 6) ≡ y
    → 20 ≤ H
    → 20 ≤ I
    → H + 8 + I + 8 ≤ len
    → is_our_probe_v4 b len id seq false port ≡ (x == id && y == seq)
unfolding is_our_probe_v4
test_lem b len H I type x y id seq port eH et eI ht ex ey h1 h2 h3 = ground arith

swap_test : (x y : ℕ) → x < 65536 → y < 65536 → (swap16 x == swap16 y) ≡ (x == y)
swap_test x y hx hy = ground arith

-- A time-exceeded or unreachable message that quotes an IPv4 header and the first eight bytes of an
-- echo probe is taken for the answer to the probe awaited exactly when the quoted identifier and
-- sequence number are those of that probe.
pub is_our_probe_v4-quoted :
    (outer seven inner rest p : List ℕ) (type id' seq' id seq port : ℕ)
    → IsHeader outer
    → IsHeader inner
    → length seven ≡ 7
    → (type ≡ 11) ⊎ (type ≡ 3)
    → 8 ≤ length p
    → id' < 65536
    → seq' < 65536
    → id < 65536
    → seq < 65536
    → let reply = outer ++ message type seven (inner ++ (take 8 (echo_v4 p id' seq') ++ rest)) in
      is_our_probe_v4 reply (length reply) (swap16 id) (swap16 seq) false port
      ≡ (id' == id && seq' == seq)
is_our_probe_v4-quoted outer seven inner rest p type id' seq' id seq port ho hi h7 ht hp a b c d =
    let q : List ℕ = take 8 (echo_v4 p id' seq') ++ rest in
    let mid : List ℕ = type ∷ seven in
    let reply : List ℕ = outer ++ (mid ++ (inner ++ q)) in
    let (eid, eseq, room) = echo_bytes p id' seq' rest hp in
    let e0 : byte_at reply 0 ≡ byte_at outer 0 =
      byte_at-append_left outer (mid ++ (inner ++ q)) 0 (omega (arith, ho.room)) in
    let et : byte_at reply (length outer) ≡ type =
      ap (byte_at reply) (omega arith) ∙ byte_at-append outer (mid ++ (inner ++ q)) 0 in
    let ei : byte_at reply (length outer + 8) ≡ byte_at inner 0 =
      ap (byte_at reply) (omega (arith, h7))
      ∙ byte_at-append outer (mid ++ (inner ++ q)) (length mid + 0)
      ∙ byte_at-append mid (inner ++ q) 0
      ∙ byte_at-append_left inner q 0 (omega (arith, hi.room)) in
    let r = λ (n k : ℕ) (e : n ≡ length outer + (length mid + (length inner + k))).
      read_inner outer mid inner q n k e in
    let H : ℕ = length outer in
    let I : ℕ = length inner in
    test_lem reply (length reply) H I type (swap16 id') (swap16 seq') (swap16 id) (swap16 seq) port
      (omega (arith, e0, ho.says)) et (omega (arith, ei, hi.says)) ht
      (omega (arith, r (H + 8 + I + 4) 4 (omega arith), r (H + 8 + I + 4 + 1) 5 (omega arith), eid))
      (omega
        (arith, r (H + 8 + I + 6) 6 (omega arith), r (H + 8 + I + 6 + 1) 7 (omega arith), eseq))
      ho.room hi.room
      (omega (
        arith,
        length-append outer (mid ++ (inner ++ q)),
        length-append seven (inner ++ q),
        length-append inner q,
        room,
      ))
    ∙ ap₂ ◌&&◌ (swap_test id' id a c) (swap_test seq' seq b d)
