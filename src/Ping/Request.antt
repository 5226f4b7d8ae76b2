-- ===== src/Ping/Request.antt =====
-- The checksum of the requests of src/ping.c.
use knetutils.Base.{ℕ, zero, suc, ◌+◌, ◌≤◌, ◌<◌}
use knetutils.Base.{◌≡◌, refl, ap, ap₂, ◌∙◌, inl, inr, arith}
use knetutils.Base.{Bool, true, false, List, [], ◌∷◌, ◌++◌}
use knetutils.Base.{leb, if◌then◌else◌, Bool-cases}
use knetutils.Base.{length, set, take}
use knetutils.Base.{be16_bytes, IsBytes, write, length-write}
use knetutils.Base.{is_inet}
use knetutils.Net.Checksum.{calculate_checksum}
use knetutils.Net.Checksum.Verify.{packet_with, checksum_verifies}
use knetutils.Ping.State.{Config, State}
use knetutils.Ping.Packet.{le64_bytes, request_fields, send_ping_request}

IsBytes-set : (xs : List ℕ) (i x : ℕ) → IsBytes xs → x < 256 → IsBytes (set xs i x)
IsBytes-set [] i x v h = tt
IsBytes-set (y ∷ xs) zero x v h = (h, v.1)
IsBytes-set (y ∷ xs) (suc i) x v h = (v.0, IsBytes-set xs i x v.1 h)

IsBytes-write :
    (bytes buf : List ℕ) (i : ℕ) → IsBytes buf → IsBytes bytes → IsBytes (write buf i bytes)
IsBytes-write [] buf i v h = v
IsBytes-write (x ∷ bytes) buf i v h =
    IsBytes-write bytes (set buf i x) (i + 1) (IsBytes-set buf i x v h.0) h.1

set-append : (a r : List ℕ) (i x : ℕ) → set (a ++ r) (length a + i) x ≡ a ++ set r i x
set-append [] r i x = ap (λ n. set r n x) (omega arith)
set-append (y ∷ a) r i x =
    ap (λ n. set (y ∷ (a ++ r)) n x) (suc_add (length a) i) ∙ ap (λ t. y ∷ t) (set-append a r i x)
  where
    suc_add : (n k : ℕ) → suc n + k ≡ suc (n + k)
    suc_add n k = omega arith

write-append :
    (bytes a r : List ℕ) (i : ℕ) → write (a ++ r) (length a + i) bytes ≡ a ++ write r i bytes
write-append [] a r i = refl
write-append (x ∷ bytes) a r i =
    ap₂ (λ t n. write t n bytes) (set-append a r i x) (omega arith)
    ∙ write-append bytes a (set r i x) (i + 1)

take-length : (xs : List ℕ) → take (length xs) xs ≡ xs
take-length [] = refl
take-length (x ∷ xs) = ap (λ t. x ∷ t) (take-length xs)

-- What stands behind the checksum.
abbrev behind : ℕ → ℕ → List ℕ → List ℕ
behind pid seq rest = be16_bytes pid ++ (be16_bytes seq ++ rest)

-- The payload area, behind the first eight bytes, with its stamp.
abbrev stamped_rest : Config → ℕ → List ℕ → List ℕ
stamped_rest config clock rest =
    if leb 8 config.payload_size then write rest 20 (le64_bytes clock) else rest

request_fields_lem :
    (config : Config) (st : State) (clock a b c d e f g h : ℕ) (rest : List ℕ)
    → st.packet ≡ a ∷ b ∷ c ∷ d ∷ e ∷ f ∷ g ∷ h ∷ rest
    → st.header_size ≡ 28
    → request_fields config st clock
      ≡ packet_with
          (st.icmp_req_type ∷ 0 ∷ [])
          0
          (behind st.pid st.seq (stamped_rest config clock rest))
request_fields_lem config st clock a b c d e f g h rest ep eh =
    elim (Bool-cases (leb 8 config.payload_size)) [
      | inl big ↦
          rw (ep, eh, big)
            (ap (λ t. write t 2 (0 ∷ 0 ∷ []))
              (write-append (le64_bytes clock)
                (st.icmp_req_type ∷ 0 ∷ c ∷ d ∷ be16_bytes st.pid ++ be16_bytes st.seq) rest 20))
      | inr small ↦ rw (ep, eh, small) refl
    ]

length-stamped :
    (bytes buf : List ℕ) (i : ℕ) (big : Bool)
    → length (if big then write buf i bytes else buf) ≡ length buf
length-stamped bytes buf i true = length-write bytes buf i
length-stamped bytes buf i false = refl

stamped-IsBytes :
    (config : Config) (clock : ℕ) (rest : List ℕ)
    → IsBytes rest
    → IsBytes (stamped_rest config clock rest)
stamped-IsBytes config clock rest v = elim (Bool-cases (leb 8 config.payload_size)) [
  | inl e ↦ rw e (IsBytes-write (le64_bytes clock) rest 20 v (omega arith))
  | inr e ↦ rw e v
]

request_verifies :
    (config : Config) (st : State) (clock a b c d e f g h : ℕ) (rest : List ℕ)
    → is_inet config.family ≡ true
    → st.packet ≡ a ∷ b ∷ c ∷ d ∷ e ∷ f ∷ g ∷ h ∷ rest
    → IsBytes rest
    → length rest ≤ 65528
    → st.icmp_req_type < 256
    → st.header_size ≡ 28
    → st.total_len ≡ length st.packet
    → calculate_checksum (send_ping_request config st clock).packet ≡ 0
unfolding send_ping_request
request_verifies config st clock a b c d e f g h rest v4 ep v short type eh et =
    let r = stamped_rest config clock rest in
    let tail : List ℕ = behind st.pid st.seq r in
    let head : List ℕ = st.icmp_req_type ∷ 0 ∷ [] in
    let len : length r ≡ length rest =
      length-stamped (le64_bytes clock) rest 20 (leb 8 config.payload_size) in
    let zeroed : List ℕ = packet_with head 0 tail in
    let full : st.total_len ≡ length zeroed = omega (arith, et, ap length ep, len) in
    rw (v4, request_fields_lem config st clock a b c d e f g h rest ep eh, full, take-length zeroed)
      (checksum_verifies head tail (omega arith)
        (
          omega arith,
          (omega arith, (omega arith, (omega arith, stamped-IsBytes config clock rest v))),
        )
        refl (omega (arith, len)))

verifies_from :
    (p : List ℕ) (config : Config) (st : State) (clock : ℕ)
    → is_inet config.family ≡ true
    → st.packet ≡ p
    → IsBytes p
    → 8 ≤ length p
    → length p ≤ 65536
    → st.icmp_req_type < 256
    → st.header_size ≡ 28
    → st.total_len ≡ length st.packet
    → calculate_checksum (send_ping_request config st clock).packet ≡ 0
verifies_from [] config st clock v4 ep v low high type eh et = absurd (omega arith)
verifies_from (a ∷ []) config st clock v4 ep v low high type eh et = absurd (omega arith)
verifies_from (a ∷ b ∷ []) config st clock v4 ep v low high type eh et = absurd (omega arith)
verifies_from (a ∷ b ∷ c ∷ []) config st clock v4 ep v low high type eh et = absurd (omega arith)
verifies_from (a ∷ b ∷ c ∷ d ∷ []) config st clock v4 ep v low high type eh et =
    absurd (omega arith)
verifies_from (a ∷ b ∷ c ∷ d ∷ e ∷ []) config st clock v4 ep v low high type eh et =
    absurd (omega arith)
verifies_from (a ∷ b ∷ c ∷ d ∷ e ∷ f ∷ []) config st clock v4 ep v low high type eh et =
    absurd (omega arith)
verifies_from (a ∷ b ∷ c ∷ d ∷ e ∷ f ∷ g ∷ []) config st clock v4 ep v low high type eh et =
    absurd (omega arith)
verifies_from (a ∷ b ∷ c ∷ d ∷ e ∷ f ∷ g ∷ h ∷ rest) config st clock v4 ep v low high type eh et =
    request_verifies config st clock a b c d e f g h rest v4 ep v.1.1.1.1.1.1.1.1 (omega arith) type
      eh et

-- Whatever an earlier request left in the packet of 8 to 65536 bytes, the next IPv4 request, with its
-- time stamp or without one, has the checksum 0 over its whole length.
pub send_ping_request_verifies :
    (config : Config) (st : State) (clock : ℕ)
    → is_inet config.family ≡ true
    → IsBytes st.packet
    → 8 ≤ length st.packet
    → length st.packet ≤ 65536
    → st.icmp_req_type < 256
    → st.header_size ≡ 28
    → st.total_len ≡ length st.packet
    → calculate_checksum (send_ping_request config st clock).packet ≡ 0
send_ping_request_verifies config st clock v4 v low high type eh et =
    verifies_from st.packet config st clock v4 refl v low high type eh et
