-- ===== src/Pscan/Quoted.antt =====
-- The ICMP messages that close a port of src/pscan.c, read layer by layer from the bytes received, and that
-- `process_packet` reads them so.
use knetutils.Base.{ℕ, zero, suc, ◌+◌, ◌-◌, ◌*◌, ◌%◌, ◌<◌}
use knetutils.Base.{◌≡◌, refl, sym, ap, ap₂, ◌∙◌, inl, inr, arith}
use knetutils.Base.{true, ◌&&◌, Option, none, some, List, [], ◌∷◌}
use knetutils.Base.{ltb, ◌==◌, if◌then◌else◌, Bool-cases}
use knetutils.Base.{length, get_or, drop}
use knetutils.Base.{byte_at, be16}
use knetutils.Pscan.Packet.{refused_v4, refused_v6}

-- The bytes received: `n` from the offset `at` on.
abbrev pub bytes_from : List ℕ → ℕ → ℕ → List ℕ
bytes_from buf at zero = []
bytes_from buf at (suc n) = byte_at buf at ∷ bytes_from buf (at + 1) n

-- What stands behind an IPv4 header, whose first byte has its length in words in the lower half.
unfoldable pub behind_ip : List ℕ → List ℕ
behind_ip bytes = drop (get_or bytes 0 0 % 16 * 4) bytes

-- What an ICMP message of that type and code quotes, behind its eight bytes.
unfoldable pub quoted : ℕ → ℕ → List ℕ → Option (List ℕ)
quoted kind code bytes =
    if ltb (length bytes) 8
    then none
    else if get_or bytes 0 0 == kind && get_or bytes 1 0 == code
    then some (drop 8 bytes)
    else none

-- The destination port of a UDP header, which has eight bytes.
unfoldable pub udp_port : List ℕ → Option ℕ
udp_port bytes =
    if ltb (length bytes) 8 then none else some (256 * get_or bytes 2 0 + get_or bytes 3 0)

-- IPv4: the message has type 3 and code 3, behind the header of IP, and quotes a datagram with its header.
unfoldable pub port_v4 : Option (List ℕ) → Option ℕ
unfolding udp_port behind_ip
port_v4 none = none
port_v4 (some datagram) = udp_port (behind_ip datagram)

unfoldable pub unreachable_v4 : List ℕ → Option ℕ
unfolding port_v4 quoted behind_ip
unreachable_v4 bytes = port_v4 (quoted 3 3 (behind_ip bytes))

-- IPv6: the message has type 1 and code 4, and quotes a datagram whose header has 40 bytes.
unfoldable pub port_v6 : Option (List ℕ) → Option ℕ
unfolding udp_port
port_v6 none = none
port_v6 (some datagram) = udp_port (drop 40 datagram)

unfoldable pub unreachable_v6 : List ℕ → Option ℕ
unfolding port_v6 quoted
unreachable_v6 bytes = port_v6 (quoted 1 4 bytes)

module _ (buf : List ℕ) where
  length-bytes_from : (at n : ℕ) → length (bytes_from buf at n) ≡ n
  length-bytes_from at zero = refl
  length-bytes_from at (suc n) = ap suc (length-bytes_from (at + 1) n)

  get_or-bytes_from : (at n i : ℕ) → i < n → get_or (bytes_from buf at n) i 0 ≡ byte_at buf (at + i)
  get_or-bytes_from at zero i lt = absurd (omega arith)
  get_or-bytes_from at (suc n) zero lt = ap (byte_at buf) (omega arith)
  get_or-bytes_from at (suc n) (suc i) lt =
      get_or-bytes_from (at + 1) n i (omega arith) ∙ ap (byte_at buf) (omega arith)

  drop-bytes_from : (at n k : ℕ) → drop k (bytes_from buf at n) ≡ bytes_from buf (at + k) (n - k)
  drop-bytes_from at n zero = ap₂ (λ i m. bytes_from buf i m) (omega arith) (omega arith)
  drop-bytes_from at zero (suc k) =
      let none_left : 0 ≡ 0 - suc k = omega arith in ap (bytes_from buf (at + suc k)) none_left
  drop-bytes_from at (suc n) (suc k) =
      drop-bytes_from (at + 1) n k ∙ ap₂ (λ i m. bytes_from buf i m) (omega arith) (omega arith)

  behind_ip-bytes_from :
      (at n : ℕ)
      → 0 < n
      → behind_ip (bytes_from buf at n)
        ≡ bytes_from buf (at + byte_at buf at % 16 * 4) (n - byte_at buf at % 16 * 4)
  unfolding behind_ip
  behind_ip-bytes_from at n pos =
      let first : get_or (bytes_from buf at n) 0 0 ≡ byte_at buf at =
        get_or-bytes_from at n 0 pos ∙ ap (byte_at buf) (omega arith) in
      rw first (drop-bytes_from at n (byte_at buf at % 16 * 4))

  quoted-bytes_from :
      (kind code at n : ℕ)
      → quoted kind code (bytes_from buf at n) ≡ (
          if ltb n 8
          then none
          else if byte_at buf at == kind && byte_at buf (at + 1) == code
          then some (bytes_from buf (at + 8) (n - 8))
          else none)
  unfolding quoted
  quoted-bytes_from kind code at n = elim (Bool-cases (ltb n 8)) [
    | inl short ↦ rw (length-bytes_from at n, short) refl
    | inr long ↦
        let first : get_or (bytes_from buf at n) 0 0 ≡ byte_at buf at =
          get_or-bytes_from at n 0 (ground arith) ∙ ap (byte_at buf) (omega arith) in
        let second = get_or-bytes_from at n 1 (ground arith) in
        rw (length-bytes_from at n, long, first, second, drop-bytes_from at n 8) refl
  ]

  udp_port-bytes_from :
      (at n : ℕ)
      → udp_port (bytes_from buf at n) ≡ (if ltb n 8 then none else some (be16 buf (at + 2)))
  unfolding udp_port
  udp_port-bytes_from at n = elim (Bool-cases (ltb n 8)) [
    | inl short ↦ rw (length-bytes_from at n, short) refl
    | inr long ↦
        let high = get_or-bytes_from at n 2 (ground arith) in
        let low : get_or (bytes_from buf at n) 3 0 ≡ byte_at buf (at + 2 + 1) =
          get_or-bytes_from at n 3 (ground arith) ∙ ap (byte_at buf) (omega arith) in
        rw (length-bytes_from at n, long, high, low) refl
  ]

  -- The quoted datagram, `n` bytes from `at` on, and the port in it.
  datagram_port :
      (at n : ℕ)
      → port_v4 (some (bytes_from buf at n)) ≡ (
          if ltb n (byte_at buf at % 16 * 4 + 8)
          then none
          else some (be16 buf (at + byte_at buf at % 16 * 4 + 2)))
  unfolding port_v4
  datagram_port at zero =
      let short : ltb 0 (byte_at buf at % 16 * 4 + 8) ≡ true = ground arith in rw short refl
  datagram_port at (suc n) =
      let o : ℕ = byte_at buf at % 16 * 4 in
      let same : ltb (suc n - o) 8 ≡ ltb (suc n) (o + 8) = ground arith in
      rw
        (
          behind_ip-bytes_from at (suc n) (omega arith),
          udp_port-bytes_from (at + o) (suc n - o),
          same,
        )
        refl

  message_port :
      (h len : ℕ)
      → port_v4 (quoted 3 3 (bytes_from buf h (len - h))) ≡ (
          if ltb len (h + 8)
          then none
          else if byte_at buf h == 3 && byte_at buf (h + 1) == 3
          then if ltb len (h + 8 + byte_at buf (h + 8) % 16 * 4 + 8)
            then none
            else some (be16 buf (h + 8 + byte_at buf (h + 8) % 16 * 4 + 2))
          else none)
  unfolding port_v4
  message_port h len =
      let o : ℕ = byte_at buf (h + 8) % 16 * 4 in
      let start : ltb (len - h) 8 ≡ ltb len (h + 8) = ground arith in
      elim (Bool-cases (ltb len (h + 8))) [
        | inl short ↦ rw (quoted-bytes_from 3 3 h (len - h), start, short) refl
        | inr long ↦
            let end : ltb (len - h - 8) (o + 8) ≡ ltb len (h + 8 + o + 8) = ground arith in
            let inner = datagram_port (h + 8) (len - h - 8) in
            elim (Bool-cases (byte_at buf h == 3 && byte_at buf (h + 1) == 3)) [
              | inl t ↦ rw (quoted-bytes_from 3 3 h (len - h), start, long, t) (inner ∙ rw end refl)
              | inr f ↦ rw (quoted-bytes_from 3 3 h (len - h), start, long, f) refl
            ]
      ]

  pub refused_v4-unreachable_v4 :
      (len : ℕ) → refused_v4 buf len ≡ unreachable_v4 (bytes_from buf 0 len)
  unfolding refused_v4 unreachable_v4
  refused_v4-unreachable_v4 zero =
      let short : ltb 0 (byte_at buf 0 % 16 * 4 + 8) ≡ true = ground arith in rw short refl
  refused_v4-unreachable_v4 (suc len) =
      let h : ℕ = byte_at buf 0 % 16 * 4 in
      sym (
        ap (λ bytes. port_v4 (quoted 3 3 bytes))
          (behind_ip-bytes_from 0 (suc len) (omega arith)
            ∙ ap (λ i. bytes_from buf i (suc len - h)) (omega arith))
        ∙ message_port h (suc len))

  pub refused_v6-unreachable_v6 :
      (len : ℕ) → refused_v6 buf len ≡ unreachable_v6 (bytes_from buf 0 len)
  unfolding refused_v6 unreachable_v6 port_v6
  refused_v6-unreachable_v6 len = elim (Bool-cases (ltb len 8)) [
    | inl short ↦ rw (quoted-bytes_from 1 4 0 len, short) refl
    | inr long ↦ elim (Bool-cases (byte_at buf 0 == 1 && byte_at buf 1 == 4)) [
      | inr f ↦ rw (quoted-bytes_from 1 4 0 len, long, f) refl
      | inl t ↦
          let end : ltb (len - 8 - 40) 8 ≡ ltb len 56 = ground arith in
          rw
            (
              quoted-bytes_from 1 4 0 len,
              long,
              t,
              drop-bytes_from 8 (len - 8) 40,
              udp_port-bytes_from 48 (len - 8 - 40),
              end,
            )
            refl
    ]
  ]
