-- ===== src/Sniff/Pcap.antt =====
-- Reading back the file that src/sniff.c writes, and how many packets it takes.
use knetutils.Base.{ℕ, zero, suc, ◌+◌, ◌/◌, ◌^◌, ◌≤◌, ◌<◌, max}
use knetutils.Base.{◌≡◌, refl, sym, ap, ◌∙◌, inl, inr, arith}
use knetutils.Base.{true, false, Option, none, some, List, [], ◌∷◌, ◌++◌}
use knetutils.Base.{ltb, if◌then◌else◌, Bool-cases}
use knetutils.Base.{length, take, drop, length-append, take-append, drop-append}
use knetutils.Base.{le32, le32_bytes}
use knetutils.Base.{Text}
use mathlib.Core.Option
use mathlib.Core.List.{append-nil, append_assoc}
use knetutils.Sniff.Options.{Config}
use knetutils.Sniff.Capture.{
  Packet, pcap_header, pcap_record, write_pcap_packet, State, init_sniff_state, take_packet,
  is_full, Tick, after_tick, sniff_loop,
}

-- A packet as a reader of pcap files has it: seconds, microseconds and bytes.
pub record Captured : Type 0 where
  pub ts_sec : ℕ
  pub ts_usec : ℕ
  pub bytes : List ℕ

-- One record with its fields, in front of the records that are read behind it.
abbrev pub read_record : ℕ → ℕ → ℕ → List ℕ → Option (List Captured) → Option (List Captured)
read_record sec usec len body rest =
    if ltb (length body) len
    then none
    else Option.map (λ l. record { ts_sec = sec; ts_usec = usec; bytes = take len body } ∷ l) rest

-- A reader of the records of a pcap file, with fuel for one round more than there are records.
abbrev pub read_records : ℕ → List ℕ → Option (List Captured)
read_records zero file = none
read_records (suc fuel) [] = some []
read_records (suc fuel) (b ∷ file) =
    let len = le32 (b ∷ file) 8 in
    let body = drop 16 (b ∷ file) in
    let rest = read_records fuel (drop len body) in
    read_record (le32 (b ∷ file) 0) (le32 (b ∷ file) 4) len body rest

-- A reader of the file, which begins with the header.
abbrev pub read_pcap : ℕ → List ℕ → Option (List Captured)
read_pcap fuel file = read_records fuel (drop 24 file)

-- A packet that fits: the clock is in range and the buffer holds what was received.
pub record IsReceived (pkt : Packet) : Type 0 where
  pub sec_fits : pkt.tv_sec < 2 ^ 32
  pub nsec_fits : pkt.tv_nsec < 1_000_000_000
  pub len_fits : pkt.len < 2 ^ 32
  pub held : pkt.len ≤ length pkt.buf

abbrev pub captured : Packet → Captured
captured pkt = record {
  ts_sec = pkt.tv_sec;
  ts_usec = pkt.tv_nsec / 1000;
  bytes = take pkt.len pkt.buf;
}

-- The word read where `x` was written.
abbrev word : ℕ → ℕ
word x = le32 (le32_bytes x) 0

word_lem : (x : ℕ) → x < 2 ^ 32 → word x ≡ x
word_lem x h = omega arith

length-take : (n : ℕ) (xs : List ℕ) → n ≤ length xs → length (take n xs) ≡ n
length-take zero xs h = refl
length-take (suc n) [] h = absurd (omega arith)
length-take (suc n) (x ∷ xs) h = ap suc (length-take n xs (omega arith))

read_body :
    (fuel : ℕ) (pkt : Packet) (rest : List ℕ)
    → IsReceived pkt
    → let body = take pkt.len pkt.buf ++ rest in
      read_record pkt.tv_sec
        (pkt.tv_nsec / 1000)
        pkt.len
        body
        (read_records fuel (drop pkt.len body))
      ≡ Option.map (λ l. captured pkt ∷ l) (read_records fuel rest)
read_body fuel pkt rest v =
    let data' : List ℕ = take pkt.len pkt.buf in
    let size : length data' ≡ pkt.len = length-take pkt.len pkt.buf v.held in
    let whole : ltb (length (data' ++ rest)) pkt.len ≡ false =
      ground (arith, length-append data' rest, size) in
    let back : take pkt.len (data' ++ rest) ≡ data' =
      ap (λ n. take n (data' ++ rest)) (sym size) ∙ take-append data' rest in
    let behind : drop pkt.len (data' ++ rest) ≡ rest =
      ap (λ n. drop n (data' ++ rest)) (sym size) ∙ drop-append data' rest in
    rw (whole, back, behind) refl

read_one :
    (fuel : ℕ) (pkt : Packet) (rest : List ℕ)
    → IsReceived pkt
    → read_records (suc fuel) (pcap_record pkt ++ rest)
      ≡ Option.map (λ l. captured pkt ∷ l) (read_records fuel rest)
unfolding pcap_record
read_one fuel pkt rest v =
    let body : List ℕ = take pkt.len pkt.buf ++ rest in
    let usec : ℕ = pkt.tv_nsec / 1000 in
    let f : ℕ → ℕ → ℕ → Option (List Captured) =
      λ s u l. read_record s u l body (read_records fuel (drop l body)) in
    ap (λ s. f s (word usec) (word (pkt.len))) (word_lem pkt.tv_sec v.sec_fits)
    ∙ ap (λ u. f pkt.tv_sec u (word (pkt.len))) (word_lem usec (omega (arith, v.nsec_fits)))
    ∙ ap (λ l. f pkt.tv_sec usec l) (word_lem pkt.len v.len_fits)
    ∙ read_body fuel pkt rest v

-- The packets among the ticks that the loop takes.
abbrev pub taken : Config → State → List Tick → List Packet
taken config st [] = []
taken config st (none ∷ ticks) = if is_full config st then [] else taken config st ticks
taken config st (some pkt ∷ ticks) =
    let more = pkt ∷ taken config (take_packet config st pkt) ticks in
    if is_full config st then [] else more

abbrev pub AllReceived : List Tick → Type 0
AllReceived [] = Unit
AllReceived (none ∷ ticks) = AllReceived ticks
AllReceived (some pkt ∷ ticks) = IsReceived pkt × AllReceived ticks

-- What the loop appends to the file.
abbrev pub records_of : List Packet → List ℕ
records_of [] = []
records_of (pkt ∷ pkts) = pcap_record pkt ++ records_of pkts

file_grows :
    (config : Config) (st : State) (ticks : List Tick) (file : List ℕ)
    → st.pcap_fp ≡ some file
    → (sniff_loop config st ticks).pcap_fp ≡ some (file ++ records_of (taken config st ticks))
unfolding sniff_loop after_tick take_packet write_pcap_packet
file_grows config st [] file e = e ∙ ap some (sym (append-nil file))
file_grows config st (none ∷ ticks) file e = elim (Bool-cases (is_full config st)) [
  | inl full ↦ rw full (e ∙ ap some (sym (append-nil file)))
  | inr more ↦ rw more (file_grows config st ticks file e)
]
file_grows config st (some pkt ∷ ticks) file e = elim (Bool-cases (is_full config st)) [
  | inl full ↦ rw full (e ∙ ap some (sym (append-nil file)))
  | inr more ↦
      let later = taken config (take_packet config st pkt) ticks in
      rw more (
        file_grows config (take_packet config st pkt) ticks (file ++ pcap_record pkt)
          (ap (λ f. write_pcap_packet f pkt) e)
        ∙ ap some (append_assoc file (pcap_record pkt) (records_of later)))
]

-- What the packets taken are, as a reader has them.
abbrev pub all_captured : List Packet → List Captured
all_captured [] = []
all_captured (pkt ∷ pkts) = captured pkt ∷ all_captured pkts

abbrev pub AreReceived : List Packet → Type 0
AreReceived [] = Unit
AreReceived (pkt ∷ pkts) = IsReceived pkt × AreReceived pkts

read_all :
    (fuel : ℕ) (pkts : List Packet)
    → AreReceived pkts
    → length pkts < fuel
    → read_records fuel (records_of pkts) ≡ some (all_captured pkts)
read_all zero pkts v h = absurd (omega arith)
read_all (suc fuel) [] v h = refl
read_all (suc fuel) (pkt ∷ pkts) v h =
    read_one fuel pkt (records_of pkts) v.0
    ∙ ap (Option.map (λ l. captured pkt ∷ l)) (read_all fuel pkts v.1 (omega arith))

taken-AreReceived :
    (config : Config) (st : State) (ticks : List Tick)
    → AllReceived ticks
    → AreReceived (taken config st ticks)
taken-AreReceived config st [] v = tt
taken-AreReceived config st (none ∷ ticks) v = elim (Bool-cases (is_full config st)) [
  | inl full ↦ rw full tt
  | inr more ↦ rw more (taken-AreReceived config st ticks v)
]
taken-AreReceived config st (some pkt ∷ ticks) v = elim (Bool-cases (is_full config st)) [
  | inl full ↦ rw full tt
  | inr more ↦ rw more (v.0, taken-AreReceived config (take_packet config st pkt) ticks v.1)
]

length-taken :
    (config : Config) (st : State) (ticks : List Tick)
    → 0 < config.max_packets
    → config.max_packets < 2 ^ 31
    → length (taken config st ticks) + st.packets_captured
      ≤ max config.max_packets st.packets_captured
unfolding take_packet
length-taken config st [] pos small = omega arith
length-taken config st (none ∷ ticks) pos small =
    ground (arith, length-taken config st ticks pos small)
length-taken config st (some pkt ∷ ticks) pos small =
    ground (arith, length-taken config (take_packet config st pkt) ticks pos small)

-- When the file could be opened, for a limit of 1 to 2^31 - 1 packets and packets that the buffer holds, at
-- times whose seconds fit 32 bits: reading the file back gives the packets that the loop took, in
-- order, each with its seconds, its microseconds and the received bytes, and these are at most as many as
-- the limit.
pub sniff_loop-read :
    (config : Config) (name : Text) (ticks : List Tick) (fuel : ℕ)
    → config.pcap_file ≡ some name
    → 0 < config.max_packets
    → config.max_packets < 2 ^ 31
    → AllReceived ticks
    → config.max_packets < fuel
    → let st = init_sniff_state config true in
      let pkts = taken config st ticks in
      (file : List ℕ) × ((sniff_loop config st ticks).pcap_fp ≡ some file)
      × (read_pcap fuel file ≡ some (all_captured pkts))
      × (length pkts ≤ config.max_packets)
unfolding init_sniff_state pcap_header
sniff_loop-read config name ticks fuel named pos small v enough =
    let st = init_sniff_state config true in
    let pkts = taken config st ticks in
    let few : length pkts ≤ config.max_packets =
      omega (arith, length-taken config st ticks pos small) in
    (
      pcap_header ++ records_of pkts,
      file_grows config st ticks pcap_header (rw named refl),
      read_all fuel pkts (taken-AreReceived config st ticks v) (omega arith),
      few,
    )
