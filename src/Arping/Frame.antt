-- ===== src/Arping/Frame.antt =====
-- The frames of src/arping.c: `init_arping_state`, `send_arping_probe`, and what `drain_arping_replies`
-- and `handle_arp_reply` do with a frame. An IPv4 address is its `s_addr`.
use knetutils.Base.{ℕ, zero, suc, ◌+◌, ◌<◌}
use knetutils.Base.{◌≡◌, refl, ap, ◌∙◌, ◌⊎◌, inl, inr, arith}
use knetutils.Base.{Bool, true, false, not, ◌&&◌, ◌||◌, Option, none, some, List, [], ◌∷◌, ◌++◌}
use knetutils.Base.{ltb, leb, ◌==◌, ◌!=◌, if◌then◌else◌, Bool-cases}
use knetutils.Base.{take, drop, replicate}
use knetutils.Base.{update}
use knetutils.Base.{u16, u32}
use knetutils.Base.{le32, le32_bytes, be16, be16_bytes}
use knetutils.Base.{same_text}
use knetutils.Utils.{time_diff_ns}
use native.Mathlib.Decide.{ℕ_discrete}
use knetutils.Window.{distance, next_distance}
use knetutils.Arping.Options.{Config}

-- What a run reports as it goes: a reply of the target with its hardware address and round-trip time, and a
-- probe, by its slot, that timed out.
pub data Event : Type 0 where
  replied : List ℕ → ℕ → Event
  timed_out : ℕ → Event

-- `printed` holds the reports so far; what each puts on the terminal is in
-- Arping.Print. The socket is left out, and so are the constant addresses and
-- the copies of the configured ones.
pub record State : Type 0 where
  pub sent : ℕ
  pub received : ℕ
  pub current_target_mac : List ℕ
  pub sent_times : ℕ → ℕ
  pub replied_or_timeout : ℕ → Bool
  pub next_timeout_check_seq : ℕ
  pub printed : List Event

abbrev pub target_mac_broadcast : List ℕ
target_mac_broadcast = replicate 6 255

abbrev pub init_arping_state : State
init_arping_state = record {
  sent = 0;
  received = 0;
  current_target_mac = target_mac_broadcast;
  sent_times = λ _. 0;
  replied_or_timeout = λ _. false;
  next_timeout_check_seq = 0;
  printed = [];
}

-- The Ethernet header and the ARP message.
unfoldable pub arp_frame : Config → State → List ℕ
arp_frame config st =
    let tha =
      if same_text st.current_target_mac target_mac_broadcast
      then replicate 6 0
      else st.current_target_mac in
    st.current_target_mac
    ++ (config.source_mac
        ++ (be16_bytes 0x0806
            ++ (be16_bytes 1
                ++ (be16_bytes 0x0800
                    ++ (6 ∷ 4 ∷ be16_bytes (if config.use_reply then 2 else 1)
                        ++ (config.source_mac
                            ++ (le32_bytes config.source_ip
                                ++ (tha ++ le32_bytes config.target_ip))))))))

-- `none` if the kernel did not take the frame; otherwise the state and the frame.
unfoldable pub send_arping_probe : Config → State → Bool → Option (State × List ℕ)
unfolding arp_frame
send_arping_probe config st taken =
    if taken then some (record st { sent = u32 (st.sent + 1) }, arp_frame config st) else none

-- What was received: the buffer, the number of bytes, the clock at the match.
pub record Packet : Type 0 where
  pub buf : List ℕ
  pub len : ℕ
  pub recv_time : ℕ

-- The tests on length, EtherType and operation.
unfoldable pub is_arp_reply : Packet → Bool
is_arp_reply pkt = leb 42 pkt.len && (be16 pkt.buf 12 == 0x0806 && be16 pkt.buf 20 == 2)

-- The loop from `seq` to the first slot that is not settled; `none` means that the fuel ran out.
unfoldable pub match_slot : ℕ → ℕ → (ℕ → Bool) → ℕ → Option ℕ
match_slot zero stop settled seq = none
match_slot (suc fuel) stop settled seq =
    let rest = match_slot fuel stop settled (u16 (seq + 1)) in
    if seq != stop && settled seq then rest else some seq

-- The slot is settled, if it is not the next one to be sent.
unfoldable pub mark_slot : ℕ → Option ℕ → State → State
mark_slot stop none st = st
mark_slot stop (some seq) st =
    if seq == stop
    then st
    else record st { replied_or_timeout = update st.replied_or_timeout seq true }

-- The round-trip time of the slot.
unfoldable pub slot_rtt : ℕ → ℕ → Option ℕ → State → ℕ
slot_rtt now stop none st = 0
slot_rtt now stop (some seq) st =
    let sent = st.sent_times seq in
    if seq != stop && (ltb 0 sent && leb sent now) then time_diff_ns sent now else 0

-- The state, and whether the reply is from the target.
unfoldable pub handle_arp_reply : Config → Packet → ℕ → State → State × Bool
handle_arp_reply config pkt rtt st = if le32 pkt.buf 28 != config.target_ip then (st, false) else (
  record st {
    current_target_mac =
        if config.keep_broadcast then st.current_target_mac else take 6 (drop 22 pkt.buf);
    received = u32 (st.received + 1);
    printed = st.printed ++ (replied (take 6 (drop 22 pkt.buf)) rtt ∷ []);
  },
  true,
)

-- One frame of `drain_arping_replies`: the state, and whether the program keeps running.
unfoldable pub take_frame : Config → Packet → State → State × Bool
unfolding mark_slot slot_rtt handle_arp_reply is_arp_reply
take_frame config pkt st =
    let stop = u16 st.sent in
    let slot = match_slot 65537 stop st.replied_or_timeout st.next_timeout_check_seq in
    let rtt = slot_rtt pkt.recv_time stop slot st in
    let (handled, from_target) = handle_arp_reply config pkt rtt (mark_slot stop slot st) in
    if not (is_arp_reply pkt)
    then (st, true)
    else (handled, not (from_target && (config.dad || (config.count == 1 || config.quit_on_reply))))

unfoldable pub drain_arping_replies : Config → State → List Packet → State × Bool
drain_arping_replies config st [] = (st, true)
drain_arping_replies config st (pkt ∷ pkts) =
    let (st', running) = take_frame config pkt st in
    let rest = drain_arping_replies config st' pkts in if running then rest else (st', false)

-- With more fuel than there are probes before `stop` the search for the slot of a reply ends, at `stop`
-- or at a slot that is not settled.
match_slot_ends :
    (fuel stop : ℕ) (settled : ℕ → Bool) (seq : ℕ)
    → seq < 65536
    → stop < 65536
    → distance seq stop < fuel
    → (k : ℕ) × (match_slot fuel stop settled seq ≡ some k)
      × (k < 65536)
      × ((k ≡ stop) ⊎ (settled k ≡ false))
unfolding match_slot
match_slot_ends zero stop settled seq a b h = absurd (omega arith)
match_slot_ends (suc fuel) stop settled seq a b h = elim (ℕ_discrete seq stop) [
  | yes e ↦ (seq, ground arith, a, inl e)
  | no ne ↦
      let near : distance (u16 (seq + 1)) stop < fuel =
        omega (arith, next_distance seq stop a b ne) in
      elim (Bool-cases (settled seq)) [
        | inl e ↦
            let (k, ek, low, at) =
              match_slot_ends fuel stop settled (u16 (seq + 1)) (omega arith) b near in
            (k, ground (arith, ek), low, at)
        | inr e ↦ (seq, ground arith, a, inr e)
      ]
]

mark_slot-received :
    (stop : ℕ) (slot : Option ℕ) (st : State)
    → ((mark_slot stop slot st).received ≡ st.received)
      × ((mark_slot stop slot st).current_target_mac ≡ st.current_target_mac)
unfolding mark_slot
mark_slot-received stop none st = (refl, refl)
mark_slot-received stop (some seq) st = (ground arith, ground arith)

handle_cases :
    (config : Config) (pkt : Packet) (rtt : ℕ) (st : State)
    → ((le32 pkt.buf 28 ≡ config.target_ip)
        × ((handle_arp_reply config pkt rtt st).0.received ≡ u32 (st.received + 1)))
      ⊎ (handle_arp_reply config pkt rtt st ≡ (st, false))
unfolding handle_arp_reply
handle_cases config pkt rtt st = elim (ℕ_discrete (le32 pkt.buf 28) config.target_ip) [
  | yes e ↦ inl (e, ground (arith, e))
  | no ne ↦ inr (ground (arith, ne))
]

-- A frame is counted only if it is an ARP reply of at least 42 bytes from the target address, and it
-- is counted once. Any other frame leaves the number received and the address in use as they are, and
-- the program running.
take_frame-counts :
    (config : Config) (pkt : Packet) (st : State)
    → ((is_arp_reply pkt ≡ true)
        × (le32 pkt.buf 28 ≡ config.target_ip)
        × ((take_frame config pkt st).0.received ≡ u32 (st.received + 1)))
      ⊎ (((take_frame config pkt st).0.received ≡ st.received)
          × ((take_frame config pkt st).0.current_target_mac ≡ st.current_target_mac)
          × ((take_frame config pkt st).1 ≡ true))
unfolding take_frame
take_frame-counts config pkt st =
    let slot = match_slot 65537 (u16 st.sent) st.replied_or_timeout st.next_timeout_check_seq in
    let rtt = slot_rtt pkt.recv_time (u16 st.sent) slot st in
    let (er, em) = mark_slot-received (u16 st.sent) slot st in
    elim (Bool-cases (is_arp_reply pkt)) [
      | inr e ↦ rw e (inr (refl, refl, refl))
      | inl e ↦ elim (handle_cases config pkt rtt (mark_slot (u16 st.sent) slot st)) [
        | inl (at, counted) ↦ rw e (inl (refl, at, counted ∙ ap (λ n. u32 (n + 1)) er))
        | inr same ↦ rw (e, same) (inr (er, em, refl))
      ]
    ]
