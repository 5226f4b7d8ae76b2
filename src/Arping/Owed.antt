-- ===== src/Arping/Owed.antt =====
-- That every slot of arping is settled by an ARP reply or by its timeout, whatever frames arrive. For the
-- rounds of src/arping.c.
use knetutils.Base.{ℕ, suc, ◌+◌, ◌≤◌, ◌<◌}
use knetutils.Base.{◌≡◌, refl, ◌⊎◌, inl, inr, arith}
use knetutils.Base.{false, some, List, [], ◌∷◌}
use knetutils.Base.{◌==◌, ◌!=◌, if◌then◌else◌, Bool-cases}
use knetutils.Base.{take, drop}
use knetutils.Base.{u16}
use knetutils.Base.{le32}
use knetutils.Window.Balance.{recount, answer-IsBalanced}
use knetutils.Arping.Options.{Config}
use knetutils.Arping.Frame.{
  replied, State, Packet, is_arp_reply, mark_slot, slot_rtt, handle_arp_reply, take_frame,
  drain_arping_replies,
}
use knetutils.Arping.Run.{Tick}
use knetutils.Arping.Settled.{IsCounted, IsGood, take_frame-IsGood}
use knetutils.Arping.Account.{
  timeouts, Counts-append, match_slot-IsFirst, HasBooks, scanned-HasBooks,
}
use knetutils.Arping.Booked.{IsKept, noted-HasBooks, sent-HasBooks}

-- How many ARP replies there are, from whomever.
abbrev pub arp_replies : List Packet → ℕ
arp_replies [] = 0
arp_replies (pkt ∷ pkts) =
    let rest = arp_replies pkts in if is_arp_reply pkt then suc rest else rest

abbrev pub all_arp_replies : List Tick → ℕ
all_arp_replies [] = 0
all_arp_replies (tick ∷ ticks) = arp_replies tick.packets + all_arp_replies ticks

-- Every settled slot has timed out or was settled by one of so many ARP replies.
abbrev pub IsOwed : ℕ → State → Type 0
IsOwed arrived st = (k : ℕ) × (k ≤ arrived) × HasBooks k k st

more_arrived : (n m : ℕ) (st : State) → n ≤ m → IsOwed n st → IsOwed m st
more_arrived n m st le (k, few, b) = (k, omega (arith, few, le), b)

pub IsOwed-IsKept : (config : Config) (n : ℕ) → IsCounted config → IsKept config (IsOwed n)
IsOwed-IsKept config n c = record {
  clears = λ now st g o. (o.0, o.1, noted-HasBooks config c o.0 o.0 now st g o.2);
  sends = λ now st g w o. (o.0, o.1, sent-HasBooks config c o.0 o.0 now st g w o.2);
  scans = λ now st v g r o. (o.0, o.1, scanned-HasBooks config c o.0 o.0 now st v g r o.2);
}

-- The report of a reply is no timeout.
handle-IsOwed :
    (config : Config) (pkt : Packet) (rtt n : ℕ) (st : State)
    → IsOwed n st
    → IsOwed n (handle_arp_reply config pkt rtt st).0
unfolding handle_arp_reply
handle-IsOwed config pkt rtt n st (k, few, b) =
    let counts = Counts-append st.printed (replied (take 6 (drop 22 pkt.buf)) rtt ∷ []) in
    elim (Bool-cases (le32 pkt.buf 28 != config.target_ip)) [
      | inl e ↦ rw e (k, few, b)
      | inr e ↦ rw e (k, few, recount b refl (omega (arith, counts.timeouts_are)))
    ]

module _ (config : Config) (c : IsCounted config) where
  mark-IsOwed :
      (n seq : ℕ) (st : State)
      → IsGood config st
      → seq ≤ st.sent
      → ((seq ≡ st.sent) ⊎ (st.replied_or_timeout seq ≡ false))
      → IsOwed n st
      → IsOwed (suc n) (mark_slot (u16 st.sent) (some seq) st)
  unfolding mark_slot
  mark-IsOwed n seq st g high at (k, few, b) =
      let slot : u16 st.sent ≡ st.sent = omega (arith, g.few, c.1) in
      elim (Bool-cases (seq == u16 st.sent)) [
        | inl e ↦ rw e (k, omega (arith, few), b)
        | inr e ↦
            let near : (seq < st.sent) × (st.replied_or_timeout seq ≡ false) =
              ground (arith, e, slot, high, at) in
            let books =
              answer-IsBalanced st.replied_or_timeout 0 st.sent k k (timeouts st.printed) seq
                (omega arith) near.0 (omega (arith, g.few, c.1)) near.1 b in
            rw e (
              suc k,
              omega (arith, few),
              record {
                below = books.below;
                above = books.above;
                all_received = refl;
                balance = books.balance;
              },
            )
      ]

  take_frame-IsOwed :
      (n : ℕ) (st : State) (pkt : Packet)
      → IsGood config st
      → IsOwed n st
      → IsOwed (if is_arp_reply pkt then suc n else n) (take_frame config pkt st).0
  unfolding take_frame
  take_frame-IsOwed n st pkt g o = elim (Bool-cases (is_arp_reply pkt)) [
    | inr e ↦ rw e o
    | inl e ↦
        let (k, ek, first) =
          match_slot-IsFirst 65537 (u16 st.sent) st.replied_or_timeout st.next_timeout_check_seq
            (omega (arith, g.high, g.few, c.1)) (omega arith) (omega arith) in
        let slot : u16 st.sent ≡ st.sent = omega (arith, g.few, c.1) in
        rw (e, ek)
          (handle-IsOwed config pkt (slot_rtt pkt.recv_time (u16 st.sent) (some k) st) (suc n)
            (mark_slot (u16 st.sent) (some k) st)
            (mark-IsOwed n k st g (omega (arith, first.high, slot))
              (ground (arith, first.found, slot)) o))
  ]

  pub drain-IsOwed :
      (n : ℕ) (st : State) (pkts : List Packet)
      → IsGood config st
      → IsOwed n st
      → IsOwed (n + arp_replies pkts) (drain_arping_replies config st pkts).0
  unfolding drain_arping_replies
  drain-IsOwed n st [] g o = more_arrived n (n + 0) st (omega arith) o
  drain-IsOwed n st (pkt ∷ pkts) g o =
      let st' : State = (take_frame config pkt st).0 in
      let n' : ℕ = if is_arp_reply pkt then suc n else n in
      let owed = take_frame-IsOwed n st pkt g o in
      let good = take_frame-IsGood config pkt st g in
      let end : State = (drain_arping_replies config st' pkts).0 in
      elim (Bool-cases (take_frame config pkt st).1) [
        | inl e ↦ rw e (
            more_arrived (n' + arp_replies pkts) (n + arp_replies (pkt ∷ pkts)) end (ground arith)
              (drain-IsOwed n' st' pkts good owed))
        | inr e ↦ rw e (more_arrived n' (n + arp_replies (pkt ∷ pkts)) st' (ground arith) owed)
      ]
