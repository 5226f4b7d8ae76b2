-- ===== src/Arping/Settled.antt =====
-- What the timeout loop of arping needs and keeps, for the rounds of src/arping.c.
use knetutils.Base.{ℕ, suc, ◌+◌, ◌-◌, ◌≤◌, ◌<◌}
use knetutils.Base.{◌≡◌, inl, inr, arith}
use knetutils.Base.{true, Option, none, some, List, [], ◌∷◌}
use knetutils.Base.{Bool-cases}
use knetutils.Base.{u16, u32}
use mathlib.Core.Path.{subst}
use native.Mathlib.Decide.{dec_le}
use knetutils.Window.{Window, IsScanned}
use knetutils.Arping.Options.{Config}
use knetutils.Arping.Frame.{
  State, Packet, init_arping_state, is_arp_reply, match_slot, mark_slot, slot_rtt, handle_arp_reply,
  take_frame, drain_arping_replies,
}
use knetutils.Arping.Run.{
  Round, stuck, refused, leaves, polls, noted, wants_more, window_of, with_window, close_round,
  all_settled,
}

-- A count that keeps the sequence numbers, which start at 0, in a u_short.
abbrev pub IsCounted : Config → Type 0
IsCounted config = (1 ≤ config.count) × (config.count ≤ 65535)

-- What holds between the rounds: numbers are given one by one, no more than the count, and every
-- probe before the one that the timeout loop looks at is answered or has timed out.
pub record IsGood (config : Config) (st : State) : Type 0 where
  pub few : st.sent ≤ config.count
  pub high : st.next_timeout_check_seq ≤ st.sent
  pub passed : (j : ℕ) → j < st.next_timeout_check_seq → st.replied_or_timeout j ≡ true

pub init-IsGood : (config : Config) → IsGood config init_arping_state
init-IsGood config = record {
  few = omega arith;
  high = omega arith;
  passed = λ j b. absurd (omega arith);
}

mark_slot-IsGood :
    (config : Config) (stop : ℕ) (slot : Option ℕ) (st : State)
    → IsGood config st
    → IsGood config (mark_slot stop slot st)
unfolding mark_slot
mark_slot-IsGood config stop none st g = g
mark_slot-IsGood config stop (some seq) st g = record {
  few = ground (arith, g.few);
  high = ground (arith, g.high);
  passed = λ j b. ground (arith, g.passed j);
}

handle-IsGood :
    (config : Config) (pkt : Packet) (rtt : ℕ) (st : State)
    → IsGood config st
    → IsGood config (handle_arp_reply config pkt rtt st).0
unfolding handle_arp_reply
handle-IsGood config pkt rtt st g = record {
  few = ground (arith, g.few);
  high = ground (arith, g.high);
  passed = λ j b. ground (arith, g.passed j);
}

pub take_frame-IsGood :
    (config : Config) (pkt : Packet) (st : State)
    → IsGood config st
    → IsGood config (take_frame config pkt st).0
unfolding take_frame
take_frame-IsGood config pkt st g =
    let slot = match_slot 65537 (u16 st.sent) st.replied_or_timeout st.next_timeout_check_seq in
    elim (Bool-cases (is_arp_reply pkt)) [
      | inl e ↦ rw e (
          handle-IsGood config pkt (slot_rtt pkt.recv_time (u16 st.sent) slot st)
            (mark_slot (u16 st.sent) slot st) (mark_slot-IsGood config (u16 st.sent) slot st g))
      | inr e ↦ rw e g
    ]

pub drain-IsGood :
    (config : Config) (st : State) (pkts : List Packet)
    → IsGood config st
    → IsGood config (drain_arping_replies config st pkts).0
unfolding drain_arping_replies
drain-IsGood config st [] g = g
drain-IsGood config st (pkt ∷ pkts) g =
    let good = take_frame-IsGood config pkt st g in
    elim (Bool-cases (take_frame config pkt st).1) [
      | inl e ↦ rw e (drain-IsGood config (take_frame config pkt st).0 pkts good)
      | inr e ↦ rw e good
    ]

pub sent-IsGood :
    (config : Config) (now : ℕ) (st : State)
    → IsCounted config
    → IsGood config st
    → wants_more config st ≡ true
    → IsGood config (record (noted now st) { sent = u32 (st.sent + 1) })
sent-IsGood config now st c g w = record {
  few = ground (arith, g.few);
  high = ground (arith, g.high, g.few);
  passed = λ j b. ground (arith, g.passed j, g.high, g.few);
}

pub scanned-IsGood :
    (config : Config) (now : ℕ) (st : State) (v : Window)
    → IsCounted config
    → IsGood config st
    → IsScanned now config.timeout_ns (u16 st.sent) (window_of st) v
    → IsGood config (with_window st v)
scanned-IsGood config now st v c g r =
    let order : (st.next_timeout_check_seq ≤ v.next) × (v.next ≤ st.sent) =
      omega (arith, g.few, g.high, r.nearer, r.next_small) in
    record {
      few = g.few;
      high = order.1;
      passed = λ j b. elim (dec_le (suc j) st.next_timeout_check_seq) [
        | yes h ↦ r.kept j (g.passed j h)
        | no h ↦
            subst (λ i. v.replied_or_timeout i ≡ true) (omega (arith, g.few))
              (r.passed (j - st.next_timeout_check_seq) (omega (arith, g.few, g.high)))
      ];
    }

-- Every probe that the count asks for was sent, and is answered or has timed out.
pub record IsComplete (config : Config) (st : State) : Type 0 where
  pub all_sent : st.sent ≡ config.count
  pub settled : (j : ℕ) → j < config.count → st.replied_or_timeout j ≡ true

abbrev pub RoundOk : Config → Round → Type 0
RoundOk config stuck = ⊥
RoundOk config (refused st) = st.sent ≤ config.count
RoundOk config (leaves st) = IsComplete config st
RoundOk config (polls st next timeout_ms) = IsGood config st

pub close_round-RoundOk :
    (config : Config) (now next : ℕ) (st : State) (v : Window)
    → IsCounted config
    → IsGood config (with_window st v)
    → RoundOk config (close_round config now (st, next) (some v))
unfolding close_round
close_round-RoundOk config now next st v c g =
    elim (Bool-cases (all_settled config (with_window st v))) [
      | inl e ↦
          let full : (config.count ≤ st.sent) × (v.next ≡ u16 st.sent) = ground arith in
          rw e (record {
            all_sent = omega (arith, g.few);
            settled = λ j b. g.passed j (omega (arith, g.few));
          })
      | inr e ↦ rw e g
    ]
