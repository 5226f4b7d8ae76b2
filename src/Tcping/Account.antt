-- ===== src/Tcping/Account.antt =====
-- The accounts of a run of tcping: every probe is reported, as answered or as timed out. For the rounds of
-- src/tcping.c.
use knetutils.Base.{ℕ, suc, ◌+◌, ◌≤◌, ◌<◌}
use knetutils.Base.{◌≡◌, refl, ap, inl, inr, arith}
use knetutils.Base.{◌&&◌, Option, none, some, List, [], ◌∷◌, ◌++◌, map}
use knetutils.Base.{ltb, leb, if◌then◌else◌, Bool-cases}
use knetutils.Base.{length}
use knetutils.Base.{u16, u32}
use knetutils.Window.{Window, IsScanned}
use knetutils.Window.Balance.{
  IsBalanced, recount, start-IsBalanced, answer-IsBalanced, send-IsBalanced, scan-IsBalanced,
}
use knetutils.Utils.{time_diff_ns}
use mathlib.Core.Path.{subst}
use knetutils.Tcping.State.{Config, Event, replied, timed_out, State, init_tcping_state}
use knetutils.Tcping.Run.{
  Packet, answered_slot, flags_of, take_answer, take_reply, drain_tcping_replies, wants_more,
  send_due, send_tcping_probe, window_of, with_window,
}
use knetutils.Tcping.Settled.{IsCounted, IsGood, take_reply-IsGood}

-- How many reports of each kind there are.
abbrev pub answers : List Event → ℕ
answers [] = 0
answers (replied flags rtt ∷ es) = suc (answers es)
answers (timed_out seq ∷ es) = answers es

abbrev pub timeouts : List Event → ℕ
timeouts [] = 0
timeouts (replied flags rtt ∷ es) = timeouts es
timeouts (timed_out seq ∷ es) = suc (timeouts es)

-- The reports of each kind, together.
record Counts (es : List Event) (r t : ℕ) : Type 0 where
  answers_are : answers es ≡ r
  timeouts_are : timeouts es ≡ t

Counts-append :
    (xs ys : List Event) → Counts (xs ++ ys) (answers xs + answers ys) (timeouts xs + timeouts ys)
Counts-append [] ys = record { answers_are = omega arith; timeouts_are = omega arith }
Counts-append (replied flags rtt ∷ xs) ys =
    let c = Counts-append xs ys in
    record { answers_are = omega (arith, c.answers_are); timeouts_are = c.timeouts_are }
Counts-append (timed_out seq ∷ xs) ys =
    let c = Counts-append xs ys in
    record { answers_are = c.answers_are; timeouts_are = omega (arith, c.timeouts_are) }

Counts-late : (late : List ℕ) → Counts (map timed_out late) 0 (length late)
Counts-late [] = record { answers_are = refl; timeouts_are = refl }
Counts-late (seq ∷ late) =
    let c = Counts-late late in
    record { answers_are = c.answers_are; timeouts_are = ap suc c.timeouts_are }

-- The books of a state with its reports so far; numbers start at 1000.
abbrev pub IsAccounted : State → Type 0
IsAccounted st =
    IsBalanced st.replied_or_timeout 1000 st.seq st.received (answers st.printed)
      (timeouts st.printed)

pub init-IsAccounted : (src_addr : List ℕ) (pid : ℕ) → IsAccounted (init_tcping_state src_addr pid)
unfolding init_tcping_state
init-IsAccounted src_addr pid = start-IsBalanced 1000

-- A packet answers no probe, or one that was sent.
abbrev pub IsOfSent : State → Option ℕ → Type 0
IsOfSent st none = Unit
IsOfSent st (some seq) = (1000 ≤ seq) × (seq < st.seq)

module _ (config : Config) (c : IsCounted config) where
  fits : (st : State) → IsGood config st → st.seq ≤ 65535
  fits st g = omega (arith, g.seq_is, g.few, c.1)

  answer-IsAccounted :
      (flags now : ℕ) (slot : Option ℕ) (st : State)
      → IsGood config st
      → IsOfSent st slot
      → IsAccounted st
      → IsAccounted (take_answer flags now slot st)
  unfolding take_answer
  answer-IsAccounted flags now none st g sent a = a
  answer-IsAccounted flags now (some seq) st g sent a =
      let rtt =
        if ltb 0 (st.sent_times seq) && leb (st.sent_times seq) now
        then time_diff_ns (st.sent_times seq) now
        else 0 in
      let counts = Counts-append st.printed (replied flags rtt ∷ []) in
      elim (Bool-cases (st.replied_or_timeout seq)) [
        | inl e ↦ rw e a
        | inr e ↦
            let books =
              answer-IsBalanced st.replied_or_timeout 1000 st.seq st.received (answers st.printed)
                (timeouts st.printed) seq sent.0 sent.1 (fits st g) e a in
            rw e (
              recount books (omega (arith, counts.answers_are))
                (omega (arith, counts.timeouts_are)))
      ]

  take_reply-IsAccounted :
      (st : State) (pkt : Packet)
      → IsGood config st
      → IsOfSent st (answered_slot config st pkt)
      → IsAccounted st
      → IsAccounted (take_reply config st pkt)
  unfolding take_reply
  take_reply-IsAccounted st pkt g sent a =
      answer-IsAccounted (flags_of config pkt) pkt.recv_time (answered_slot config st pkt) st g sent
        a

  pub send_due-IsAccounted :
      (now next : ℕ) (st : State)
      → IsGood config st
      → IsAccounted st
      → IsAccounted (send_due config now (st, next)).0
  unfolding send_due send_tcping_probe
  send_due-IsAccounted now next st g a = elim (Bool-cases (wants_more config st && leb next now)) [
    | inr e ↦ rw e a
    | inl e ↦
        let room : st.sent < config.count = ground (arith, c.0) in
        let next_seq : u32 (st.seq + 1) ≡ suc st.seq = omega (arith, g.seq_is, room, c.1) in
        let slot : u16 st.seq ≡ st.seq = omega (arith, fits st g) in
        rw (e, next_seq, slot)
          (send-IsBalanced st.replied_or_timeout 1000 st.seq st.received (answers st.printed)
            (timeouts st.printed) a)
  ]

  pub scanned-IsAccounted :
      (now : ℕ) (st : State) (v : Window)
      → IsGood config st
      → IsScanned now config.timeout_ns (u16 st.seq) (window_of st) v
      → IsAccounted st
      → IsAccounted (with_window st v)
  scanned-IsAccounted now st v g r a =
      let counts = Counts-append st.printed (map timed_out v.late) in
      let late = Counts-late v.late in
      let slot : u16 st.seq ≡ st.seq = omega (arith, fits st g) in
      let books =
        scan-IsBalanced st.replied_or_timeout 1000 st.seq st.received (answers st.printed)
          (timeouts st.printed) now config.timeout_ns st.sent_times st.next_timeout_check_seq v
          g.low g.high (fits st g)
          (subst (λ stop. IsScanned now config.timeout_ns stop (window_of st) v) slot r) a in
      recount books (omega (arith, counts.answers_are, late.answers_are))
        (omega (arith, counts.timeouts_are, late.timeouts_are))

-- No packet answers a probe that was not sent yet.
abbrev pub AllOfSent : Config → State → List Packet → Type 0
AllOfSent config st [] = Unit
AllOfSent config st (pkt ∷ pkts) =
    IsOfSent st (answered_slot config st pkt) × AllOfSent config (take_reply config st pkt) pkts

pub drain-IsAccounted :
    (config : Config) (st : State) (pkts : List Packet)
    → IsCounted config
    → IsGood config st
    → AllOfSent config st pkts
    → IsAccounted st
    → IsAccounted (drain_tcping_replies config st pkts)
unfolding drain_tcping_replies
drain-IsAccounted config st [] c g sent a = a
drain-IsAccounted config st (pkt ∷ pkts) c g sent a =
    drain-IsAccounted config (take_reply config st pkt) pkts c (take_reply-IsGood config st pkt g)
      sent.1 (take_reply-IsAccounted config c st pkt g sent.0 a)
