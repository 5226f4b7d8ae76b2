-- ===== src/Ping/Account.antt =====
-- The accounts of a run of ping: every request is reported, as a reply or as timed out. For the rounds of
-- src/ping.c.
use knetutils.Base.{ℕ, suc, ◌+◌, ◌≤◌, ◌<◌}
use knetutils.Base.{◌≡◌, refl, ap, inl, inr, arith}
use knetutils.Base.{Bool, ◌&&◌, Option, none, some, List, [], ◌∷◌, ◌++◌, map}
use knetutils.Base.{leb, Bool-cases}
use knetutils.Base.{length}
use knetutils.Base.{u16}
use knetutils.Window.{Window, IsScanned}
use knetutils.Window.Balance.{
  IsBalanced, recount, start-IsBalanced, answer-IsBalanced, send-IsBalanced, scan-IsBalanced,
}
use knetutils.Ping.State.{Config, Event, requested, replied, timed_out, State, update_ping_stats}
use knetutils.Ping.Packet.{
  Packet, init_ping_state, send_ping_request, answered_seq, take_answer, take_reply,
  drain_ping_replies, rtt_of, reply_event,
}
use knetutils.Ping.Run.{wants_more, send_due, window_of, with_window}
use knetutils.Ping.Settled.{IsCounted, IsGood, take_reply-IsGood}

-- How many reports of each kind there are.
abbrev pub requests : List Event → ℕ
requests [] = 0
requests (requested ∷ es) = suc (requests es)
requests (replied rtt len name seq ttl ∷ es) = requests es
requests (timed_out seq ∷ es) = requests es

abbrev pub replies : List Event → ℕ
replies [] = 0
replies (requested ∷ es) = replies es
replies (replied rtt len name seq ttl ∷ es) = suc (replies es)
replies (timed_out seq ∷ es) = replies es

abbrev pub timeouts : List Event → ℕ
timeouts [] = 0
timeouts (requested ∷ es) = timeouts es
timeouts (replied rtt len name seq ttl ∷ es) = timeouts es
timeouts (timed_out seq ∷ es) = suc (timeouts es)

-- The reports of each kind, together.
record Counts (es : List Event) (q r t : ℕ) : Type 0 where
  requests_are : requests es ≡ q
  replies_are : replies es ≡ r
  timeouts_are : timeouts es ≡ t

Counts-append :
    (xs ys : List Event)
    → Counts
        (xs ++ ys)
        (requests xs + requests ys)
        (replies xs + replies ys)
        (timeouts xs + timeouts ys)
Counts-append [] ys = record {
  requests_are = omega arith;
  replies_are = omega arith;
  timeouts_are = omega arith;
}
Counts-append (requested ∷ xs) ys =
    let c = Counts-append xs ys in
    record {
      requests_are = omega (arith, c.requests_are);
      replies_are = c.replies_are;
      timeouts_are = c.timeouts_are;
    }
Counts-append (replied rtt len name seq ttl ∷ xs) ys =
    let c = Counts-append xs ys in
    record {
      requests_are = c.requests_are;
      replies_are = omega (arith, c.replies_are);
      timeouts_are = c.timeouts_are;
    }
Counts-append (timed_out seq ∷ xs) ys =
    let c = Counts-append xs ys in
    record {
      requests_are = c.requests_are;
      replies_are = c.replies_are;
      timeouts_are = omega (arith, c.timeouts_are);
    }

Counts-late : (late : List ℕ) → Counts (map timed_out late) 0 0 (length late)
Counts-late [] = record { requests_are = refl; replies_are = refl; timeouts_are = refl }
Counts-late (seq ∷ late) =
    let c = Counts-late late in
    record {
      requests_are = c.requests_are;
      replies_are = c.replies_are;
      timeouts_are = ap suc c.timeouts_are;
    }

-- The books of a state with the reports given.
pub record IsKept (st : State) (printed : List Event) : Type 0 where
  pub all_sent : st.sent ≡ requests printed
  pub books :
      IsBalanced st.replied_or_timeout 1 st.seq st.received (replies printed) (timeouts printed)

-- The numbers of the state agree with the reports so far.
abbrev pub IsAccounted : State → Type 0
IsAccounted st = IsKept st st.printed

pub init-IsAccounted :
    (config : Config) (pid start_time : ℕ) (is_dgram : Bool)
    → IsAccounted (init_ping_state config pid start_time is_dgram)
unfolding init_ping_state
init-IsAccounted config pid start_time is_dgram = record {
  all_sent = refl;
  books = start-IsBalanced 1;
}

-- A packet answers no request, or one that was sent.
abbrev pub IsOfSent : State → Option ℕ → Type 0
IsOfSent st none = Unit
IsOfSent st (some seq) = (1 ≤ seq) × (seq < st.seq)

module _ (config : Config) (c : IsCounted config) where
  fits : (st : State) → IsGood config st → st.seq ≤ 65535
  fits st g = omega (arith, g.seq_is, g.few, c.1)

  answer-IsAccounted :
      (shown : ℕ → Event) (rtt : ℕ) (slot : Option ℕ) (st : State)
      → ((seq : ℕ) → Counts (shown seq ∷ []) 0 1 0)
      → IsGood config st
      → IsOfSent st slot
      → IsAccounted st
      → IsAccounted (take_answer shown rtt slot st)
  unfolding take_answer update_ping_stats
  answer-IsAccounted shown rtt none st k g sent a = a
  answer-IsAccounted shown rtt (some seq) st k g sent a =
      elim (Bool-cases (st.replied_or_timeout seq)) [
        | inl e ↦ rw e a
        | inr e ↦
            let counts = Counts-append st.printed (shown seq ∷ []) in
            let books =
              answer-IsBalanced st.replied_or_timeout 1 st.seq st.received (replies st.printed)
                (timeouts st.printed) seq sent.0 sent.1 (fits st g) e a.books in
            rw e (record {
              all_sent = omega (arith, a.all_sent, counts.requests_are, (k seq).requests_are);
              books =
                  recount books (omega (arith, counts.replies_are, (k seq).replies_are))
                    (omega (arith, counts.timeouts_are, (k seq).timeouts_are));
            })
      ]

  take_reply-IsAccounted :
      (st : State) (pkt : Packet)
      → IsGood config st
      → IsOfSent st (answered_seq config st pkt)
      → IsAccounted st
      → IsAccounted (take_reply config st pkt)
  unfolding take_reply
  take_reply-IsAccounted st pkt g sent a =
      let seq = answered_seq config st pkt in
      let rtt = rtt_of config st pkt seq in
      answer-IsAccounted (reply_event config st pkt rtt) rtt seq st
        (λ seq. record { requests_are = refl; replies_are = refl; timeouts_are = refl }) g sent a

  pub send_due-IsAccounted :
      (now stamp next : ℕ) (st : State)
      → IsGood config st
      → IsAccounted st
      → IsAccounted (send_due config now stamp (st, next)).0
  unfolding send_due send_ping_request
  send_due-IsAccounted now stamp next st g a =
      elim (Bool-cases (wants_more config st && leb next now)) [
        | inr e ↦ rw e a
        | inl e ↦
            let counts = Counts-append st.printed (requested ∷ []) in
            let room : st.sent < config.count = ground (arith, c.0) in
            let next_seq : u16 (st.seq + 1) ≡ suc st.seq = omega (arith, g.seq_is, room, c.1) in
            let books =
              send-IsBalanced st.replied_or_timeout 1 st.seq st.received (replies st.printed)
                (timeouts st.printed) a.books in
            rw (e, next_seq)
              (record {
                all_sent = omega (arith, a.all_sent, counts.requests_are, room, c.1);
                books =
                    recount books (omega (arith, counts.replies_are))
                      (omega (arith, counts.timeouts_are));
              })
      ]

  pub scanned-IsAccounted :
      (now : ℕ) (st : State) (v : Window)
      → IsGood config st
      → IsScanned now config.timeout_ns st.seq (window_of st) v
      → IsAccounted st
      → IsAccounted (with_window st v)
  scanned-IsAccounted now st v g r a =
      let counts = Counts-append st.printed (map timed_out v.late) in
      let late = Counts-late v.late in
      let books =
        scan-IsBalanced st.replied_or_timeout 1 st.seq st.received (replies st.printed)
          (timeouts st.printed) now config.timeout_ns st.sent_times st.next_timeout_check_seq v
          g.low g.high (fits st g) r a.books in
      record {
        all_sent = omega (arith, a.all_sent, counts.requests_are, late.requests_are);
        books =
            recount books (omega (arith, counts.replies_are, late.replies_are))
              (omega (arith, counts.timeouts_are, late.timeouts_are));
      }

-- No packet answers a request that was not sent yet.
abbrev pub AllOfSent : Config → State → List Packet → Type 0
AllOfSent config st [] = Unit
AllOfSent config st (pkt ∷ pkts) =
    IsOfSent st (answered_seq config st pkt) × AllOfSent config (take_reply config st pkt) pkts

pub drain-IsAccounted :
    (config : Config) (st : State) (pkts : List Packet)
    → IsCounted config
    → IsGood config st
    → AllOfSent config st pkts
    → IsAccounted st
    → IsAccounted (drain_ping_replies config st pkts)
unfolding drain_ping_replies
drain-IsAccounted config st [] c g sent a = a
drain-IsAccounted config st (pkt ∷ pkts) c g sent a =
    drain-IsAccounted config (take_reply config st pkt) pkts c (take_reply-IsGood config st pkt g)
      sent.1 (take_reply-IsAccounted config c st pkt g sent.0 a)
