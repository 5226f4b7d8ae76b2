-- ===== src/Arping/Account.antt =====
-- The accounts of a run of arping: every probe is reported, as answered or as timed out. For the rounds of
-- src/arping.c.
use knetutils.Base.{ℕ, zero, suc, ◌+◌, ◌-◌, ◌≤◌, ◌<◌}
use knetutils.Base.{◌≡◌, refl, sym, ap, ◌⊎◌, inl, inr, arith}
use knetutils.Base.{Bool, true, false, some, List, [], ◌∷◌, ◌++◌, map}
use knetutils.Base.{◌==◌, ◌!=◌, Bool-cases}
use knetutils.Base.{length, take, drop}
use knetutils.Base.{u16}
use knetutils.Base.{le32}
use knetutils.Window.{Window, IsScanned}
use knetutils.Window.Balance.{
  IsBalanced, recount, start-IsBalanced, answer-IsBalanced, scan-IsBalanced,
}
use native.Mathlib.Decide.{ℕ_discrete}
use mathlib.Core.Path.{subst}
use knetutils.Arping.Options.{Config}
use knetutils.Arping.Frame.{
  Event, replied, timed_out, State, Packet, init_arping_state, is_arp_reply, match_slot, mark_slot,
  slot_rtt, handle_arp_reply, take_frame, drain_arping_replies,
}
use knetutils.Arping.Run.{window_of, with_window}
use knetutils.Arping.Settled.{IsCounted, IsGood, take_frame-IsGood}

-- How many reports of each kind there are.
abbrev pub replies : List Event → ℕ
replies [] = 0
replies (replied mac rtt ∷ es) = suc (replies es)
replies (timed_out seq ∷ es) = replies es

abbrev pub timeouts : List Event → ℕ
timeouts [] = 0
timeouts (replied mac rtt ∷ es) = timeouts es
timeouts (timed_out seq ∷ es) = suc (timeouts es)

-- The reports of each kind, together.
pub record Counts (es : List Event) (r t : ℕ) : Type 0 where
  pub replies_are : replies es ≡ r
  pub timeouts_are : timeouts es ≡ t

pub Counts-append :
    (xs ys : List Event) → Counts (xs ++ ys) (replies xs + replies ys) (timeouts xs + timeouts ys)
Counts-append [] ys = record { replies_are = omega arith; timeouts_are = omega arith }
Counts-append (replied mac rtt ∷ xs) ys =
    let c = Counts-append xs ys in
    record { replies_are = omega (arith, c.replies_are); timeouts_are = c.timeouts_are }
Counts-append (timed_out seq ∷ xs) ys =
    let c = Counts-append xs ys in
    record { replies_are = c.replies_are; timeouts_are = omega (arith, c.timeouts_are) }

Counts-late : (late : List ℕ) → Counts (map timed_out late) 0 (length late)
Counts-late [] = record { replies_are = refl; timeouts_are = refl }
Counts-late (seq ∷ late) =
    let c = Counts-late late in
    record { replies_are = c.replies_are; timeouts_are = ap suc c.timeouts_are }

-- What the loop over the slots finds: the first slot from `seq` on that is not settled, or `stop`.
pub record IsFirst (settled : ℕ → Bool) (seq stop k : ℕ) : Type 0 where
  pub low : seq ≤ k
  pub high : k ≤ stop
  pub found : (k ≡ stop) ⊎ (settled k ≡ false)
  pub passed : (j : ℕ) → seq ≤ j → j < k → settled j ≡ true

pub match_slot-IsFirst :
    (fuel stop : ℕ) (settled : ℕ → Bool) (seq : ℕ)
    → seq ≤ stop
    → stop < 65536
    → stop - seq < fuel
    → (k : ℕ) × (match_slot fuel stop settled seq ≡ some k) × IsFirst settled seq stop k
unfolding match_slot
match_slot-IsFirst zero stop settled seq a b h = absurd (omega arith)
match_slot-IsFirst (suc fuel) stop settled seq a b h = elim (ℕ_discrete seq stop) [
  | yes e ↦
      let here : IsFirst settled seq stop seq = record {
        low = omega arith;
        high = a;
        found = inl e;
        passed = λ j p q. absurd (omega arith);
      } in
      (seq, ground (arith, e), here)
  | no ne ↦ elim (Bool-cases (settled seq)) [
    | inl done ↦
        let next : u16 (seq + 1) ≡ suc seq = omega arith in
        let (k, e, r) =
          match_slot-IsFirst fuel stop settled (u16 (seq + 1)) (omega arith) b (omega arith) in
        (
          k,
          ground (arith, e),
          record {
            low = omega (arith, r.low);
            high = r.high;
            found = r.found;
            passed = λ j p q. elim (ℕ_discrete j seq) [
              | yes same ↦ subst (λ i. settled i ≡ true) (sym same) done
              | no more ↦ r.passed j (omega arith) q
            ];
          },
        )
    | inr waits ↦
        let here : IsFirst settled seq stop seq = record {
          low = omega arith;
          high = a;
          found = inr waits;
          passed = λ j p q. absurd (omega arith);
        } in
        (seq, ground (arith, waits, ne), here)
  ]
]

-- The books of a state with its timeouts so far, for so many replies; slots start at 0.
abbrev pub HasBooks : ℕ → ℕ → State → Type 0
HasBooks received reported st =
    IsBalanced st.replied_or_timeout 0 st.sent received reported (timeouts st.printed)

-- The books of a state with all its reports.
abbrev pub IsAccounted : State → Type 0
IsAccounted st = HasBooks st.received (replies st.printed) st

pub init-IsAccounted : IsAccounted init_arping_state
init-IsAccounted = start-IsBalanced 0

-- An ARP reply is the target's, and comes while a probe is awaited.
abbrev pub IsAwaited : Config → State → Packet → Type 0
IsAwaited config st pkt =
    is_arp_reply pkt ≡ true
    → (le32 pkt.buf 28 ≡ config.target_ip)
      × ((j : ℕ) × (st.next_timeout_check_seq ≤ j)
          × (j < st.sent)
          × (st.replied_or_timeout j ≡ false))

module _ (config : Config) (c : IsCounted config) where
  -- A reply of the target that settles a slot.
  reply-IsAccounted :
      (pkt : Packet) (rtt seq : ℕ) (st : State)
      → le32 pkt.buf 28 ≡ config.target_ip
      → IsGood config st
      → seq < st.sent
      → st.replied_or_timeout seq ≡ false
      → IsAccounted st
      → IsAccounted (handle_arp_reply config pkt rtt (mark_slot (u16 st.sent) (some seq) st)).0
  unfolding handle_arp_reply mark_slot
  reply-IsAccounted pkt rtt seq st from g high waits a =
      let counts = Counts-append st.printed (replied (take 6 (drop 22 pkt.buf)) rtt ∷ []) in
      let other : (seq == u16 st.sent) ≡ false = ground (arith, g.few, c.1) in
      let target : (le32 pkt.buf 28 != config.target_ip) ≡ false = ground (arith, from) in
      let books =
        answer-IsBalanced st.replied_or_timeout 0 st.sent st.received (replies st.printed)
          (timeouts st.printed) seq (omega arith) high (omega (arith, g.few, c.1)) waits a in
      rw (other, target)
        (recount books (omega (arith, counts.replies_are)) (omega (arith, counts.timeouts_are)))

  take_frame-IsAccounted :
      (st : State) (pkt : Packet)
      → IsGood config st
      → IsAwaited config st pkt
      → IsAccounted st
      → IsAccounted (take_frame config pkt st).0
  unfolding take_frame
  take_frame-IsAccounted st pkt g awaited a = elim (Bool-cases (is_arp_reply pkt)) [
    | inr e ↦ rw e a
    | inl e ↦
        let (from, (j, low, high, waits)) = awaited e in
        let (k, ek, first) =
          match_slot-IsFirst 65537 (u16 st.sent) st.replied_or_timeout st.next_timeout_check_seq
            (omega (arith, g.high, g.few, c.1)) (omega arith) (omega arith) in
        let near : (k < st.sent) × (st.replied_or_timeout k ≡ false) =
          ground (arith, first.passed j low, first.found, first.high, waits, g.few, c.1) in
        rw (e, ek)
          (reply-IsAccounted pkt (slot_rtt pkt.recv_time (u16 st.sent) (some k) st) k st from g
            near.0 near.1 a)
  ]

  pub scanned-HasBooks :
      (received reported now : ℕ) (st : State) (v : Window)
      → IsGood config st
      → IsScanned now config.timeout_ns (u16 st.sent) (window_of st) v
      → HasBooks received reported st
      → HasBooks received reported (with_window st v)
  scanned-HasBooks received reported now st v g r a =
      let counts = Counts-append st.printed (map timed_out v.late) in
      let late = Counts-late v.late in
      let fits : st.sent ≤ 65535 = omega (arith, g.few, c.1) in
      let slot : u16 st.sent ≡ st.sent = omega (arith, fits) in
      let books =
        scan-IsBalanced st.replied_or_timeout 0 st.sent received reported (timeouts st.printed) now
          config.timeout_ns st.sent_times st.next_timeout_check_seq v (omega arith) g.high fits
          (subst (λ stop. IsScanned now config.timeout_ns stop (window_of st) v) slot r) a in
      recount books refl (omega (arith, counts.timeouts_are, late.timeouts_are))

  pub scanned-IsAccounted :
      (now : ℕ) (st : State) (v : Window)
      → IsGood config st
      → IsScanned now config.timeout_ns (u16 st.sent) (window_of st) v
      → IsAccounted st
      → IsAccounted (with_window st v)
  scanned-IsAccounted now st v g r a =
      let counts = Counts-append st.printed (map timed_out v.late) in
      let late = Counts-late v.late in
      recount (scanned-HasBooks st.received (replies st.printed) now st v g r a)
        (omega (arith, counts.replies_are, late.replies_are)) refl

-- Of the frames that are drained, each ARP reply is the target's and comes while a probe is awaited.
abbrev pub AllAwaited : Config → State → List Packet → Type 0
AllAwaited config st [] = Unit
AllAwaited config st (pkt ∷ pkts) =
    IsAwaited config st pkt × AllAwaited config (take_frame config pkt st).0 pkts

pub drain-IsAccounted :
    (config : Config) (st : State) (pkts : List Packet)
    → IsCounted config
    → IsGood config st
    → AllAwaited config st pkts
    → IsAccounted st
    → IsAccounted (drain_arping_replies config st pkts).0
unfolding drain_arping_replies
drain-IsAccounted config st [] c g awaited a = a
drain-IsAccounted config st (pkt ∷ pkts) c g awaited a =
    let good = take_frame-IsGood config pkt st g in
    let accounts = take_frame-IsAccounted config c st pkt g awaited.0 a in
    elim (Bool-cases (take_frame config pkt st).1) [
      | inl e ↦
          rw e
            (drain-IsAccounted config (take_frame config pkt st).0 pkts c good awaited.1 accounts)
      | inr e ↦ rw e accounts
    ]
