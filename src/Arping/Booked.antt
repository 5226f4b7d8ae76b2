-- ===== src/Arping/Booked.antt =====
-- What the rounds of arping keep, with what the timeout loop needs; so the accounts. For the rounds of
-- src/arping.c.
use knetutils.Base.{ℕ, suc, ◌+◌, ◌≤◌, ◌<◌}
use knetutils.Base.{◌≡◌, inl, inr, arith}
use knetutils.Base.{Bool, true, false, ◌&&◌, Option, none, some}
use knetutils.Base.{leb, Bool-cases}
use knetutils.Base.{u16, u32}
use knetutils.Window.{Window, IsScanned, scan-IsScanned}
use knetutils.Window.Balance.{clear-IsBalanced, send-IsBalanced}
use knetutils.Arping.Options.{Config}
use knetutils.Arping.Frame.{State, send_arping_probe}
use knetutils.Arping.Run.{
  Tick, Round, stuck, refused, leaves, polls, noted, wants_more, after_send, send_due, window_of,
  with_window, all_settled, close_round, scan_round, round,
}
use knetutils.Arping.Settled.{
  IsCounted, IsGood, IsComplete, sent-IsGood, scanned-IsGood, close_round-RoundOk,
}
use knetutils.Arping.Account.{replies, timeouts, HasBooks, IsAccounted, scanned-IsAccounted}

-- An invariant that clearing the next slot, sending and the timeout loop keep.
pub record IsKept (config : Config) (holds : State → Type 0) : Type 0 where
  pub clears : (now : ℕ) (st : State) → IsGood config st → holds st → holds (noted now st)
  pub sends :
      (now : ℕ) (st : State)
      → IsGood config st
      → wants_more config st ≡ true
      → holds st
      → holds (record (noted now st) { sent = u32 (st.sent + 1) })
  pub scans :
      (now : ℕ) (st : State) (v : Window)
      → IsGood config st
      → IsScanned now config.timeout_ns (u16 st.sent) (window_of st) v
      → holds st
      → holds (with_window st v)

module _ (config : Config) (holds : State → Type 0) where
  pub record IsBooked (st : State) : Type 0 where
    pub good : IsGood config st
    pub accounts : holds st

  -- Each round ends with its books in order.
  abbrev pub RoundBooked : Round → Type 0
  RoundBooked stuck = ⊥
  RoundBooked (refused st) = (st.sent ≤ config.count) × holds st
  RoundBooked (leaves st) = IsComplete config st × IsBooked st
  RoundBooked (polls st next timeout_ms) = IsBooked st

  -- What a sending leaves, if the kernel took the frame.
  SentBooked : Option (State × ℕ) → Type 0
  SentBooked none = Unit
  SentBooked (some (st, next)) = IsBooked st

  module _ (c : IsCounted config) (kept : IsKept config holds) where
    send_due-SentBooked :
        (now next : ℕ) (taken : Bool) (st : State)
        → IsBooked st
        → SentBooked (send_due config now taken (st, next))
    unfolding send_due after_send send_arping_probe SentBooked
    send_due-SentBooked now next true st b =
        elim (Bool-cases (wants_more config st && leb next now)) [
          | inl e ↦
              let wants : wants_more config st ≡ true = ground arith in
              rw e (record {
                good = sent-IsGood config now st c b.good wants;
                accounts = kept.sends now st b.good wants b.accounts;
              })
          | inr e ↦ rw e b
        ]
    send_due-SentBooked now next false st b =
        elim (Bool-cases (wants_more config st && leb next now)) [
          | inl e ↦ rw e tt
          | inr e ↦ rw e b
        ]

    close_round-RoundBooked :
        (now next : ℕ) (st : State) (v : Window)
        → IsBooked (with_window st v)
        → RoundBooked (close_round config now (st, next) (some v))
    unfolding close_round
    close_round-RoundBooked now next st v b =
        let ok = close_round-RoundOk config now next st v c b.good in
        elim (Bool-cases (all_settled config (with_window st v))) [
          | inl e ↦ rw e ((rw e at ok), b)
          | inr e ↦ rw e b
        ]

    scan_round-RoundBooked :
        (later : ℕ) (st : State) (sent : Option (State × ℕ))
        → (st.sent ≤ config.count) × holds st
        → SentBooked sent
        → RoundBooked (scan_round config later st sent)
    unfolding scan_round SentBooked
    scan_round-RoundBooked later st none few b = few
    scan_round-RoundBooked later st (some (st', next)) few b =
        let (v, e, r) =
          scan-IsScanned 65537 later config.timeout_ns (u16 st'.sent) (window_of st')
            (omega (arith, b.good.high, b.good.few, c.1)) (omega arith) (omega arith) in
        rw e (
          close_round-RoundBooked later next st' v (record {
            good = scanned-IsGood config later st' v c b.good r;
            accounts = kept.scans later st' v b.good r b.accounts;
          }))

    pub round-RoundBooked :
        (st : State) (next : ℕ) (tick : Tick)
        → IsBooked st
        → RoundBooked (round config st next tick)
    unfolding round
    round-RoundBooked st next tick b =
        scan_round-RoundBooked tick.later (noted tick.now st)
          (send_due config tick.now tick.taken (st, next))
          (b.good.few, kept.clears tick.now st b.good b.accounts)
          (send_due-SentBooked tick.now next tick.taken st b)

module _ (config : Config) (c : IsCounted config) (received reported : ℕ) where
  pub noted-HasBooks :
      (now : ℕ) (st : State)
      → IsGood config st
      → HasBooks received reported st
      → HasBooks received reported (noted now st)
  noted-HasBooks now st g b =
      let slot : u16 st.sent ≡ st.sent = omega (arith, g.few, c.1) in
      rw slot
        (clear-IsBalanced st.replied_or_timeout 0 st.sent received reported (timeouts st.printed) b)

  pub sent-HasBooks :
      (now : ℕ) (st : State)
      → IsGood config st
      → wants_more config st ≡ true
      → HasBooks received reported st
      → HasBooks received reported (record (noted now st) { sent = u32 (st.sent + 1) })
  sent-HasBooks now st g wants b =
      let room : st.sent < config.count = ground (arith, c.0) in
      let next : u32 (st.sent + 1) ≡ suc st.sent = omega (arith, room, c.1) in
      let slot : u16 st.sent ≡ st.sent = omega (arith, room, c.1) in
      rw (next, slot)
        (send-IsBalanced st.replied_or_timeout 0 st.sent received reported (timeouts st.printed) b)

pub IsAccounted-IsKept : (config : Config) → IsCounted config → IsKept config IsAccounted
IsAccounted-IsKept config c = record {
  clears = λ now st. noted-HasBooks config c st.received (replies st.printed) now st;
  sends = λ now st. sent-HasBooks config c st.received (replies st.printed) now st;
  scans = scanned-IsAccounted config c;
}
