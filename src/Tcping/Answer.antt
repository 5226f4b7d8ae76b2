-- ===== src/Tcping/Answer.antt =====
-- How `drain_tcping_replies` of src/tcping.c treats an answer that comes twice.
use knetutils.Base.{ℕ}
use knetutils.Base.{◌≡◌, refl, ap, ◌∙◌, inl, inr, arith}
use knetutils.Base.{true, Option, none, some}
use knetutils.Base.{Bool-cases}
use knetutils.Tcping.State.{State, Config}
use knetutils.Tcping.Run.{Packet, flags_of, answered_slot, take_answer, take_reply}

take_answer_settled :
    (flags now seq : ℕ) (st : State)
    → st.replied_or_timeout seq ≡ true
    → take_answer flags now (some seq) st ≡ st
unfolding take_answer
take_answer_settled flags now seq st e = rw e refl

take_answer_settles :
    (flags now seq : ℕ) (st : State)
    → (take_answer flags now (some seq) st).replied_or_timeout seq ≡ true
unfolding take_answer
take_answer_settles flags now seq st = ground arith

take_answer_twice :
    (flags now later : ℕ) (slot : Option ℕ) (st : State)
    → take_answer flags later slot (take_answer flags now slot st) ≡ take_answer flags now slot st
unfolding take_answer
take_answer_twice flags now later none st = refl
take_answer_twice flags now later (some seq) st =
    take_answer_settled flags later seq (take_answer flags now (some seq) st)
      (take_answer_settles flags now seq st)

same_slot :
    (config : Config) (st : State) (pkt : Packet) (flags now later : ℕ) (slot : Option ℕ)
    → answered_slot config (take_answer flags now slot st) (record pkt { recv_time = later })
      ≡ answered_slot config st pkt
unfolding answered_slot take_answer
same_slot config st pkt flags now later none = refl
same_slot config st pkt flags now later (some seq) = elim (Bool-cases (st.replied_or_timeout seq)) [
  | inl e ↦ rw e refl
  | inr e ↦ rw e refl
]

-- An answer that is received a second time changes nothing and is not reported.
take_reply_twice :
    (config : Config) (st : State) (pkt : Packet) (later : ℕ)
    → take_reply config (take_reply config st pkt) (record pkt { recv_time = later })
      ≡ take_reply config st pkt
unfolding take_reply
take_reply_twice config st pkt later =
    let slot = answered_slot config st pkt in
    let flags = flags_of config pkt in
    ap (λ s. take_answer flags later s (take_answer flags pkt.recv_time slot st))
      (same_slot config st pkt flags pkt.recv_time later slot)
    ∙ take_answer_twice flags pkt.recv_time later slot st
