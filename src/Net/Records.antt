-- ===== src/Net/Records.antt =====
-- The records in the buffer of a BPF device, and how src/base/net.c takes one from it.
use knetutils.Base.{ℕ, zero, suc, ◌+◌, ◌^◌, ◌≤◌, ◌<◌}
use knetutils.Base.{◌≡◌, refl, sym, ap, ap₂, ◌∙◌, arith}
use knetutils.Base.{Option, some, List, [], ◌∷◌, ◌++◌}
use knetutils.Base.{ltb, if◌then◌else◌}
use knetutils.Base.{length, set, take, drop, length-append, drop-append}
use knetutils.Base.{write}
use mathlib.Core.List.{append_assoc}
use knetutils.Net.Kernel.{Reply}
use knetutils.Net.Bpf.{Bsd, BpfSocket, take_record}

-- What BPF puts before a packet and behind it, as its manual says: the header tells the packet's length
-- and its own, and the next record begins at BPF_WORDALIGN of their sum.
pub record IsBpfFormat (bsd : Bsd) (header padding : List ℕ → List ℕ) : Type 0 where
  pub caplen_of :
      (before p rest : List ℕ)
      → length p < 2 ^ 32
      → bsd.bh_caplen (before ++ (header p ++ rest)) (length before) ≡ length p
  pub hdrlen_of :
      (before p rest : List ℕ)
      → bsd.bh_hdrlen (before ++ (header p ++ rest)) (length before) ≡ length (header p)
  pub has_header : (p : List ℕ) → 0 < length (header p)
  pub aligned :
      (p : List ℕ)
      → bsd.bpf_wordalign (length (header p) + length p)
        ≡ length (header p) + (length p + length (padding p))

-- What is returned of a packet for a buffer of `len` bytes: as much of it as the buffer takes.
abbrev pub delivered : ℕ → List ℕ → Reply
delivered len p = let n = if ltb len (length p) then len else length p in (n, take n p)

abbrev pub all_delivered : ℕ → List (List ℕ) → List (Option Reply)
all_delivered len [] = []
all_delivered len (p ∷ ps) = some (delivered len p) ∷ all_delivered len ps

abbrev pub AllShort : List (List ℕ) → Type 0
AllShort [] = Unit
AllShort (p ∷ ps) = (length p < 2 ^ 32) × AllShort ps

drop_past : (xs ys : List ℕ) (n : ℕ) → drop (length xs + n) (xs ++ ys) ≡ drop n ys
drop_past [] ys n = ap (λ m. drop m ys) (omega arith)
drop_past (x ∷ xs) ys n =
    let next : suc (length xs) + n ≡ suc (length xs + n) = omega arith in
    ap (λ m. drop m (x ∷ (xs ++ ys))) next ∙ drop_past xs ys n

take_within : (n : ℕ) (xs ys : List ℕ) → n ≤ length xs → take n (xs ++ ys) ≡ take n xs
take_within zero xs ys h = refl
take_within (suc n) [] ys h = absurd (omega arith)
take_within (suc n) (x ∷ xs) ys h = ap (λ l. x ∷ l) (take_within n xs ys (omega arith))

-- A record, and records one behind the other.
module _ (header padding : List ℕ → List ℕ) where
  abbrev pub encode : List ℕ → List ℕ
  encode p = header p ++ (p ++ padding p)

  abbrev pub encode_all : List (List ℕ) → List ℕ
  encode_all [] = []
  encode_all (p ∷ ps) = encode p ++ encode_all ps

module _ (bsd : Bsd) (header padding : List ℕ → List ℕ)
    (format : IsBpfFormat bsd header padding) where
  pub take_lem :
      (sock : BpfSocket) (len : ℕ) (before p rest : List ℕ)
      → sock.bpf_buf ≡ before ++ (encode header padding p ++ rest)
      → sock.bpf_pos ≡ length before
      → length p < 2 ^ 32
      → ((take_record bsd sock len).0 ≡ delivered len p)
        × ((take_record bsd sock len).1.bpf_pos ≡ length (before ++ encode header padding p))
  unfolding take_record
  take_lem sock len before p rest eb ep short =
      let after : List ℕ = p ++ (padding p ++ rest) in
      let shape : sock.bpf_buf ≡ before ++ (header p ++ after) =
        eb
        ∙ ap (λ l. before ++ l)
            (append_assoc (header p) (p ++ padding p) rest
              ∙ ap (λ l. header p ++ l) (append_assoc p (padding p) rest)) in
      let cap = ap₂ bsd.bh_caplen shape ep ∙ format.caplen_of before p after short in
      let hdr = ap₂ bsd.bh_hdrlen shape ep ∙ format.hdrlen_of before p after in
      let data' =
        ap₂ drop (ap₂ (λ a b. a + b) ep hdr) shape
        ∙ drop_past before (header p ++ after) (length (header p))
        ∙ drop-append (header p) after in
      let n : ℕ = if ltb len (length p) then len else length p in
      let size : length (before ++ encode header padding p)
          ≡ length before + (length (header p) + (length p + length (padding p))) =
        length-append before (encode header padding p)
        ∙ ap (λ m. length before + m)
            (length-append (header p) (p ++ padding p)
              ∙ ap (λ m. length (header p) + m) (length-append p (padding p))) in
      (
        ap₂ (λ c d. (if ltb len c then len else c, take (if ltb len c then len else c) d)) cap data'
            ∙ ap (λ t. (n, t)) (take_within n p (padding p ++ rest) (ground arith)),
        ap₂ (λ a b. a + b) ep (ap bsd.bpf_wordalign (ap₂ (λ a b. a + b) hdr cap) ∙ format.aligned p)
            ∙ sym size,
      )

set_past :
    (before buf : List ℕ) (b x : ℕ)
    → set (before ++ (b ∷ buf)) (length before) x ≡ before ++ (x ∷ buf)
set_past [] buf b x = refl
set_past (c ∷ before) buf b x = ap (λ l. c ∷ l) (set_past before buf b x)

pub write_at :
    (before buf bytes : List ℕ)
    → length bytes ≤ length buf
    → write (before ++ buf) (length before) bytes ≡ before ++ (bytes ++ drop (length bytes) buf)
write_at before buf [] h = refl
write_at before [] (x ∷ bytes) h = absurd (omega arith)
write_at before (b ∷ buf) (x ∷ bytes) h =
    let one : set (before ++ (b ∷ buf)) (length before) x ≡ (before ++ (x ∷ [])) ++ buf =
      set_past before buf b x ∙ sym (append_assoc before (x ∷ []) buf) in
    let at : length before + 1 ≡ length (before ++ (x ∷ [])) =
      sym (length-append before (x ∷ [])) in
    ap₂ (λ l i. write l i bytes) one at
    ∙ write_at (before ++ (x ∷ [])) buf bytes (omega arith)
    ∙ append_assoc before (x ∷ []) (bytes ++ drop (length bytes) buf)
