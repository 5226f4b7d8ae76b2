-- ===== src/Net/Stream.antt =====
-- The packets that `recv_packet` of src/base/net.c takes from the buffer of a BPF device.
use knetutils.Base.{ℕ, zero, suc, ◌+◌, ◌^◌, ◌≤◌, ◌<◌}
use knetutils.Base.{◌≡◌, refl, sym, ap, ap₂, ◌∙◌, arith}
use knetutils.Base.{true, false, Option, some, List, [], ◌∷◌, ◌++◌}
use knetutils.Base.{leb, ◌==◌}
use knetutils.Base.{length, drop, length-append}
use knetutils.Base.{write}
use mathlib.Core.List.{append_assoc}
use knetutils.Net.Kernel.{read, Reply, Kernel, M, ◌>>=◌, pure, call}
use knetutils.Net.Records.{
  IsBpfFormat, delivered, all_delivered, AllShort, encode, encode_all, take_lem, write_at,
}
use knetutils.Net.Bpf.{Bsd, BpfSocket, take_record, refill, bpf_recv_packet}

-- `n` calls of `recv_packet`: what they return, and the socket afterwards.
unfoldable pub recv_times : Bsd → ℕ → BpfSocket → ℕ → M (List (Option Reply) × BpfSocket)
recv_times bsd zero sock len = pure ([], sock)
recv_times bsd (suc n) sock len = bpf_recv_packet bsd sock len >>= λ out.
    recv_times bsd n out.1 len >>= λ outs. pure (out.0 ∷ outs.0, outs.1)

-- The socket when the kernel has delivered `n` bytes.
abbrev filled : BpfSocket → ℕ → List ℕ → BpfSocket
filled sock n bytes = record sock {
  bpf_buf = write sock.bpf_buf 0 bytes;
  bpf_filled = n;
  bpf_pos = 0;
}

from_device :
    (bsd : Bsd) (sock : BpfSocket) (len n : ℕ) (bytes : List ℕ) (k : Kernel)
    → sock.bpf_filled ≤ sock.bpf_pos
    → 0 < n
    → k.answer k.log (read sock.fd sock.bpf_buf_len) ≡ some (n, bytes)
    → bpf_recv_packet bsd sock len k ≡ (
      (
        some ((take_record bsd (filled sock n bytes) len).0),
        (take_record bsd (filled sock n bytes) len).1,
      ),
      record k { log = k.log ++ (read sock.fd sock.bpf_buf_len ∷ []) },
    )
unfolding bpf_recv_packet call refill
from_device bsd sock len n bytes k used some_bytes reply =
    let drained : leb sock.bpf_filled sock.bpf_pos ≡ true = ground (arith, used) in
    let not_none : (n == 0) ≡ false = ground (arith, some_bytes) in
    rw (drained, reply, not_none) refl

-- A call that finds a record in the buffer does not ask the kernel.
from_buffer :
    (bsd : Bsd) (sock : BpfSocket) (len : ℕ) (k : Kernel)
    → sock.bpf_pos < sock.bpf_filled
    → bpf_recv_packet bsd sock len k
      ≡ ((some ((take_record bsd sock len).0), (take_record bsd sock len).1), k)
unfolding bpf_recv_packet
from_buffer bsd sock len k h =
    let more : leb sock.bpf_filled sock.bpf_pos ≡ false = ground (arith, h) in rw more refl

module _ (bsd : Bsd) (header padding : List ℕ → List ℕ)
    (format : IsBpfFormat bsd header padding) where
  -- The buffer holds the records from its position on.
  record Holds (sock : BpfSocket) (before rest : List ℕ) (ps : List (List ℕ)) : Type 0 where
    buf_is : sock.bpf_buf ≡ before ++ (encode_all header padding ps ++ rest)
    pos_is : sock.bpf_pos ≡ length before
    filled_is : sock.bpf_filled ≡ length before + length (encode_all header padding ps)

  next_Holds :
      (sock : BpfSocket) (len : ℕ) (before rest p : List ℕ) (ps : List (List ℕ))
      → Holds sock before rest (p ∷ ps)
      → length p < 2 ^ 32
      → ((take_record bsd sock len).0 ≡ delivered len p)
        × Holds (take_record bsd sock len).1 (before ++ encode header padding p) rest ps
  unfolding take_record
  next_Holds sock len before rest p ps h short =
      let shape : sock.bpf_buf
          ≡ before ++ (encode header padding p ++ (encode_all header padding ps ++ rest)) =
        h.buf_is
        ∙ ap (λ l. before ++ l)
            (append_assoc (encode header padding p) (encode_all header padding ps) rest) in
      let (found, at) =
        take_lem bsd header padding format sock len before p (encode_all header padding ps ++ rest)
          shape h.pos_is short in
      (
        found,
        record {
          buf_is =
              shape
              ∙ sym (
                  append_assoc before (encode header padding p)
                    (encode_all header padding ps ++ rest));
          pos_is = at;
          filled_is = omega (
            arith,
            h.filled_is,
            length-append before (encode header padding p),
            length-append (encode header padding p) (encode_all header padding ps),
          );
        },
      )

  buffered :
      (sock : BpfSocket) (len : ℕ) (before rest : List ℕ) (ps : List (List ℕ)) (k : Kernel)
      → Holds sock before rest ps
      → AllShort ps
      → ((recv_times bsd (length ps) sock len k).0.0 ≡ all_delivered len ps)
        × ((recv_times bsd (length ps) sock len k).0.1.bpf_filled
            ≤ (recv_times bsd (length ps) sock len k).0.1.bpf_pos)
        × ((recv_times bsd (length ps) sock len k).1 ≡ k)
  unfolding recv_times
  buffered sock len before rest [] k h short = (refl, omega (arith, h.pos_is, h.filled_is), refl)
  buffered sock len before rest (p ∷ ps) k h short =
      let all = length-append (encode header padding p) (encode_all header padding ps) in
      let size = length-append (header p) (p ++ padding p) in
      let one =
        from_buffer bsd sock len k
          (omega (arith, h.pos_is, h.filled_is, all, size, format.has_header p)) in
      let (found, next) = next_Holds sock len before rest p ps h short.0 in
      let (gives, empty, same) =
        buffered (take_record bsd sock len).1 len (before ++ encode header padding p) rest ps k next
          short.1 in
      rw one (ap₂ (λ r rs. some r ∷ rs) found gives, empty, same)

-- On BSD, when the kernel delivers records of one packet or more, each shorter than 2^32 bytes, that fit
-- the buffer and have BPF's format, as many calls of `recv_packet` as there are packets on a socket whose
-- buffer is used up read once from the device and return the packets in order, each as far as the
-- caller's buffer takes it; the buffer is then used up again.
pub bpf_recv_packet-all_delivered :
    (bsd : Bsd) (header padding : List ℕ → List ℕ) (format : IsBpfFormat bsd header padding)
    (sock : BpfSocket) (len : ℕ) (p : List ℕ) (ps : List (List ℕ)) (k : Kernel)
    → sock.bpf_filled ≤ sock.bpf_pos
    → AllShort (p ∷ ps)
    → length (encode_all header padding (p ∷ ps)) ≤ length sock.bpf_buf
    → k.answer k.log (read sock.fd sock.bpf_buf_len)
      ≡ some (length (encode_all header padding (p ∷ ps)), encode_all header padding (p ∷ ps))
    → let out = recv_times bsd (length (p ∷ ps)) sock len k in
      (out.0.0 ≡ all_delivered len (p ∷ ps))
      × (out.0.1.bpf_filled ≤ out.0.1.bpf_pos)
      × (out.1.log ≡ k.log ++ (read sock.fd sock.bpf_buf_len ∷ []))
unfolding recv_times
bpf_recv_packet-all_delivered bsd header padding format sock len p ps k used short fits reply =
    let bytes : List ℕ = encode_all header padding (p ∷ ps) in
    let n : ℕ = length bytes in
    let sock' : BpfSocket = filled sock n bytes in
    let full : 0 < n = omega (
      arith,
      length-append (encode header padding p) (encode_all header padding ps),
      length-append (header p) (p ++ padding p),
      format.has_header p,
    ) in
    let one = from_device bsd sock len n bytes k used full reply in
    let holds : Holds bsd header padding format sock' [] (drop n sock.bpf_buf) (p ∷ ps) = record {
      buf_is = write_at [] sock.bpf_buf bytes fits;
      pos_is = refl;
      filled_is = omega arith;
    } in
    let (found, next) =
      next_Holds bsd header padding format sock' len [] (drop n sock.bpf_buf) p ps holds short.0 in
    let k' : Kernel = record k { log = k.log ++ (read sock.fd sock.bpf_buf_len ∷ []) } in
    let (gives, empty, same) =
      buffered bsd header padding format (take_record bsd sock' len).1 len
        ([] ++ encode header padding p) (drop n sock.bpf_buf) ps k' next short.1 in
    rw one (ap₂ (λ r rs. some r ∷ rs) found gives, empty, ap (λ (x : Kernel). x.log) same)
