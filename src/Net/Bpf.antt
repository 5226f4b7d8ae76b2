-- ===== src/Net/Bpf.antt =====
-- The code of src/base/net.c for BSD: `open_raw_socket` on a BPF device, `recv_packet` from its
-- buffer, `set_promiscuous`, `send_packet` and `close_raw_socket`. What the system's headers say is a `Bsd`.
use knetutils.Base.{ℕ, zero, suc, ◌+◌}
use knetutils.Base.{Option, none, some, List, [], ◌++◌}
use knetutils.Base.{ltb, leb, ◌==◌, if◌then◌else◌}
use knetutils.Base.{take, drop, replicate}
use knetutils.Base.{le32, write}
use knetutils.Base.{Text, codes}
use knetutils.Utils.{decimal}
use knetutils.Base.{Bool}
use knetutils.Net.Sockets.{succeeds, returned}
use knetutils.Net.Kernel.{
  write_fd, ioctl, calloc, open_device, read, Reply, M, ◌>>=◌, ◌>>◌, pure, call, open_fd, close_fd,
  allocate, free,
}

-- The requests of ioctl, the two fields of a `struct bpf_hdr` that stands at an offset of a buffer, and
-- BPF_WORDALIGN.
pub record Bsd : Type 0 where
  pub biocsetif : ℕ
  pub biocpromisc : ℕ
  pub biocimmediate : ℕ
  pub biocgblen : ℕ
  pub bh_caplen : List ℕ → ℕ → ℕ
  pub bh_hdrlen : List ℕ → ℕ → ℕ
  pub bpf_wordalign : ℕ → ℕ

pub record BpfSocket : Type 0 where
  pub fd : ℕ
  pub bpf_buf : List ℕ
  pub bpf_buf_len : ℕ
  pub bpf_pos : ℕ
  pub bpf_filled : ℕ

unfoldable pub bpf_path : ℕ → Text
bpf_path i = codes "/dev/bpf" ++ decimal i

-- `for (i = 0; i < MAX_BPF_DEVS; i++)`, with `left` devices from `i` on.
unfoldable pub find_device : ℕ → ℕ → M (Option ℕ)
find_device zero i = pure none
find_device (suc left) i = open_fd (open_device (bpf_path i)) >>= λ r. elim r [
  | none ↦ find_device left (i + 1)
  | some fd ↦ pure (some fd)
]

-- The labels `err_close` and `err_free`.
abbrev pub err_close : ℕ → M (Option BpfSocket)
err_close fd = do close_fd fd; pure none

abbrev pub err_free : ℕ → M (Option BpfSocket)
err_free fd = do free; close_fd fd; pure none

unfoldable pub behind_buf : ℕ → ℕ → Option Reply → M (Option BpfSocket)
behind_buf fd blen none = err_free fd
behind_buf fd blen (some r) = pure (
    some (record {
      fd = fd;
      bpf_buf = replicate blen 0;
      bpf_buf_len = blen;
      bpf_pos = 0;
      bpf_filled = 0;
    }))

unfoldable pub behind_sock : ℕ → ℕ → Option Reply → M (Option BpfSocket)
behind_sock fd blen none = err_close fd
behind_sock fd blen (some r) = allocate calloc >>= behind_buf fd blen

unfoldable pub behind_blen : ℕ → Option Reply → M (Option BpfSocket)
behind_blen fd none = err_close fd
behind_blen fd (some (n, bytes)) = allocate calloc >>= behind_sock fd (le32 bytes 0)

module _ (bsd : Bsd) where
  unfoldable pub behind_setif : ℕ → Option Reply → M (Option BpfSocket)
  behind_setif fd none = err_close fd
  behind_setif fd (some r) = call (ioctl fd bsd.biocimmediate []) >>= λ _.
      call (ioctl fd bsd.biocgblen []) >>= behind_blen fd

  unfoldable pub device_opened : Text → Option ℕ → M (Option BpfSocket)
  device_opened iface none = pure none
  device_opened iface (some fd) = call (ioctl fd bsd.biocsetif (take 15 iface)) >>= behind_setif fd

  unfoldable pub open_bpf_socket : Text → M (Option BpfSocket)
  open_bpf_socket iface = find_device 256 0 >>= device_opened iface

  -- The record at `bpf_pos`: what is returned, and the socket afterwards.
  unfoldable pub take_record : BpfSocket → ℕ → Reply × BpfSocket
  take_record sock len =
      let caplen = bsd.bh_caplen sock.bpf_buf sock.bpf_pos in
      let hdrlen = bsd.bh_hdrlen sock.bpf_buf sock.bpf_pos in
      let packet_len = if ltb len caplen then len else caplen in
      (
        (packet_len, take packet_len (drop (sock.bpf_pos + hdrlen) sock.bpf_buf)),
        record sock { bpf_pos = sock.bpf_pos + bsd.bpf_wordalign (hdrlen + caplen) },
      )

  -- Behind the call of `read`; `none` stands for -1.
  unfoldable pub refill : BpfSocket → ℕ → Option Reply → Option Reply × BpfSocket
  unfolding take_record
  refill sock len none = (none, sock)
  refill sock len (some (n, bytes)) =
      let filled = record sock {
        bpf_buf = write sock.bpf_buf 0 bytes;
        bpf_filled = n;
        bpf_pos = 0;
      } in
      let (r, sock') = take_record filled len in
      if n == 0 then (some (0, []), sock) else (some r, sock')

  -- `recv_packet` on the socket, with the socket afterwards.
  unfoldable pub bpf_recv_packet : BpfSocket → ℕ → M (Option Reply × BpfSocket)
  unfolding refill
  bpf_recv_packet sock len =
      let (r, sock') = take_record sock len in
      if leb sock.bpf_filled sock.bpf_pos
      then (call (read sock.fd sock.bpf_buf_len) >>= λ reply. pure (refill sock len reply))
      else pure (some r, sock')

unfoldable pub close_bpf_socket : BpfSocket → M (Unit {0})
unfolding close_fd free
close_bpf_socket sock = do close_fd sock.fd; free; free

unfoldable pub bpf_set_promiscuous : Bsd → BpfSocket → M Bool
unfolding call
bpf_set_promiscuous bsd sock = succeeds (ioctl sock.fd bsd.biocpromisc [])

-- The address is not used: it stands in the frame.
unfoldable pub bpf_send_packet : BpfSocket → List ℕ → Option (List ℕ) → M (Option ℕ)
unfolding call
bpf_send_packet sock buf dst_mac = returned (write_fd sock.fd buf)
