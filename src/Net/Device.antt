-- ===== src/Net/Device.antt =====
-- What the code of src/base/net.c for BSD holds when it returns.
use knetutils.Base.{ℕ, zero, suc, ◌+◌}
use knetutils.Base.{◌≡◌, refl, ap, ◌∙◌, inl, inr, arith}
use knetutils.Base.{Option, none, some, List, [], ◌∷◌, ◌++◌}
use knetutils.Base.{Option-cases}
use knetutils.Base.{take}
use knetutils.Base.{le32}
use knetutils.Base.{Text}
use knetutils.Net.Kernel.{
  ioctl, calloc, open_device, Reply, Kernel, ◌>>=◌, call, open_fd, close_fd, remove, allocate,
  hold_block, free,
}
use knetutils.Net.Bpf.{
  Bsd, BpfSocket, bpf_path, find_device, behind_buf, behind_sock, behind_blen, behind_setif,
  device_opened, open_bpf_socket, close_bpf_socket,
}

remove_head : (fd : ℕ) (os fds : List ℕ) → os ≡ fd ∷ fds → remove fd os ≡ fds
remove_head fd os fds e = ap (remove fd) e ∙ ground arith

-- What is open and held: for no device as before, for a device its descriptor more.
abbrev IsFound : List ℕ → ℕ → Option ℕ × Kernel → Type 0
IsFound os bs (none, k') = (k'.opened ≡ os) × (k'.blocks ≡ bs)
IsFound os bs (some fd, k') = (k'.opened ≡ fd ∷ os) × (k'.blocks ≡ bs)

find-IsFound : (left i : ℕ) (k : Kernel) → IsFound k.opened k.blocks (find_device left i k)
unfolding find_device open_fd call
find-IsFound zero i k = (refl, refl)
find-IsFound (suc left) i k = elim (Option-cases (k.answer k.log (open_device (bpf_path i)))) [
  | inl e ↦
      rw e (find-IsFound left (i + 1) (record k { log = k.log ++ (open_device (bpf_path i) ∷ []) }))
  | inr (r, e) ↦ rw e (refl, refl)
]

-- What `open_raw_socket` leaves: without a socket nothing, and with one its descriptor and two blocks,
-- which `close_raw_socket` gives back.
abbrev pub IsBpfOpened : List ℕ → ℕ → Option BpfSocket × Kernel → Type 0
IsBpfOpened os bs (none, k') = (k'.opened ≡ os) × (k'.blocks ≡ bs)
IsBpfOpened os bs (some sock, k') =
    (k'.opened ≡ sock.fd ∷ os)
    × (k'.blocks ≡ 2 + bs)
    × ((close_bpf_socket sock k').1.opened ≡ os)
    × ((close_bpf_socket sock k').1.blocks ≡ bs)

module _ (fd : ℕ) (os : List ℕ) (bs : ℕ) where
  buf_lem :
      (blen : ℕ) (r : Option Reply) (k : Kernel)
      → k.opened ≡ fd ∷ os
      → k.blocks ≡ suc bs
      → IsBpfOpened os bs ((hold_block r >>= behind_buf fd blen) k)
  unfolding behind_buf close_bpf_socket close_fd free
  buf_lem blen none k eo eb = (remove_head fd k.opened os eo, omega (arith, eb))
  buf_lem blen (some r) k eo eb =
      (eo, omega (arith, eb), remove_head fd k.opened os eo, omega (arith, eb))

  sock_lem :
      (blen : ℕ) (r : Option Reply) (k : Kernel)
      → k.opened ≡ fd ∷ os
      → k.blocks ≡ bs
      → IsBpfOpened os bs ((hold_block r >>= behind_sock fd blen) k)
  unfolding behind_sock close_fd allocate call
  sock_lem blen none k eo eb = (remove_head fd k.opened os eo, eb)
  sock_lem blen (some r) k eo eb =
      buf_lem blen (k.answer k.log calloc)
        (record k { blocks = suc k.blocks; log = k.log ++ (calloc ∷ []) }) eo (ap suc eb)

  blen_lem :
      (r : Option Reply) (k : Kernel)
      → k.opened ≡ fd ∷ os
      → k.blocks ≡ bs
      → IsBpfOpened os bs (behind_blen fd r k)
  unfolding behind_blen close_fd allocate call
  blen_lem none k eo eb = (remove_head fd k.opened os eo, eb)
  blen_lem (some (n, bytes)) k eo eb =
      sock_lem (le32 bytes 0) (k.answer k.log calloc) (record k { log = k.log ++ (calloc ∷ []) }) eo
        eb

  setif_lem :
      (bsd : Bsd) (r : Option Reply) (k : Kernel)
      → k.opened ≡ fd ∷ os
      → k.blocks ≡ bs
      → IsBpfOpened os bs (behind_setif bsd fd r k)
  unfolding behind_setif close_fd call
  setif_lem bsd none k eo eb = (remove_head fd k.opened os eo, eb)
  setif_lem bsd (some r) k eo eb =
      let now = k.log ++ (ioctl fd bsd.biocimmediate [] ∷ []) in
      let size = ioctl fd bsd.biocgblen [] in
      blen_lem (k.answer now size) (record k { log = now ++ (size ∷ []) }) eo eb

opened_lem :
    (bsd : Bsd) (iface : Text) (os : List ℕ) (bs : ℕ) (out : Option ℕ × Kernel)
    → IsFound os bs out
    → IsBpfOpened os bs (device_opened bsd iface out.0 out.1)
unfolding device_opened call
opened_lem bsd iface os bs (none, k) f = f
opened_lem bsd iface os bs (some fd, k) f =
    let c = ioctl fd bsd.biocsetif (take 15 iface) in
    setif_lem fd os bs bsd (k.answer k.log c) (record k { log = k.log ++ (c ∷ []) }) f.0 f.1

-- Whatever the kernel answers, `open_raw_socket` for BSD either returns nothing and has handed back
-- every descriptor and block that it took, or returns a socket with a descriptor and two blocks that are
-- all that it holds and that `close_raw_socket` hands back.
pub open_bpf_socket-IsBpfOpened :
    (bsd : Bsd) (iface : Text) (k : Kernel)
    → IsBpfOpened k.opened k.blocks (open_bpf_socket bsd iface k)
unfolding open_bpf_socket
open_bpf_socket-IsBpfOpened bsd iface k =
    opened_lem bsd iface k.opened k.blocks (find_device 256 0 k) (find-IsFound 256 0 k)
