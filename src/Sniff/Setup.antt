-- ===== src/Sniff/Setup.antt =====
-- The socket and the file of `sniff_run` of src/sniff.c, and their closing at its end. `none` stands for
-- `die`; ETH_P_ALL is 3. The warnings are left out.
use knetutils.Base.{ℕ, suc}
use knetutils.Base.{◌≡◌, refl, ap, ◌∙◌, arith}
use knetutils.Base.{Option, none, some, List, [], ◌∷◌, ◌++◌}
use knetutils.Base.{Text}
use knetutils.Base.{unspec}
use knetutils.Net.Kernel.{
  fopen, Reply, Kernel, M, ◌>>=◌, ◌>>◌, pure, call, open_fd, hold_fd, close_fd, remove,
  SameResources,
}
use knetutils.Net.Sockets.{NetSocket, open_raw_socket, close_raw_socket, set_promiscuous}
use knetutils.Net.Balance.{IsOpened, open_sockets-IsOpened}
use knetutils.Net.Bind.{Keeps-succeeds}
use knetutils.Net.Held.{IsHeldBy, close_one_lem}
use knetutils.Sniff.Options.{Config}

-- `sock`, and the descriptor of `pcap_fp`.
pub record Capture : Type 0 where
  pub sock : NetSocket
  pub file : Option ℕ

unfoldable pub listen : Capture → M (Option Capture)
listen c = set_promiscuous c.sock >>= λ fine. pure (some c)

unfoldable pub open_file : Option Text → M (Option ℕ)
open_file none = pure none
open_file (some name) = open_fd (fopen name)

-- Behind the opening of the socket.
unfoldable pub sock_opened : Config → Option NetSocket → M (Option Capture)
unfolding listen open_file
sock_opened config none = pure none
sock_opened config (some sock) = do
  file ← open_file config.pcap_file
  listen (record { sock = sock; file = file })

unfoldable pub open_capture : Config → Text → M (Option Capture)
open_capture config iface = open_raw_socket iface 3 >>= sock_opened config

abbrev pub close_file : Option ℕ → M (Unit {0})
close_file none = pure tt
close_file (some fd) = close_fd fd

unfoldable pub close_capture : Capture → M (Unit {0})
unfolding close_fd
close_capture c = do close_file c.file; close_raw_socket (some (c.sock))

-- What is open with the socket, and with the file if there is one.
abbrev held_fds : Option ℕ → ℕ → List ℕ → List ℕ
held_fds none sock fds = sock ∷ fds
held_fds (some fd) sock fds = fd ∷ sock ∷ fds

hold_lem :
    (sock : ℕ) (fds : List ℕ) (r : Option Reply) (k : Kernel)
    → k.opened ≡ sock ∷ fds
    → ((hold_fd r k).1.opened ≡ held_fds (hold_fd r k).0 sock fds)
      × ((hold_fd r k).1.blocks ≡ k.blocks)
hold_lem sock fds none k e = (e, refl)
hold_lem sock fds (some (fd, bytes)) k e = (ap (λ l. fd ∷ l) e, refl)

file_lem :
    (sock : ℕ) (fds : List ℕ) (name : Option Text) (k : Kernel)
    → k.opened ≡ sock ∷ fds
    → ((open_file name k).1.opened ≡ held_fds (open_file name k).0 sock fds)
      × ((open_file name k).1.blocks ≡ k.blocks)
unfolding open_file open_fd call
file_lem sock fds none k e = (e, refl)
file_lem sock fds (some name) k e =
    hold_lem sock fds (k.answer k.log (fopen name)) (record k { log = k.log ++ (fopen name ∷ []) })
      e

close_lem :
    (sock : NetSocket) (file : Option ℕ) (k k' : Kernel)
    → k'.opened ≡ held_fds file sock.fd k.opened
    → k'.blocks ≡ suc k.blocks
    → SameResources k (close_capture (record { sock = sock; file = file }) k').1
unfolding close_capture close_fd
close_lem sock none k k' eo eb = close_one_lem sock k k' eo eb
close_lem sock (some fd) k k' eo eb =
    close_one_lem sock k (close_fd fd k').1 (ap (remove fd) eo ∙ ground arith) eb

from_sock :
    (config : Config) (k : Kernel) (out : Option NetSocket × Kernel)
    → IsOpened k out
    → IsHeldBy close_capture k (sock_opened config out.0 out.1)
unfolding sock_opened listen set_promiscuous
from_sock config k (none, k') o = tt
from_sock config k (some sock, k') o =
    let (file, k₁) = open_file config.pcap_file k' in
    let f = file_lem sock.fd k.opened config.pcap_file k' o.0 in
    let s = Keeps-succeeds _ k₁ in
    close_lem sock file k _ (s.same_opened ∙ f.0) (s.same_blocks ∙ f.1 ∙ o.1)

pub open_capture-IsHeldBy :
    (config : Config) (iface : Text) (k : Kernel)
    → IsHeldBy close_capture k (open_capture config iface k)
unfolding open_capture
open_capture-IsHeldBy config iface k =
    from_sock config k (open_raw_socket iface 3 k) (open_sockets-IsOpened k iface unspec 3).0
