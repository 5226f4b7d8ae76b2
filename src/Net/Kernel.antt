-- ===== src/Net/Kernel.antt =====
-- The calls of the kernel and of the C library that src/base/net.c makes, with the resources that they
-- hand out. The answer to a call is a function of the calls made before it and of the call: `none` when
-- it fails, otherwise the number that it returns and the bytes that it delivers.
use knetutils.Base.{ℕ, suc, ◌-◌}
use knetutils.Base.{◌≡◌, refl}
use knetutils.Base.{Option, none, some, List, [], ◌∷◌, ◌++◌}
use knetutils.Base.{◌==◌, if◌then◌else◌}
use knetutils.Base.{Text}
use knetutils.Base.{Family}

-- A call with its arguments: descriptors, constants as numbers, texts, and memory as bytes. `sysctl` asks for
-- the routes with a gateway: for their length, or into a buffer of a length.
pub data Call : Type 0 where
  socket : ℕ → ℕ → ℕ → Call
  bind connect : ℕ → List ℕ → Call
  getsockname : ℕ → Call
  setsockopt : ℕ → ℕ → ℕ → List ℕ → Call
  ioctl : ℕ → ℕ → Text → Call
  sendto : ℕ → List ℕ → List ℕ → Call
  recvfrom : ℕ → ℕ → Call
  calloc getifaddrs : Call
  if_nametoindex fopen : Text → Call
  getaddrinfo : Text → ℕ → Call
  open_device : Text → Call
  read : ℕ → ℕ → Call
  write_fd : ℕ → List ℕ → Call
  sysctl : Option ℕ → Call
  close : ℕ → Call

abbrev pub Reply : Type 0
Reply = ℕ × List ℕ

-- An entry of `getifaddrs`: the name, family and `s_addr` of its address, if it has one, and what LLADDR shows
-- of one of the family AF_LINK of BSD.
pub record IfAddr : Type 0 where
  pub name : Text
  pub addr : Option (Family × ℕ)
  pub link : Option (List ℕ)

-- How the outside answers, the calls made so far, the descriptors that are open (the last one first), and
-- how many blocks of memory are held.
pub record Kernel : Type 0 where
  pub answer : List Call → Call → Option Reply
  pub interfaces : List IfAddr
  pub route_lines : List Text
  pub log : List Call
  pub opened : List ℕ
  pub blocks : ℕ

abbrev pub M : Type 0 → Type 0
M A = Kernel → A × Kernel

infixl 5 ◌>>=◌ ◌>>◌
abbrev pub ◌>>=◌ : {A B : Type 0} → M A → (A → M B) → M B
◌>>=◌ m f k = let (a, k') = m k in f a k'

abbrev pub ◌>>◌ : {B : Type 0} → M (Unit {0}) → M B → M B
m >> f = m >>= λ _. f

abbrev pub pure : {A : Type 0} → A → M A
pure a k = (a, k)

unfoldable pub call : Call → M (Option Reply)
call c k = (k.answer k.log c, record k { log = k.log ++ (c ∷ []) })

abbrev pub hold_fd : Option Reply → M (Option ℕ)
hold_fd none k = (none, k)
hold_fd (some (fd, bytes)) k = (some fd, record k { opened = fd ∷ k.opened })

-- `socket`, `open`, or `fopen` with the descriptor of its file.
unfoldable pub open_fd : Call → M (Option ℕ)
open_fd c = call c >>= hold_fd

abbrev pub remove : ℕ → List ℕ → List ℕ
remove fd [] = []
remove fd (x ∷ xs) = if x == fd then xs else x ∷ remove fd xs

unfoldable pub close_fd : ℕ → M (Unit {0})
close_fd fd k = (tt, record k { opened = remove fd k.opened; log = k.log ++ (close fd ∷ []) })

abbrev pub hold_block : Option Reply → M (Option Reply)
hold_block none k = (none, k)
hold_block (some r) k = (some r, record k { blocks = suc k.blocks })

-- `calloc`, or a call whose result is to be freed.
unfoldable pub allocate : Call → M (Option Reply)
allocate c = call c >>= hold_block

unfoldable pub free : M (Unit {0})
free k = (tt, record k { blocks = k.blocks - 1 })

-- The same descriptors are open and as many blocks are held.
pub record SameResources (k k' : Kernel) : Type 0 where
  pub same_opened : k'.opened ≡ k.opened
  pub same_blocks : k'.blocks ≡ k.blocks

-- An action that hands back whatever it takes.
abbrev pub Keeps : {A : Type 0} → M A → Type 0
Keeps m = (k : Kernel) → SameResources k (m k).1

pub Keeps-call : (c : Call) → Keeps (call c)
unfolding call
Keeps-call c k = record { same_opened = refl; same_blocks = refl }

-- An action on an open descriptor that closes it, with the result given.
abbrev pub Closes : {A : Type 0} → ℕ → M A → Type 0
Closes fd m =
    (k : Kernel) (fds : List ℕ)
    → k.opened ≡ fd ∷ fds
    → ((m k).1.opened ≡ fds) × ((m k).1.blocks ≡ k.blocks)
