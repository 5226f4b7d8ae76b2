-- ===== src/Net/Held.antt =====
-- What a set-up of a tool's sockets holds until the tool closes them.
use knetutils.Base.{ℕ, suc}
use knetutils.Base.{◌≡◌, sym, ap, ◌∙◌, inl, inr, arith}
use knetutils.Base.{Bool, true, false, Option, none, some, List, ◌∷◌}
use knetutils.Base.{◌==◌, ==_iff, Bool-cases}
use knetutils.Net.Kernel.{Kernel, M, ◌>>=◌, pure, close_fd, remove, free, SameResources, Keeps}
use knetutils.Net.Sockets.{NetSocket, close_raw_socket}
use knetutils.Net.Balance.{IsOpened}

-- `none` stands for the end of the process, which hands everything back; otherwise closing hands back all
-- that was taken.
abbrev pub IsHeldBy : {S : Type 0} → (S → M (Unit {0})) → Kernel → Option S × Kernel → Type 0
IsHeldBy close k (none, k') = Unit
IsHeldBy close k (some s, k') = SameResources k (close s k').1

abbrev pub answer_with : {S : Type 0} → S → Bool → M (Option S)
answer_with s true = pure (some s)
answer_with s false = pure none

-- The socket, if it was opened and `next` does not end the process.
abbrev pub checked : (NetSocket → M Bool) → Option NetSocket → M (Option NetSocket)
checked next none = pure none
checked next (some sock) = next sock >>= answer_with sock

abbrev pub close_one : NetSocket → M (Unit {0})
close_one sock = close_raw_socket (some sock)

remove_head : (fd : ℕ) (xs : List ℕ) → remove fd (fd ∷ xs) ≡ xs
remove_head fd xs = ground arith

pub remove_second : (a b : ℕ) (xs : List ℕ) → remove b (a ∷ b ∷ xs) ≡ a ∷ xs
remove_second a b xs = elim (Bool-cases (a == b)) [
  | inl e ↦ rw e (ap (λ n. n ∷ xs) (sym ((==_iff a b).0 e)))
  | inr e ↦ rw e (ap (λ l. a ∷ l) (remove_head b xs))
]

pub close_one_lem :
    (sock : NetSocket) (k k' : Kernel)
    → k'.opened ≡ sock.fd ∷ k.opened
    → k'.blocks ≡ suc k.blocks
    → SameResources k (close_one sock k').1
unfolding close_raw_socket close_fd free
close_one_lem sock k k' eo eb = record {
  same_opened = ap (remove sock.fd) eo ∙ remove_head sock.fd k.opened;
  same_blocks = omega arith;
}

answered_lem :
    (sock : NetSocket) (fine : Bool) (k k' : Kernel)
    → k'.opened ≡ sock.fd ∷ k.opened
    → k'.blocks ≡ suc k.blocks
    → IsHeldBy close_one k (answer_with sock fine k')
answered_lem sock true k k' eo eb = close_one_lem sock k k' eo eb
answered_lem sock false k k' eo eb = tt

checked_from :
    (next : NetSocket → M Bool) (k : Kernel) (out : Option NetSocket × Kernel)
    → ((sock : NetSocket) → Keeps (next sock))
    → IsOpened k out
    → IsHeldBy close_one k (checked next out.0 out.1)
checked_from next k (none, k') keeps o = tt
checked_from next k (some sock, k') keeps o =
    let s = keeps sock k' in
    answered_lem sock (next sock k').0 k (next sock k').1 (s.same_opened ∙ o.0)
      (s.same_blocks ∙ o.1)

pub checked-IsHeldBy :
    (m : M (Option NetSocket)) (next : NetSocket → M Bool) (k : Kernel)
    → IsOpened k (m k)
    → ((sock : NetSocket) → Keeps (next sock))
    → IsHeldBy close_one k ((m >>= checked next) k)
checked-IsHeldBy m next k o keeps = checked_from next k (m k) keeps o
