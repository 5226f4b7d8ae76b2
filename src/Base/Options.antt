-- ===== src/Base/Options.antt =====
-- Command lines: what getopt yields, the C library's number parsing, and how a tool's main ends
-- before or when it runs.
use Prim.Native.Nat.{ℕ, zero, suc, ◌+◌, ◌-◌, ◌*◌, ◌%◌, ◌^◌, ◌<◌, min}
use mathlib.Core.Path.{◌≡◌, refl, subst}
use mathlib.Core.Bool.{Bool, ◌&&◌, ◌||◌}
use mathlib.Core.List.{List, [], ◌∷◌}
use native.Mathlib.Omega.{arith}
use knetutils.Base.Tests.{ltb, leb, ◌==◌, if◌then◌else◌}
use knetutils.Base.Word.{u32}
use knetutils.Base.Strings.{Text}

-- A result of getopt: the character that it returns, and `optarg`.
abbrev pub Opt : Type 0
Opt = ℕ × Text

-- The value of a digit, 36 for any other character.
abbrev digit_of : ℕ → ℕ
digit_of c =
    if leb b'0' c && leb c b'9'
    then c - b'0'
    else if leb b'a' c && leb c b'z'
    then c - b'a' + 10
    else if leb b'A' c && leb c b'Z'
    then c - b'A' + 10
    else 36

digits_value : ℕ → ℕ → Text → ℕ
digits_value base acc [] = acc
digits_value base acc (c ∷ s) =
    let rest = digits_value base (acc * base + digit_of c) s in
    if ltb (digit_of c) base then rest else acc

abbrev is_space : ℕ → Bool
is_space c = c == 32 || (leb 9 c && leb c 13)

skip_spaces : Text → Text
skip_spaces [] = []
skip_spaces (c ∷ s) = if is_space c then skip_spaces s else c ∷ s

-- The base and the digits of a number that may begin with 0 or 0x.
prefixed : ℕ → Text → ℕ × Text
prefixed zero (c ∷ d ∷ s) =
    if c == b'0' then (if d == b'x' || d == b'X' then (16, s) else (8, d ∷ s)) else (10, c ∷ d ∷ s)
prefixed zero s = (10, s)
prefixed (suc base) s = (suc base, s)

magnitude : ℕ → Text → ℕ
magnitude base s = let (b, digits) = prefixed base s in digits_value b 0 digits

signed : ℕ → Text → ℕ
signed base [] = 0
signed base (c ∷ s) =
    if c == b'-'
    then (2 ^ 64 - min (magnitude base s) (2 ^ 63)) % 2 ^ 64
    else if c == b'+'
    then min (magnitude base s) (2 ^ 63 - 1)
    else min (magnitude base (c ∷ s)) (2 ^ 63 - 1)

-- `strtol (s, NULL, base)`, as the bit pattern of a 64-bit long; it stops at the ends of the range.
unfoldable pub strtol : ℕ → Text → ℕ
unfolding skip_spaces signed magnitude prefixed digits_value
strtol base s = signed base (skip_spaces s)

-- `atoi`, as the bit pattern of an int.
unfoldable pub atoi : Text → ℕ
unfolding strtol
atoi s = u32 (strtol 10 s)

pub atoi-lt : (s : Text) → atoi s < 2 ^ 32
unfolding atoi
atoi-lt s = omega arith

-- How the reading of the command line goes on: the process exits with a status, `die` ends it, or a
-- configuration is at hand.
pub data Step {ℓ} (C : Type ℓ) : Type ℓ where
  exits : ℕ → Step C
  dies : Step C
  goes : C → Step C

infixl 5 ◌>>=◌
abbrev pub ◌>>=◌ {ℓ κ} : {C : Type ℓ} {D : Type κ} → Step C → (C → Step D) → Step D
exits status >>= f = exits status
dies >>= f = dies
goes c >>= f = f c

-- The loop over getopt.
unfoldable pub read_options {ℓ} : {C : Type ℓ} → (C → Opt → Step C) → C → List Opt → Step C
read_options apply config [] = goes config
read_options apply config (opt ∷ opts) =
    apply config opt >>= λ config'. read_options apply config' opts

pub >>=-eq-goes {ℓ κ} :
    {C : Type ℓ} {D : Type κ} (m : Step C) (f : C → Step D) {d : D}
    → (m >>= f) ≡ goes d
    → (c : C) × (m ≡ goes c) × (f c ≡ goes d)
>>=-eq-goes (exits status) f h = cc
>>=-eq-goes dies f h = cc
>>=-eq-goes (goes c) f h = (c, refl, h)

-- What every option keeps, the loop keeps.
pub read_options_keeps {ℓ κ} :
    {C : Type ℓ} (P : C → Type κ) (apply : C → Opt → Step C)
    → ((c c' : C) (opt : Opt) → P c → apply c opt ≡ goes c' → P c')
    → (c c' : C) (opts : List Opt) → P c
    → read_options apply c opts ≡ goes c'
    → P c'
unfolding read_options
read_options_keeps P apply keep c c' [] p e = let q : c ≡ c' = cc in subst P q p
read_options_keeps P apply keep c c' (opt ∷ opts) p e =
    let (d, one, more) = >>=-eq-goes (apply c opt) (λ x. read_options apply x opts) e in
    read_options_keeps P apply keep d c' opts (keep c d opt p one) more
