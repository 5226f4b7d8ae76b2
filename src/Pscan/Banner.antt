-- ===== src/Pscan/Banner.antt =====
-- `grab_banner` of pscan.c: the connection's outcome and what its reads give are arguments (`none` is
-- an error, `some []` the end of the stream).
use knetutils.Base.{ℕ, zero, suc, ◌-◌, ◌≤◌}
use knetutils.Base.{inl, inr, arith}
use knetutils.Base.{Bool, true, false, not, ◌||◌, Option, none, some, List, [], ◌∷◌}
use knetutils.Base.{ltb, ◌==◌, if◌then◌else◌, Bool-cases}
use knetutils.Base.{length, take}
use knetutils.Base.{Text}

-- The rewriting of the first `n` bytes, up to the line's end: the C string that is left.
unfoldable pub clean : List ℕ → Text
clean [] = []
clean (c ∷ cs) =
    let rest = clean cs in
    if c == 13 || c == 10 then [] else if ltb c 32 || ltb 126 c then b'.' ∷ rest else c ∷ rest

-- `n > 0`.
abbrev arrived : Option (List ℕ) → Bool
arrived none = false
arrived (some []) = false
arrived (some (c ∷ cs)) = true

-- `if (n > 0 && n < 128)` over the bytes read.
unfoldable pub keep_read : Text → List ℕ → Text
unfolding clean
keep_read banner read = if ltb (length read) 128 then clean read else banner

-- `banner` is the slot's content, `banner_len` its size.
unfoldable pub store_banner : Text → Option (List ℕ) → ℕ → Text
unfolding keep_read
store_banner banner none banner_len = banner
store_banner banner (some []) banner_len = banner
store_banner banner (some (c ∷ cs)) banner_len = keep_read banner (take (banner_len - 1) (c ∷ cs))

unfoldable pub grab_banner : Bool → Bool → Option (List ℕ) → Option (List ℕ) → Text → ℕ → Text
unfolding store_banner
grab_banner opened connected first second banner banner_len =
    if not opened
    then banner
    else if not connected
    then banner
    else store_banner banner (if arrived first then first else second) banner_len

abbrev pub AllPrintable : Text → Type 0
AllPrintable [] = Unit
AllPrintable (c ∷ cs) = (32 ≤ c) × (c ≤ 126) × AllPrintable cs

clean-AllPrintable : (cs : List ℕ) → AllPrintable (clean cs)
unfolding clean
clean-AllPrintable [] = tt
clean-AllPrintable (c ∷ cs) = ground (arith, clean-AllPrintable cs)

length-clean : (cs : List ℕ) → length (clean cs) ≤ length cs
unfolding clean
length-clean [] = omega arith
length-clean (c ∷ cs) = ground (arith, length-clean cs)

length-take-le : (n : ℕ) (xs : List ℕ) → length (take n xs) ≤ n
length-take-le zero xs = omega arith
length-take-le (suc n) [] = omega arith
length-take-le (suc n) (x ∷ xs) = omega (arith, length-take-le n xs)

keep_read_lem :
    (banner read : Text)
    → length read ≤ 127
    → AllPrintable banner
    → length banner ≤ 127
    → AllPrintable (keep_read banner read) × (length (keep_read banner read) ≤ 127)
unfolding keep_read
keep_read_lem banner read h p l = elim (Bool-cases (ltb (length read) 128)) [
  | inl e ↦ rw e (clean-AllPrintable read, omega (arith, length-clean read))
  | inr e ↦ rw e (p, l)
]

store_banner_lem :
    (banner : Text) (read : Option (List ℕ))
    → AllPrintable banner
    → length banner ≤ 127
    → AllPrintable (store_banner banner read 128) × (length (store_banner banner read 128) ≤ 127)
unfolding store_banner
store_banner_lem banner none p l = (p, l)
store_banner_lem banner (some []) p l = (p, l)
store_banner_lem banner (some (c ∷ cs)) p l =
    keep_read_lem banner (take 127 (c ∷ cs)) (length-take-le 127 (c ∷ cs)) p l

-- Whatever the connection gives, a slot of 128 bytes that holds a printable C string holds one
-- afterwards, with room for its terminator.
pub grab_banner-AllPrintable :
    (opened connected : Bool) (first second : Option (List ℕ)) (banner : Text)
    → AllPrintable banner
    → length banner ≤ 127
    → let out = grab_banner opened connected first second banner 128 in
      AllPrintable out × (length out ≤ 127)
unfolding grab_banner
grab_banner-AllPrintable opened connected first second banner p l =
    let s = store_banner_lem banner (if arrived first then first else second) p l in
    elim (Bool-cases opened) [
      | inl o ↦ elim (Bool-cases connected) [ inl c ↦ rw (o, c) s | inr c ↦ rw (o, c) (p, l) ]
      | inr o ↦ rw o (p, l)
    ]
