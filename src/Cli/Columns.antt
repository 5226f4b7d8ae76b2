-- ===== src/Cli/Columns.antt =====
-- The columns of the usage text that src/base/cli.c prints.
use knetutils.Base.{ℕ, zero, suc, ◌-◌, ◌≤◌}
use knetutils.Base.{◌≡◌, refl, sym, ap, ap₂, ◌∙◌, ◌≢◌, inl, inr, arith}
use knetutils.Base.{false, List, [], ◌∷◌, ◌++◌, map}
use knetutils.Base.{◌==◌, if◌then◌else◌, Bool-cases}
use knetutils.Base.{length, drop, replicate, length-append, length-replicate, drop-append}
use knetutils.Base.{Text, codes}
use mathlib.Core.List.{append_assoc}
use knetutils.Cli.{CliOption, opt_str, padded, print_description, print_option}

-- The lines of a text; the end of one is the character 10.
abbrev add_to_first : ℕ → List Text → List Text
add_to_first c [] = (c ∷ []) ∷ []
add_to_first c (line ∷ lines) = (c ∷ line) ∷ lines

abbrev pub lines : Text → List Text
lines [] = [] ∷ []
lines (c ∷ s) = if c == 10 then [] ∷ lines s else add_to_first c (lines s)

abbrev pub HasNoNewline : Text → Type 0
HasNoNewline [] = Unit
HasNoNewline (c ∷ s) = (c ≢ 10) × HasNoNewline s

-- What a text on one line puts before the first line of another.
abbrev put_before : Text → List Text → List Text
put_before [] ls = ls
put_before (c ∷ s) ls = add_to_first c (put_before s ls)

lines_before : (s t : Text) → HasNoNewline s → lines (s ++ t) ≡ put_before s (lines t)
lines_before [] t h = refl
lines_before (c ∷ s) t h =
    let not_end : (c == 10) ≡ false = ground (arith, h.0) in
    rw not_end (ap (add_to_first c) (lines_before s t h.1))

-- What stands from the column `n` on in each line.
abbrev pub from_column : ℕ → List Text → List Text
from_column n [] = []
from_column n (line ∷ ls) = drop n line ∷ from_column n ls

-- The lines of a printed description: the first as it is, the others behind 18 spaces.
abbrev indented : List Text → List Text
indented [] = []
indented (line ∷ ls) = line ∷ map (λ l. replicate 18 32 ++ l) ls

lines-print_description :
    (desc : Text)
    → (first : Text) × (others : List Text) × (lines desc ≡ first ∷ others)
      × (lines (print_description desc ++ (10 ∷ [])) ≡ indented (first ∷ others) ++ ([] ∷ []))
unfolding print_description
lines-print_description [] = ([], [], refl, refl)
lines-print_description (c ∷ desc) =
    let (first, others, is, printed) = lines-print_description desc in
    elim (Bool-cases (c == 10)) [
      | inl e ↦ ([], first ∷ others, rw (e, is) refl, rw (e, printed) refl)
      | inr e ↦ (c ∷ first, others, rw (e, is) refl, rw (e, printed, e) refl)
    ]

put_before_first : (s line : Text) (ls : List Text) → put_before s (line ∷ ls) ≡ (s ++ line) ∷ ls
put_before_first [] line ls = refl
put_before_first (c ∷ s) line ls = ap (add_to_first c) (put_before_first s line ls)

unindent :
    (ls : List Text)
    → from_column 18 (map (λ l. replicate 18 32 ++ l) ls ++ ([] ∷ [])) ≡ ls ++ ([] ∷ [])
unindent [] = refl
unindent (line ∷ ls) = ap (λ l. line ∷ l) (unindent ls)

HasNoNewline-append : (s t : Text) → HasNoNewline s → HasNoNewline t → HasNoNewline (s ++ t)
HasNoNewline-append [] t a b = b
HasNoNewline-append (c ∷ s) t a b = (a.0, HasNoNewline-append s t a.1 b)

spaces-HasNoNewline : (n : ℕ) → HasNoNewline (replicate n 32)
spaces-HasNoNewline zero = tt
spaces-HasNoNewline (suc n) = ((λ e. ground (arith, e)), spaces-HasNoNewline n)

-- What stands before the description.
abbrev front : CliOption → Text
front opt = codes "  " ++ (padded (opt_str opt) ++ codes "  ")

length-front : (opt : CliOption) → length (opt_str opt) ≤ 14 → length (front opt) ≡ 18
length-front opt short =
    let o : Text = opt_str opt in
    omega (
      arith,
      short,
      length-append (padded o) (codes "  "),
      length-append o (replicate (14 - length o) 32),
      length-replicate {A = ℕ} (14 - length o) 32,
    )

front-HasNoNewline : (opt : CliOption) → HasNoNewline (opt_str opt) → HasNoNewline (front opt)
front-HasNoNewline opt h =
    let o : Text = opt_str opt in
    HasNoNewline-append (codes "  ") (padded o ++ codes "  ") (spaces-HasNoNewline 2) (
      HasNoNewline-append (padded o) (codes "  ")
        (HasNoNewline-append o (replicate (14 - length o) 32) h
          (spaces-HasNoNewline (14 - length o)))
        (spaces-HasNoNewline 2))

print_option-front :
    (opt : CliOption)
    → print_option opt ≡ front opt ++ (print_description opt.description ++ (10 ∷ []))
unfolding print_option
print_option-front opt =
    let o : Text = padded (opt_str opt) in
    ap (λ t. codes "  " ++ t)
      (sym (append_assoc o (codes "  ") (print_description opt.description ++ (10 ∷ []))))

-- For an option whose text has at most 14 characters and no end of a line: what stands from column 18
-- on in the lines printed for it are the lines of its description, then the empty rest.
pub lines-print_option :
    (opt : CliOption)
    → HasNoNewline (opt_str opt)
    → length (opt_str opt) ≤ 14
    → from_column 18 (lines (print_option opt)) ≡ lines opt.description ++ ([] ∷ [])
lines-print_option opt h short =
    let (first, others, is, printed) = lines-print_description opt.description in
    let text : Text = print_description opt.description ++ (10 ∷ []) in
    let size = length-front opt short in
    let shape : lines (print_option opt)
        ≡ (front opt ++ first) ∷ (map (λ l. replicate 18 32 ++ l) others ++ ([] ∷ [])) =
      ap lines (print_option-front opt)
      ∙ lines_before (front opt) text (front-HasNoNewline opt h)
      ∙ ap (put_before (front opt)) printed
      ∙ put_before_first (front opt) first (map (λ l. replicate 18 32 ++ l) others ++ ([] ∷ [])) in
    let behind : drop 18 (front opt ++ first) ≡ first =
      ap (λ n. drop n (front opt ++ first)) (sym size) ∙ drop-append (front opt) first in
    ap (from_column 18) shape
    ∙ ap₂ (λ l ls. l ∷ ls) behind (unindent others)
    ∙ ap (λ ls. ls ++ ([] ∷ [])) (sym is)
