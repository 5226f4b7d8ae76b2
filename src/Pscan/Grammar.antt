-- ===== src/Pscan/Grammar.antt =====
-- The grammar of JSON, as far as the reports of src/pscan.c need it: a text that it derives is JSON.
use knetutils.Base.{ℕ}
use knetutils.Base.{◌≡◌, ◌≢◌, arith}
use knetutils.Base.{Bool, true, not, ◌&&◌, ◌||◌, [], ◌∷◌, ◌++◌}
use knetutils.Base.{leb, ◌==◌}
use knetutils.Base.{Text}

-- The ASCII characters that a string holds without an escape.
abbrev pub is_plain : ℕ → Bool
is_plain c = leb 32 c && leb c 126 && not (c == b'"' || c == b'\\')

abbrev pub is_space : ℕ → Bool
is_space c = c == b' ' || c == b'\n'

abbrev pub is_digit : ℕ → Bool
is_digit c = leb b'0' c && leb c b'9'

abbrev pub All : (ℕ → Bool) → Text → Type 0
All test [] = Unit
All test (c ∷ text) = (test c ≡ true) × All test text

abbrev pub all_of : (ℕ → Bool) → Text → Bool
all_of test [] = true
all_of test (c ∷ text) = test c && all_of test text

pub checked : (test : ℕ → Bool) (text : Text) → all_of test text ≡ true → All test text
checked test [] h = tt
checked test (c ∷ text) h =
    let (here, rest) : (test c ≡ true) × (all_of test text ≡ true) = ground (arith, h) in
    (here, checked test text rest)

abbrev pub quoted : Text → Text
quoted s = b'"' ∷ (s ++ (b'"' ∷ []))

-- The integer 0, or a digit that is not 0 and more digits.
pub data IsWhole : Text → Type 0 where
  nought : (text : Text) → text ≡ b'0' ∷ [] → IsWhole text
  digits :
      (d : ℕ) (ds text : Text)
      → is_digit d ≡ true
      → d ≢ b'0'
      → All is_digit ds
      → text ≡ d ∷ ds
      → IsWhole text

pub data IsNumber : Text → Type 0 where
  integer : (text : Text) → IsWhole text → IsNumber text
  fraction :
      (front : Text) (d : ℕ) (ds text : Text)
      → IsWhole front
      → All is_digit (d ∷ ds)
      → text ≡ front ++ (b'.' ∷ (d ∷ ds))
      → IsNumber text

pub data Kind : Type 0 where
  value members elements : Kind

pub data IsJson : Kind → Text → Type 0 where
  number : (text : Text) → IsNumber text → IsJson value text
  string : (s text : Text) → All is_plain s → text ≡ quoted s → IsJson value text
  object : (m text : Text) → IsJson members m → text ≡ b'{' ∷ (m ++ (b'}' ∷ [])) → IsJson value text
  array : (m text : Text) → IsJson elements m → text ≡ b'[' ∷ (m ++ (b']' ∷ [])) → IsJson value text
  empty_array :
      (s text : Text) → All is_space s → text ≡ b'[' ∷ (s ++ (b']' ∷ [])) → IsJson value text
  spaced :
      (kind : Kind) (before v after text : Text)
      → All is_space before
      → IsJson kind v
      → All is_space after
      → text ≡ before ++ (v ++ after)
      → IsJson kind text
  member :
      (before key v text : Text)
      → All is_space before
      → All is_plain key
      → IsJson value v
      → text ≡ before ++ (quoted key ++ (b':' ∷ v))
      → IsJson members text
  more_members :
      (m n text : Text)
      → IsJson members m
      → IsJson members n
      → text ≡ m ++ (b',' ∷ n)
      → IsJson members text
  element : (v : Text) → IsJson value v → IsJson elements v
  more_elements :
      (m n text : Text)
      → IsJson elements m
      → IsJson elements n
      → text ≡ m ++ (b',' ∷ n)
      → IsJson elements text
