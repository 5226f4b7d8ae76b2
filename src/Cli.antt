-- ===== src/Cli.antt =====
-- The usage text that src/base/cli.c prints, as the characters that go to stderr.
pub mod Columns
use knetutils.Base.{ℕ, zero, suc, ◌+◌, ◌-◌, ◌*◌, ◌/◌, ◌%◌, ◌^◌, ◌≤◌, ◌<◌, min, max}
use knetutils.Base.{◌≡◌, refl, sym, ap, ap₂, ◌∙◌, ◌≢◌, ◌↔◌, ◌⊎◌, inl, inr, arith}
use knetutils.Base.{
  Bool, true, false, not, ◌&&◌, ◌||◌, Option, none, some, List, [], ◌∷◌, ◌++◌, map,
}
use knetutils.Base.{ltb, leb, ◌==◌, ◌!=◌, if◌then◌else◌, ==_iff, Bool-cases, Option-cases}
use knetutils.Base.{
  length, get_or, set, take, drop, replicate, length-append, length-replicate, take-append,
  drop-append,
}
use knetutils.Base.{length-set, get_or-set_self, get_or-set_ne, update}
use knetutils.Base.{u8, u16, u32, u64, sub32, sub64, sign_extend, swap16, has_bit}
use knetutils.Base.{
  byte_at, le32, le32_bytes, le16, be16, be32, be16_bytes, be32_bytes, le16_bytes, AgreeBelow,
  IsBytes, byte_at-append, byte_at-append_left, write, length-write,
}
use knetutils.Base.{Text, codes, same_text, same_text_refl, same_text_sound}
use knetutils.Base.{Family, unspec, inet, inet6, is_inet, is_inet6}
use mathlib.Core.List.{append_assoc}

pub record CliOption : Type 0 where
  pub short_opt : ℕ
  pub arg_name : Option Text
  pub description : Text

-- `options` ends where `short_opt` is 0.
pub record CliApp : Type 0 where
  pub prog_name : Option Text
  pub usage_args : Option Text
  pub options : Option (List CliOption)

-- What `snprintf` writes to `opt_str`, 32 bytes with the terminator.
abbrev opt_text : ℕ → Option Text → Text
opt_text short_opt none = b'-' ∷ short_opt ∷ []
opt_text short_opt (some arg_name) = b'-' ∷ short_opt ∷ 32 ∷ b'<' ∷ (arg_name ++ (b'>' ∷ []))

unfoldable pub opt_str : CliOption → Text
opt_str opt = take 31 (opt_text opt.short_opt opt.arg_name)

-- `%-14s`.
abbrev pub padded : Text → Text
padded s = s ++ replicate (14 - length s) 32

-- The characters of the description, with 18 spaces behind each end of a line.
unfoldable pub print_description : Text → Text
print_description [] = []
print_description (c ∷ desc) =
    let rest = print_description desc in
    if c == 10 then 10 ∷ (replicate 18 32 ++ rest) else c ∷ rest

unfoldable pub print_option : CliOption → Text
unfolding opt_str print_description
print_option opt =
    codes "  "
    ++ (padded (opt_str opt) ++ (codes "  " ++ (print_description opt.description ++ (10 ∷ []))))

unfoldable pub print_options : List CliOption → Text
unfolding print_option
print_options [] = []
print_options (opt ∷ opts) =
    let rest = print_options opts in if opt.short_opt == 0 then [] else print_option opt ++ rest

abbrev or_empty : Option Text → Text
or_empty none = []
or_empty (some s) = s

abbrev options_of : Option (List CliOption) → Text
options_of none = []
options_of (some opts) = print_options opts

abbrev named : CliApp → Option Text → Text
named app none = []
named app (some prog_name) =
    codes "Usage: "
    ++ (prog_name
        ++ (32
            ∷ (or_empty app.usage_args
                ++ (10 ∷ (codes "Options:" ++ (10 ∷ options_of app.options))))))

-- `none` for an `app` that is NULL.
unfoldable pub cli_print_help : Option CliApp → Text
unfolding print_options
cli_print_help none = []
cli_print_help (some app) = named app app.prog_name
