-- ===== src/Cli/Upgrade.antt =====
-- cli/commands/upgrade.go. GitHub's answer (the tag of the latest release, or an error) and `go
-- install` (whether it succeeds) are arguments; what is printed is left out.
pub mod Order
pub mod Laws
use wapgo.Base.{
  ℕ, zero, suc, ◌+◌, ◌-◌, ◌*◌, Bool, true, false, not, ◌&&◌, ◌||◌, Option, none, some, List, [],
  ◌∷◌, ◌++◌, ltb, leb, ◌==◌, if◌then◌else◌, Result, ok, err,
}
use wapgo.Base.Int.{ℤ, pos, negsuc, ltb_ℤ}
use wapgo.Base.Text.{Text, codes, text_eq}
use wapgo.Base.Ascii.{is_digit, is_alnum}
use wapgo.Base.Strings.{cut_at, trim_prefix}
use wapgo.Cli.Regex.{Regex, byte, lit, alt, seq, star, plus, opt, matches}

abbrev pub upgrade_install_pkg : Text
upgrade_install_pkg = codes "github.com/abdullahPrasetio/wapgo/cli/wapgo"

-- `0|[1-9][0-9]*`
abbrev pub number : Regex
number = alt (lit b'0') (seq (byte (λ c. leb b'1' c && leb c b'9')) (star (byte is_digit)))

-- `[0-9A-Za-z]+(\.[0-9A-Za-z]+)*`, after a mark
abbrev pub marked_identifiers : ℕ → Regex
marked_identifiers mark =
    seq (lit mark) (seq (plus (byte is_alnum)) (star (seq (lit b'.') (plus (byte is_alnum)))))

abbrev pub release_tag_re : Regex
release_tag_re = seq (lit b'v') (
    seq number (
      seq (lit b'.') (
        seq number (
          seq (lit b'.')
            (seq number (seq (opt (marked_identifiers b'-')) (opt (marked_identifiers b'+'))))))))

unfoldable pub validate_release_tag : Text → Bool
unfolding matches
validate_release_tag tag = matches release_tag_re tag

abbrev pub two_to_63 : ℕ
two_to_63 = 9_223_372_036_854_775_808

abbrev pub max_uint64 : ℕ
max_uint64 = 18_446_744_073_709_551_615

-- The loop of `strconv.ParseUint`: `none` at a byte that is no digit, and the greatest number once
-- the value is above it.
unfoldable pub scan : Text → ℕ → Option ℕ
scan [] n = some n
scan (c ∷ s) n =
    let m = n * 10 + (c - b'0') in
    let rest = scan s m in
    if is_digit c then (if leb m max_uint64 then rest else some max_uint64) else none

abbrev pub cut_int : Bool → Option ℕ → ℤ
cut_int minus none = pos 0
cut_int true (some zero) = pos 0
cut_int true (some (suc n)) = if ltb n two_to_63 then negsuc n else negsuc (two_to_63 - 1)
cut_int false (some n) = if ltb n two_to_63 then pos n else pos (two_to_63 - 1)

abbrev pub digits_of : Bool → Text → ℤ
digits_of minus [] = pos 0
digits_of minus (c ∷ s) = cut_int minus (scan (c ∷ s) 0)

-- `n, _ := strconv.Atoi(s)`: 0 if `s` is no number, and the nearest `int` if it does not fit.
unfoldable pub atoi : Text → ℤ
unfolding scan
atoi [] = pos 0
atoi (c ∷ s) =
    if c == b'-'
    then digits_of true s
    else (if c == b'+' then digits_of false s else digits_of false (c ∷ s))

pub record Version : Type 0 where
  pub major : ℤ
  pub minor : ℤ
  pub patch : ℤ

-- The text behind the byte at which it is cut.
abbrev pub behind : Text → Text
behind [] = []
behind (c ∷ s) = s

-- `strings.SplitN(v, ".", 3)` cuts at the first two dots; a part that is missing stays 0, as `atoi`
-- of the empty text is.
unfoldable pub semver_parts : Text → Version
unfolding cut_at atoi
semver_parts v =
    let core = (cut_at (λ c. c == b'-' || c == b'+') v).0 in
    let (a, rest) = cut_at (λ c. c == b'.') core in
    let (b, last) = cut_at (λ c. c == b'.') (behind rest) in
    record { major = atoi a; minor = atoi b; patch = atoi (behind last) }

abbrev pub eq_ℤ : ℤ → ℤ → Bool
eq_ℤ a b = not (ltb_ℤ a b) && not (ltb_ℤ b a)

-- One round of the loop of `semverGreater`, with what the next rounds say.
unfoldable pub round : ℤ → ℤ → Bool → Bool
round a b next = if eq_ℤ a b then next else ltb_ℤ b a

unfoldable pub parts_greater : Version → Version → Bool
unfolding round
parts_greater a b = round a.major b.major (round a.minor b.minor (round a.patch b.patch false))

unfoldable pub semver_greater : Text → Text → Bool
unfolding semver_parts parts_greater
semver_greater a b = parts_greater (semver_parts a) (semver_parts b)

pub data Report : Type 0 where
  offline dev_build up_to_date update_available : Report
  unexpected_tag install_failed upgraded : Report

-- What is reported, and what `go install` was run on.
unfoldable pub run_upgrade : Text → Bool → Result Text Text → (Text → Bool) → Report × Option Text
run_upgrade version check_only release install = elim release [
  | err e ↦ (offline, none)
  | ok latest_tag ↦
      if text_eq version (codes "dev")
      then (dev_build, none)
      else (if semver_greater (trim_prefix latest_tag (codes "v")) (trim_prefix version (codes "v"))
          then (if check_only
              then (update_available, none)
              else (if validate_release_tag latest_tag
                  then (let ref = upgrade_install_pkg ++ codes "@" ++ latest_tag in
                      (if install ref then upgraded else install_failed, some ref))
                  else (unexpected_tag, none)))
          else (up_to_date, none))
]
