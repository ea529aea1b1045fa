-- ===== src/Cli/Upgrade/Laws.antt =====
-- What `wapgo upgrade` installs.
use wapgo.Base.{
  ℕ, ◌≡◌, ◌≢◌, refl, Bool, true, false, ◌||◌, none, some, ◌++◌, Result, ok, err, all, arith, ◌==◌,
  ==_iff, leb, ◌&&◌,
}
use wapgo.Base.Text.{Text, codes, text_eq, text_eq_iff, text_ne}
use wapgo.Base.Ascii.{is_digit, is_alnum}
use wapgo.Base.Strings.{trim_prefix}
use wapgo.Cli.Regex.Laws.{Matches, InClass, matches_iff, all-Matches}
use wapgo.Cli.Upgrade.{
  upgrade_install_pkg, number, marked_identifiers, release_tag_re, validate_release_tag,
  semver_greater, run_upgrade, up_to_date,
}
use wapgo.Cli.Upgrade.Order.{semver_greater_order}

-- The bytes of a release tag: letters, digits, and the three marks.
abbrev pub is_tag_byte : ℕ → Bool
is_tag_byte c = is_alnum c || (c == b'.' || (c == b'-' || c == b'+'))

digit_tag : (c : ℕ) → is_digit c ≡ true → is_tag_byte c ≡ true
digit_tag c h = ground arith

from_one_tag : (c : ℕ) → (leb b'1' c && leb c b'9') ≡ true → is_tag_byte c ≡ true
from_one_tag c h = ground arith

alnum_tag : (c : ℕ) → is_alnum c ≡ true → is_tag_byte c ≡ true
alnum_tag c h = ground arith

equal_tag : (d : ℕ) → is_tag_byte d ≡ true → (c : ℕ) → (c == d) ≡ true → is_tag_byte c ≡ true
equal_tag d t c h = rw ((==_iff c d).0 h) t

number-InClass : InClass is_tag_byte number
number-InClass = (equal_tag b'0' refl, (from_one_tag, digit_tag))

marked-InClass :
    (mark : ℕ) → is_tag_byte mark ≡ true → InClass is_tag_byte (marked_identifiers mark)
marked-InClass mark h =
    (equal_tag mark h, ((alnum_tag, alnum_tag), (equal_tag b'.' refl, (alnum_tag, alnum_tag))))

release_tag_re-InClass : InClass is_tag_byte release_tag_re
release_tag_re-InClass = (
  equal_tag b'v' refl,
  (
    number-InClass,
    (
      equal_tag b'.' refl,
      (
        number-InClass,
        (
          equal_tag b'.' refl,
          (number-InClass, ((marked-InClass b'-' refl, tt), (marked-InClass b'+' refl, tt))),
        ),
      ),
    ),
  ),
)

validate_release_tag-bytes :
    (tag : Text) → validate_release_tag tag ≡ true → all is_tag_byte tag ≡ true
unfolding validate_release_tag
validate_release_tag-bytes tag h =
    all-Matches is_tag_byte ((matches_iff release_tag_re tag).0 h) release_tag_re-InClass

pub record IsInstalled (version latest_tag ref : Text) : Type 0 where
  pub exact : ref ≡ upgrade_install_pkg ++ codes "@" ++ latest_tag
  pub matched : Matches release_tag_re latest_tag
  pub plain : all is_tag_byte latest_tag ≡ true
  pub newer :
      semver_greater (trim_prefix latest_tag (codes "v")) (trim_prefix version (codes "v")) ≡ true
  pub released : version ≢ codes "dev"

validate_release_tag-Matches :
    (tag : Text) → validate_release_tag tag ≡ true → Matches release_tag_re tag
unfolding validate_release_tag
validate_release_tag-Matches tag h = (matches_iff release_tag_re tag).0 h

module _ (version : Text) (check_only : Bool) (install : Text → Bool) where
  upgrade_facts :
      (tag ref : Text)
      → (run_upgrade version check_only (ok tag) install).1 ≡ some ref
      → (check_only ≡ false)
        × (text_eq version (codes "dev") ≡ false)
        × (semver_greater (trim_prefix tag (codes "v")) (trim_prefix version (codes "v")) ≡ true)
        × (validate_release_tag tag ≡ true)
        × (ref ≡ upgrade_install_pkg ++ codes "@" ++ tag)
  unfolding run_upgrade
  upgrade_facts tag ref ran = (ground arith, ground arith, ground arith, ground arith, ground arith)

  -- `go install` is run only on a release that was asked for and is newer: if it is run on a
  -- reference, the command was not only to check, the reference is the package with the latest tag,
  -- the tag is a semantic version by the release pattern, of letters, digits, dots, dashes and plus
  -- signs only, it is greater than the installed version, and that is no development build.
  pub run_upgrade-IsInstalled :
      (release : Result Text Text) (ref : Text)
      → (run_upgrade version check_only release install).1 ≡ some ref
      → (check_only ≡ false) × ((tag : Text) × (release ≡ ok tag) × IsInstalled version tag ref)
  unfolding run_upgrade
  run_upgrade-IsInstalled (err e) ref ran = cc
  run_upgrade-IsInstalled (ok tag) ref ran =
      let (asked, built, newer, valid, exact) = upgrade_facts tag ref ran in
      (
        asked,
        (
          tag,
          refl,
          record {
            exact = exact;
            matched = validate_release_tag-Matches tag valid;
            plain = validate_release_tag-bytes tag valid;
            newer = newer;
            released = λ dev. cc (built, (text_eq_iff version (codes "dev")).1 dev);
          },
        ),
      )

-- An upgrade is made once: when the installed version is the latest tag, and that is not `dev`, the
-- command reports that it is up to date, and installs nothing.
pub run_upgrade_once :
    (tag : Text) (check_only : Bool) (install : Text → Bool)
    → tag ≢ codes "dev"
    → run_upgrade tag check_only (ok tag) install ≡ (up_to_date, none)
unfolding run_upgrade
run_upgrade_once tag check_only install h =
    let t = trim_prefix tag (codes "v") in
    rw (text_ne tag (codes "dev") h, (semver_greater_order t t t).0) refl
