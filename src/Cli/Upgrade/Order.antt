-- ===== src/Cli/Upgrade/Order.antt =====
-- The comparison of versions as an order.
use wapgo.Base.{◌≡◌, refl, Bool, true, false, arith, ◌⊎◌}
use wapgo.Base.Int.{ℤ}
use wapgo.Base.Text.{Text}
use wapgo.Cli.Upgrade.{Version, round, parts_greater, semver_parts, semver_greater}

round_irrefl : (a : ℤ) (next : Bool) → round a a next ≡ next
unfolding round
round_irrefl a next = ground arith

round_trans :
    (a b c : ℤ) (p q r : Bool)
    → (p ≡ true → q ≡ true → r ≡ true)
    → round a b p ≡ true
    → round b c q ≡ true
    → round a c r ≡ true
unfolding round
round_trans a b c true true r step h k = let e : r ≡ true = step refl refl in ground arith
round_trans a b c true false r step h k = ground arith
round_trans a b c false q r step h k = ground arith

round_total :
    (a b : ℤ) (p q : Bool)
    → round a b p ≡ false
    → round b a q ≡ false
    → (a ≡ b) × (p ≡ false) × (q ≡ false)
unfolding round
round_total a b p q h k = ground arith

module _ (a b c : Version) where
  parts_irrefl : parts_greater a a ≡ false
  unfolding parts_greater
  parts_irrefl = rw (round_irrefl a.major, round_irrefl a.minor, round_irrefl a.patch)

  parts_trans : parts_greater a b ≡ true → parts_greater b c ≡ true → parts_greater a c ≡ true
  unfolding parts_greater
  parts_trans = round_trans a.major b.major c.major _ _ _ (
      round_trans a.minor b.minor c.minor _ _ _
        (round_trans a.patch b.patch c.patch false false false (λ h k. h)))

  parts_total : parts_greater a b ≡ false → parts_greater b a ≡ false → a ≡ b
  unfolding parts_greater
  parts_total h k =
      let (e, h', k') = round_total a.major b.major _ _ h k in
      let (f, h'', k'') = round_total a.minor b.minor _ _ h' k' in
      let (g, _, _) = round_total a.patch b.patch _ _ h'' k'' in ground arith

  parts_order :
      (parts_greater a a ≡ false)
      × ((parts_greater a b ≡ false) ⊎ (parts_greater b c ≡ false) ⊎ (parts_greater a c ≡ true))
      × ((parts_greater a b ≡ true) ⊎ (parts_greater b a ≡ true) ⊎ (a ≡ b))
  parts_order = (parts_irrefl, ground (arith, parts_trans), ground (arith, parts_total))

-- Versions are compared by a strict order: no version is greater than itself, greater is
-- transitive, and of two versions neither of which is greater, the three numbers are the same.
pub semver_greater_order :
    (a b c : Text)
    → (semver_greater a a ≡ false)
      × ((semver_greater a b ≡ false) ⊎ (semver_greater b c ≡ false) ⊎ (semver_greater a c ≡ true))
      × ((semver_greater a b ≡ true)
          ⊎ (semver_greater b a ≡ true)
          ⊎ (semver_parts a ≡ semver_parts b))
unfolding semver_greater
semver_greater_order a b c = parts_order (semver_parts a) (semver_parts b) (semver_parts c)
