-- ===== src/Base/Errors.antt =====
-- Go errors: the program's sentinels, other errors by their text, and `fmt.Errorf("...: %w", err)`.
-- `errors_is` is `errors.Is`, which looks through every wrapping.
use Prim.Native.Nat.{ℕ}
use mathlib.Core.Bool.{Bool, false}
use wapgo.Base.Tests.{◌==◌}
use wapgo.Base.Text.{Text}
use wapgo.Base.Results.{Result, ok, err}

pub data Sentinel : Type 0 where
  record_not_found cache_miss : Sentinel
  not_found email_conflict invalid_uuid : Sentinel
  invalid_credentials invalid_token : Sentinel

pub data GoError : Type 0 where
  sentinel : Sentinel → GoError
  other : Text → GoError
  wrapped : Text → GoError → GoError

abbrev pub rank : Sentinel → ℕ
rank record_not_found = 0
rank cache_miss = 1
rank not_found = 2
rank email_conflict = 3
rank invalid_uuid = 4
rank invalid_credentials = 5
rank invalid_token = 6

unfoldable pub errors_is : GoError → Sentinel → Bool
errors_is (sentinel s) t = rank s == rank t
errors_is (other text) t = false
errors_is (wrapped text e) t = errors_is e t

-- `if err != nil { return fmt.Errorf("text: %w", err) }`
abbrev pub wrap : {A : Type 0} → Text → Result GoError A → Result GoError A
wrap text (ok a) = ok a
wrap text (err e) = err (wrapped text e)
