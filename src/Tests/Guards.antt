-- ===== src/Tests/Guards.antt =====
-- Signing, verifying and the middleware on the small service.
use wapgo.Tests.Token.{
  fits, get_claims, get_option, get_text, has_key, parse, put_claims, put_list, put_option,
  put_text, read_list, signed,
}
use wapgo.Base.{ℕ, ◌*◌, ◌^◌, ◌≡◌, ◌++◌, refl, some, [], Result, ok, err}
use wapgo.Base.Text.{Text, codes}
use wapgo.Auth.MemoryBlacklist.{MemoryBlacklist, new_memory_blacklist}
use wapgo.Auth.MemoryBlacklist as Memory
use wapgo.Auth.Blacklist.{memory_blacklist}
use wapgo.Auth.Jwt.{JwtError, Claims, sign, new_claims, access, refresh}
use wapgo.Auth.Middleware.{middleware, next, bearer}
use wapgo.Tests.Token.{token_lib}
use wapgo.Tests.Service.{config}

abbrev second : ℕ
second = 10 ^ 9

abbrev signed_or : Result JwtError (Text × Text) → Text
signed_or (ok (t, id)) = t
signed_or (err e) = []

abbrev access_token : Text
access_token = signed_or (sign token_lib second (codes "j") (codes "1") [] access config)

abbrev claims : Claims
claims = new_claims token_lib second (codes "j") (codes "1") [] access config

access_signed :
    sign token_lib second (codes "j") (codes "1") [] access config ≡ ok (access_token, codes "j")
unfolding sign
access_signed = refl

passed :
    (middleware token_lib config
      (some memory_blacklist)
      (5 * second)
      (bearer ++ access_token)
      new_memory_blacklist).0
    ≡ next claims
unfolding middleware parse has_key get_text sign signed put_text fits get_claims put_claims
    read_list put_list get_option put_option Memory.is_revoked new_memory_blacklist
passed = refl

abbrev refresh_token : Text
refresh_token = signed_or (
    sign token_lib second (codes "r") (codes "1") [] refresh
      (record config { expiry = 60 * second }))

refresh_signed :
    sign token_lib second
      (codes "r")
      (codes "1")
      []
      refresh
      (record config { expiry = 60 * second })
    ≡ ok (refresh_token, codes "r")
unfolding sign
refresh_signed = refl
