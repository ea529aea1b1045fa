-- ===== src/Tests/Service.antt =====
-- A small service: the in-process cache and blacklist, the table of users, and a hash that is the
-- password after the letter h. An identifier is its own text.
use wapgo.Base.{ℕ, ◌*◌, ◌^◌, Bool, Option, none, some, List, [], ◌∷◌, ◌++◌, ◌≡◌, refl}
use wapgo.Base.Text.{Text, codes, text_eq}
use wapgo.Cache.Memory.{Cacher}
use wapgo.Cache.Memory as Memory
use wapgo.Cache.Interface.{CacheOps, memory_cache}
use wapgo.Auth.MemoryBlacklist.{MemoryBlacklist, new_memory_blacklist}
use wapgo.Auth.Blacklist.{memory_blacklist}
use wapgo.Auth.Jwt.{Config}
use wapgo.Users.Entity.{User}
use wapgo.Users.Repository.{UserRepository, new_user_repository}
use wapgo.AuthUseCase.{AuthUseCase, World, Draws, Doc, new_auth_use_case}
use wapgo.AuthUseCase.Operations.{LoginRequest}
use wapgo.Tests.Token.{token_lib}
use wapgo.Tests.Table.{table}

abbrev pub secret : Text
secret = codes "0123456789abcdef0123456789abcdef"

abbrev pub config : Config
config = record {
  secret = secret;
  issuer = codes "wapgo";
  audience = codes "api";
  expiry = 900 * 10 ^ 9;
}

abbrev pub hash_of : ℕ → Text → Option Text
hash_of cost password = some (codes "h" ++ password)

abbrev pub hash_fits : Text → Text → Bool
hash_fits hash password = text_eq hash (codes "h" ++ password)

abbrev pub cache_ops : CacheOps (Cacher Doc) Doc
cache_ops = memory_cache

abbrev pub repository : UserRepository (List User)
repository = new_user_repository table

abbrev pub service : AuthUseCase (List User) (Cacher Doc) MemoryBlacklist
service = record {
  user_repo = repository;
  cacher = cache_ops;
  jwt_cfg = config;
  refresh_cfg = record config { expiry = 7 * 24 * 60 * 60 * 10 ^ 9 };
  bl = some memory_blacklist;
  bcrypt_cost = 12;
  jwt = token_lib;
  generate_hash = hash_of;
  compare_hash = hash_fits;
  parse_uuid = λ t. some t;
  uuid_string = λ u. u;
}

-- The constructor builds this service.
service-new :
    new_auth_use_case token_lib hash_of hash_fits
      (λ t. some t)
      (λ u. u)
      repository
      cache_ops
      config
      (7 * 24 * 60 * 60 * 10 ^ 9)
      (some memory_blacklist)
      12
    ≡ service
unfolding new_auth_use_case
service-new = refl

abbrev pub ann : User
ann = record {
  id = codes "1";
  name = codes "Ann";
  email = codes "ann@x.io";
  password = codes "hpass";
  created_at = 0;
  updated_at = 0;
  deleted_at = none;
}

abbrev pub world : World (List User) (Cacher Doc) MemoryBlacklist
world = record { users = ann ∷ []; cache = Memory.new (codes ""); revoked = new_memory_blacklist }

abbrev pub draws : Draws
draws = record { access_jti = codes "a1"; refresh_jti = codes "r1" }

abbrev pub next_draws : Draws
next_draws = record { access_jti = codes "a2"; refresh_jti = codes "r2" }

abbrev pub credentials : LoginRequest
credentials = record { email = codes "ann@x.io"; password = codes "pass" }
