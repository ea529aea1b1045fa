-- ===== src/Tests/Degraded.antt =====
-- The session use cases over a Redis that answers for sessions and fails for versions.
use wapgo.Auth.Jwt.{sign}
use wapgo.AuthUseCase.{issue_token_pair, store_session, version_of}
use wapgo.AuthUseCase.Operations.{login}
use wapgo.Base.Dict.{insert, retain}
use wapgo.Base.Errors.{errors_is}
use wapgo.Cache.Memory.{set, store, sweep_locked}
use wapgo.Pagination.{offset, page_num, page_size, scope, sort_column, sort_order}
use wapgo.Tests.Token.{
  fits, get_claims, get_list, get_option, get_text, has_key, is_running, is_started, parse,
  put_claims, put_list, put_option, put_text, put_times, read_list, signed,
}
use wapgo.Users.Entity.{before_create}
use wapgo.Users.Repository.{
  create, delete, exists_by_email, find_all, find_all_paged, find_by_email, find_by_id,
  new_user_repository, update,
}
use wapgo.Users.Repository.Contract.{find_live}
use wapgo.Base.{◌/◌, ◌≡◌, refl, true, none, some, List, [], ◌∷◌, ok, if◌then◌else◌}
use wapgo.Base.Text.{codes, text_eq}
use wapgo.Cache.Memory.{prefixed}
use wapgo.Cache.Redis.{Commands, found, failed, redis_cache}
use wapgo.Auth.Jwt as Jwt
use wapgo.Auth.Jwt.{Claims, new_claims, verify}
use wapgo.Auth.MemoryBlacklist.{MemoryBlacklist, new_memory_blacklist}
use wapgo.Users.Entity.{User}
use wapgo.AuthUseCase.{AuthUseCase, World, Doc, RefreshSession, session_doc, second}
use wapgo.AuthUseCase.Keys.{refresh_key, version_key}
use wapgo.AuthUseCase.Operations.{refresh}
use wapgo.AuthUseCase.RedisDown.{refresh_skips_version}
use wapgo.Tests.Token.{token_lib}
use wapgo.Tests.Service.{service, ann, next_draws}
use wapgo.Tests.Session.{later, tokens}

abbrev old_session : RefreshSession
old_session = record { subject = codes "1"; version = 0 }

abbrev commands : Commands (Unit {0}) Doc
commands = record {
  set = λ now k d ttl s. (none, s);
  get = λ now k s. (
    if text_eq k (codes "auth:ver:1")
        then failed (codes "timeout")
        else found (session_doc old_session),
    s,
  );
  del = λ ks s. (none, s);
  exists = λ now k s. ok 1;
}

abbrev degraded : AuthUseCase (List User) (Unit {0}) MemoryBlacklist
degraded = record {
  user_repo = service.user_repo;
  cacher = redis_cache commands [];
  jwt_cfg = service.jwt_cfg;
  refresh_cfg = service.refresh_cfg;
  bl = service.bl;
  bcrypt_cost = service.bcrypt_cost;
  jwt = service.jwt;
  generate_hash = service.generate_hash;
  compare_hash = service.compare_hash;
  parse_uuid = service.parse_uuid;
  uuid_string = service.uuid_string;
}

abbrev world : World (List User) (Unit {0}) MemoryBlacklist
world = record { users = ann ∷ []; cache = tt; revoked = new_memory_blacklist }

abbrev claims : Claims
claims = record {
  id = codes "r1";
  subject = codes "1";
  issuer = codes "wapgo";
  audience = codes "api" ∷ [];
  issued_at = some 0;
  not_before = some 0;
  expires_at = some 604_800_000_000_000;
  roles = [];
  token_type = codes "refresh";
}

verified : verify token_lib later tokens.refresh_token service.refresh_cfg ≡ ok claims
unfolding verify parse has_key get_text login new_user_repository find_live issue_token_pair sign
    store_session set signed put_text fits get_claims put_claims read_list refresh_key version_key
    version_of insert retain errors_is text_eq prefixed store sweep_locked offset page_num page_size
    scope sort_column sort_order get_list get_option is_running is_started put_list put_option
    put_times before_create create delete exists_by_email find_all find_all_paged find_by_email
    find_by_id update
verified = refl

there :
    (commands.get later (prefixed [] (refresh_key claims.id)) tt).0
    ≡ found (session_doc old_session)
unfolding text_eq prefixed refresh_key
there = refl

own : text_eq old_session.subject claims.subject ≡ true
unfolding text_eq
own = refl

down :
    (commands.get later (prefixed [] (version_key claims.subject)) tt).0 ≡ failed (codes "timeout")
unfolding text_eq prefixed version_key
down = refl

refresh_skips_version_example :
    (refresh degraded later next_draws tokens.refresh_token world).0
    ≡ ok (record {
      access_token =
          signed
            (new_claims token_lib later next_draws.access_jti claims.subject [] Jwt.access
              service.jwt_cfg)
            service.jwt_cfg.secret;
      refresh_token =
          signed
            (new_claims token_lib later next_draws.refresh_jti claims.subject [] Jwt.refresh
              service.refresh_cfg)
            service.refresh_cfg.secret;
      expires_in = service.jwt_cfg.expiry / second;
    })
unfolding sign find_by_id before_create new_user_repository find_live
refresh_skips_version_example =
    refresh_skips_version degraded later next_draws tokens.refresh_token world claims commands []
      refl verified old_session (codes "timeout") _ _ ann there own down (λ key d ttl s. refl) refl
      refl refl refl
