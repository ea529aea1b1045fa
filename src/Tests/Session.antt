-- ===== src/Tests/Session.antt =====
-- A session on the small service: `Login`, two uses of `Refresh`, and the refusals of a login.
use wapgo.Base.Dict.{erase, lookup}
use wapgo.Cache.Memory.Laws.{peek}
use wapgo.Base.Dict.{insert, retain}
use wapgo.Cache.Memory.{prefixed, store, sweep_locked}
use wapgo.Pagination.{offset, page_num, page_size, scope, sort_column, sort_order}
use wapgo.Tests.Token.{
  fits, get_claims, get_list, get_option, get_text, has_key, is_running, is_started, parse,
  put_claims, put_list, put_option, put_text, put_times, read_list, signed,
}
use wapgo.Users.Entity.{before_create}
use wapgo.Users.Repository.{create, delete, exists_by_email, find_all, find_all_paged, update}
use wapgo.Cache.Memory.{new}
use wapgo.Users.Repository.Contract.{find_live}
use wapgo.Base.{
  ℕ, ◌+◌, ◌*◌, ◌^◌, ◌≡◌, ◌≢◌, ◌∙◌, refl, sym, ap, List, [], Result, ok, err, ok_injective, arith,
}
use wapgo.Base.Text.{Text, codes, text_eq, text_eq_iff}
use wapgo.Base.Errors.{GoError, errors_is}
use wapgo.Cache.Memory.{Cacher, set, get, del}
use wapgo.Cache.Memory.Laws.{IsValid}
use wapgo.Cache.Interface.{memory_cache_laws}
use wapgo.Auth.MemoryBlacklist.{MemoryBlacklist}
use wapgo.Auth.Jwt as Jwt
use wapgo.Auth.Jwt.{Claims, new_claims, sign, verify}
use wapgo.Auth.Jwt.Laws.{verify-sign}
use wapgo.Users.Entity.{User}
use wapgo.Users.Repository.{new_user_repository, find_by_email, find_by_id}
use wapgo.AuthUseCase.{
  Doc, World, LoginResponse, version_of, store_session, issue_token_pair, invalid,
}
use wapgo.AuthUseCase.Keys.{refresh_key, version_key}
use wapgo.AuthUseCase.Operations as Operations
use wapgo.AuthUseCase.Operations.{LoginRequest, login}
use wapgo.AuthUseCase.Rotation.{refresh_once}
use wapgo.AuthUseCase.Renewal.{pair, refresh-login}
use wapgo.Tests.Token.{token_lib, token_lib-IsJwtLib}
use wapgo.Tests.Service.{config, service, world, ann, draws, next_draws, credentials}

-- The tokens of an answer.
abbrev pub answer : Result GoError LoginResponse → LoginResponse
answer (ok r) = r
answer (err e) = record { access_token = []; refresh_token = []; expires_in = 0 }

abbrev pub tokens : LoginResponse
tokens = answer (login service 0 draws credentials world).0

abbrev pub logged_in : World (List User) (Cacher Doc) MemoryBlacklist
logged_in = (login service 0 draws credentials world).1

login_ok : login service 0 draws credentials world ≡ (ok tokens, logged_in)
unfolding login new_user_repository find_live issue_token_pair sign store_session set
login_ok = refl

pub world_fit : IsValid world.cache
unfolding new
world_fit = tt

logged_in_fit : IsValid logged_in.cache
unfolding login new_user_repository find_live issue_token_pair sign store_session set version_of get
    new
logged_in_fit = (refl, tt)

-- Ten seconds later.
abbrev pub later : ℕ
later = 10 * 10 ^ 9

abbrev renewed_tokens : LoginResponse
renewed_tokens =
    answer (Operations.refresh service later next_draws tokens.refresh_token logged_in).0

abbrev renewed : World (List User) (Cacher Doc) MemoryBlacklist
renewed = (Operations.refresh service later next_draws tokens.refresh_token logged_in).1

refresh_ok :
    Operations.refresh service later next_draws tokens.refresh_token logged_in
    ≡ (ok renewed_tokens, renewed)
unfolding Operations.refresh verify parse has_key get_text login new_user_repository find_live
    issue_token_pair sign store_session set signed put_text fits get_claims put_claims refresh_key
    version_key Operations.reissue Operations.rotate version_of insert retain errors_is text_eq
    prefixed store sweep_locked offset page_num page_size scope sort_column sort_order get_list
    get_option is_running is_started put_list put_option put_times read_list before_create create
    delete exists_by_email find_all find_all_paged find_by_email find_by_id update get new
refresh_ok = refl

verified_id :
    (c : Claims)
    → verify token_lib later tokens.refresh_token service.refresh_cfg ≡ ok c
    → c.id ≡ codes "r1"
unfolding verify parse has_key get_text login new_user_repository find_live issue_token_pair sign
    store_session set signed put_text fits get_claims put_claims read_list refresh_key version_key
    version_of insert retain errors_is text_eq prefixed store sweep_locked offset page_num page_size
    scope sort_column sort_order get_list get_option is_running is_started put_list put_option
    put_times before_create create delete exists_by_email find_all find_all_paged find_by_email
    find_by_id update
verified_id c h = sym (ap (λ x. x.id) (ok_injective h))

fresh :
    (c : Claims)
    → verify token_lib later tokens.refresh_token service.refresh_cfg ≡ ok c
    → next_draws.refresh_jti ≢ c.id
fresh c h same = ground (arith, text_eq_iff (codes "r2") (codes "r1"), same ∙ verified_id c h)

refresh_once_example :
    (Operations.refresh service (later + 1) draws tokens.refresh_token renewed).0 ≡ err invalid
unfolding memory_cache_laws login
refresh_once_example =
    refresh_once service memory_cache_laws token_lib-IsJwtLib later (later + 1) next_draws draws
      tokens.refresh_token logged_in renewed renewed_tokens logged_in_fit (omega arith) fresh
      refresh_ok

refresh-login_example :
    (Operations.refresh service later next_draws tokens.refresh_token logged_in).0
    ≡ ok (pair service memory_cache_laws renewed_tokens.access_token renewed_tokens.refresh_token)
unfolding memory_cache_laws new new_user_repository find_live sign Operations.refresh signed verify
    put_text parse has_key get_text login issue_token_pair store_session fits get_claims put_claims
    read_list put_list refresh_key version_key Operations.reissue Operations.rotate version_of erase
    insert lookup retain errors_is text_eq peek del get prefixed set store sweep_locked offset
    page_num page_size scope sort_column sort_order get_list get_option is_running is_started
    put_option put_times before_create create delete exists_by_email find_all find_all_paged
    find_by_email find_by_id update
refresh-login_example =
    refresh-login service memory_cache_laws token_lib-IsJwtLib 0 later draws next_draws credentials
      world logged_in tokens ann renewed_tokens.access_token renewed_tokens.refresh_token world_fit
      (omega arith) (omega arith) login_ok refl refl refl refl refl

-- An access token of the service, read ten seconds later.
abbrev access_token : Text
access_token =
    signed (new_claims token_lib 0 (codes "a1") (codes "1") [] Jwt.access config) config.secret

access_signed :
    sign token_lib 0 (codes "a1") (codes "1") [] Jwt.access config ≡ ok (access_token, codes "a1")
unfolding sign
access_signed = refl

verify-sign_example :
    verify token_lib later access_token config
    ≡ ok (new_claims token_lib 0 (codes "a1") (codes "1") [] Jwt.access config)
verify-sign_example =
    verify-sign token_lib token_lib-IsJwtLib 0 later (codes "a1") (codes "1") [] Jwt.access config
      access_token (codes "a1") access_signed (omega arith) (omega arith)
