-- ===== src/Tests/Logout.antt =====
-- `Logout` on the small service.
use wapgo.Auth.Jwt.{sign}
use wapgo.Auth.MemoryBlacklist.{is_revoked, new_memory_blacklist, revoke, swept}
use wapgo.Auth.MemoryBlacklist.Laws.{is_banned}
use wapgo.AuthUseCase.{issue_token_pair, store_session, version_of}
use wapgo.AuthUseCase.Keys.{refresh_key, version_key}
use wapgo.Base.Dict.{erase, insert, lookup, retain}
use wapgo.Base.Errors.{errors_is}
use wapgo.Cache.Memory.{prefixed, set, store, sweep_locked}
use wapgo.Pagination.{offset, page_num, page_size, scope, sort_column, sort_order}
use wapgo.Tests.Token.{
  fits, get_claims, get_list, get_option, get_text, has_key, is_running, is_started, parse,
  put_claims, put_list, put_option, put_text, put_times, read_list, signed,
}
use wapgo.Users.Entity.{before_create}
use wapgo.Users.Repository.{
  create, delete, exists_by_email, find_all, find_all_paged, find_by_email, find_by_id,
  new_user_repository, update,
}
use wapgo.Users.Repository.Contract.{find_live}
use wapgo.Base.{
  ◌*◌, ◌≡◌, ◌≢◌, ◌∙◌, ◌++◌, refl, sym, ap, false, some, List, [], ok, ok_injective, arith,
}
use wapgo.Base.Text.{codes, text_eq, text_eq_iff}
use wapgo.Cache.Memory.{Cacher}
use wapgo.Auth.MemoryBlacklist.{MemoryBlacklist}
use wapgo.Auth.MemoryBlacklist.Laws.{IsValid}
use wapgo.Auth.Blacklist.{memory_blacklist, memory_blacklist_laws}
use wapgo.Auth.Jwt.{Claims, verify, new_claims, access}
use wapgo.Auth.Middleware.{middleware, next, bearer}
use wapgo.Users.Entity.{User}
use wapgo.AuthUseCase.{Doc, World, second}
use wapgo.AuthUseCase.Operations as Operations
use wapgo.AuthUseCase.Operations.{logout}
use wapgo.AuthUseCase.ClosedAccess.{middleware-logout}
use wapgo.Tests.Token.{token_lib, token_lib-IsJwtLib}
use wapgo.Tests.Service.{service, ann, draws}
use wapgo.Tests.Session.{tokens, logged_in}

abbrev logged_out : World (List User) (Cacher Doc) MemoryBlacklist
logged_out = (logout service second tokens.access_token tokens.refresh_token logged_in).1

logout_ok :
    logout service second tokens.access_token tokens.refresh_token logged_in ≡ (ok tt, logged_out)
unfolding logout verify parse has_key get_text Operations.login new_user_repository find_live
    issue_token_pair sign store_session set signed put_text fits get_claims put_claims refresh_key
    version_key Operations.end_session Operations.revoke_claims version_of insert retain errors_is
    text_eq prefixed store sweep_locked offset page_num page_size scope sort_column sort_order
    get_list get_option is_running is_started put_list put_option put_times read_list before_create
    create delete exists_by_email find_all find_all_paged find_by_email find_by_id update revoke
logout_ok = refl

abbrev access_claims : Claims
access_claims = new_claims token_lib 0 draws.access_jti ann.id [] access service.jwt_cfg

not_empty : text_eq tokens.refresh_token [] ≡ false
unfolding text_eq Operations.login new_user_repository find_live issue_token_pair sign store_session
    set signed put_text
not_empty = refl

named : access_claims.id ≢ []
named same = ground (arith, text_eq_iff access_claims.id [], same)

other_id :
    (c : Claims)
    → verify token_lib second tokens.refresh_token service.refresh_cfg ≡ ok c
    → c.id ≡ codes "r1"
unfolding verify parse has_key get_text Operations.login new_user_repository find_live
    issue_token_pair sign store_session set signed put_text fits get_claims put_claims read_list
    refresh_key version_key version_of insert retain errors_is text_eq prefixed store sweep_locked
    offset page_num page_size scope sort_column sort_order get_list get_option is_running is_started
    put_list put_option put_times before_create create delete exists_by_email find_all
    find_all_paged find_by_email find_by_id update
other_id c h = sym (ap (λ x. x.id) (ok_injective h))

apart :
    (c : Claims)
    → verify token_lib second tokens.refresh_token service.refresh_cfg ≡ ok c
    → c.id ≢ access_claims.id
apart c h same = ground (arith, text_eq_iff (codes "r1") (codes "a1"), sym (other_id c h) ∙ same)

logged_in_fit : IsValid logged_in.revoked
unfolding Operations.login new_user_repository find_live new_memory_blacklist
logged_in_fit = tt

middleware-logout_example :
    (middleware token_lib service.jwt_cfg
      (some memory_blacklist)
      (2 * second)
      (bearer ++ tokens.access_token)
      logged_out.revoked).0
    ≢ next access_claims
unfolding memory_blacklist_laws Operations.login verify parse has_key get_text new_user_repository
    find_live issue_token_pair sign store_session set signed put_text fits get_claims put_claims
    read_list is_banned is_revoked revoke swept refresh_key version_key version_of erase insert
    lookup retain errors_is text_eq prefixed store sweep_locked offset page_num page_size scope
    sort_column sort_order get_list get_option is_running is_started put_list put_option put_times
    before_create create delete exists_by_email find_all find_all_paged find_by_email find_by_id
    update
middleware-logout_example =
    middleware-logout service token_lib-IsJwtLib memory_blacklist memory_blacklist_laws refl second
      (2 * second) tokens.access_token tokens.refresh_token logged_in logged_out access_claims
      access_claims logged_in_fit refl named apart logout_ok (omega arith)
