-- ===== src/Tests/Reset.antt =====
-- `ForgotPassword` and `ResetPassword` on the small service.
use wapgo.Auth.Jwt.{sign}
use wapgo.AuthUseCase.{issue_token_pair, store_session, version_of}
use wapgo.Base.Dict.{erase, insert, lookup, retain}
use wapgo.Base.Errors.{errors_is}
use wapgo.Cache.Memory.{del, get, new, prefixed, store, sweep_locked}
use wapgo.Cache.Memory.Laws.{peek}
use wapgo.Pagination.{offset, page_num, page_size, scope, sort_column, sort_order}
use wapgo.Tests.Token.{
  fits, get_claims, get_list, get_option, get_text, has_key, is_running, is_started, parse,
  put_claims, put_list, put_option, put_text, put_times, read_list, signed,
}
use wapgo.Users.Entity.{before_create}
use wapgo.Users.Repository.{
  create, delete, exists_by_email, find_all, find_all_paged, find_by_email, find_by_id,
  new_user_repository, update,
}
use wapgo.Users.Repository.Contract.{find_live}
use wapgo.Base.{◌*◌, ◌≡◌, refl, List, [], ok, err, arith}
use wapgo.Base.Int.{pos}
use wapgo.Base.Text.{Text, codes, text_eq}
use wapgo.Cache.Memory.{Cacher, set}
use wapgo.Cache.Memory.Laws.{IsValid}
use wapgo.Cache.Interface.{memory_cache_laws}
use wapgo.Auth.MemoryBlacklist.{MemoryBlacklist}
use wapgo.Auth.Jwt.{Claims, verify, new_claims, refresh}
use wapgo.Users.Entity.{User}
use wapgo.AuthUseCase.{Doc, number_doc, World, LoginResponse, invalid, second}
use wapgo.AuthUseCase.Keys.{refresh_key, version_key, reset_key}
use wapgo.AuthUseCase.Operations as Operations
use wapgo.AuthUseCase.Operations.{ResetPasswordRequest, login, forgot_password, reset_password}
use wapgo.AuthUseCase.Renewal.{pair}
use wapgo.AuthUseCase.Reset.{ResetParts, IsReset, reset_password-IsReset}
use wapgo.AuthUseCase.ResetToken.{reset_password_once}
use wapgo.AuthUseCase.ResetSessions.{refresh_after_reset, refresh_survives_reset}
use wapgo.Tests.Token.{token_lib}
use wapgo.Tests.Service.{service, world, ann, draws, next_draws, credentials}
use wapgo.Tests.Session.{answer, tokens, logged_in}

abbrev token : Text
token = codes "reset-1"

abbrev asked : World (List User) (Cacher Doc) MemoryBlacklist
asked = (forgot_password service second token ann.email logged_in).1

abbrev request : ResetPasswordRequest
request = record { token = token; password = codes "new pass" }

abbrev reset : World (List User) (Cacher Doc) MemoryBlacklist
reset = (reset_password service (2 * second) request asked).1

asked_fit : IsValid asked.cache
unfolding forgot_password new_user_repository find_live login set issue_token_pair sign
    store_session version_of get new refresh_key reset_key
asked_fit = (refl, (refl, tt))

reset_ok : reset_password service (2 * second) request asked ≡ (ok tt, reset)
unfolding reset_password get forgot_password new_user_repository find_live login set
    issue_token_pair sign store_session version_of new refresh_key reset_key Operations.set_password
reset_ok = refl

reset_password-IsReset_example :
    IsReset service memory_cache_laws (2 * second) (3 * second) request asked reset
unfolding memory_cache_laws forgot_password
reset_password-IsReset_example =
    reset_password-IsReset service memory_cache_laws (2 * second) (3 * second) request asked reset
      asked_fit (omega arith) reset_ok

reset_password_once_example : (reset_password service (3 * second) request reset).0 ≡ err invalid
unfolding memory_cache_laws forgot_password
reset_password_once_example =
    reset_password_once service memory_cache_laws (2 * second) (3 * second) request request asked
      reset asked_fit (omega arith) refl reset_ok

-- The reset above, written out.
done : ResetParts service memory_cache_laws (2 * second) request asked reset
unfolding memory_cache_laws peek lookup forgot_password new_user_repository find_live login
    issue_token_pair sign store_session version_of get new refresh_key reset_key reset_password
    Operations.set_password version_key Operations.bump_version erase insert retain errors_is
    text_eq del prefixed set store sweep_locked offset page_num page_size scope sort_column
    sort_order before_create create delete exists_by_email find_all find_all_paged find_by_email
    find_by_id update
done = record {
  email = ann.email;
  user = ann;
  hash = codes "hnew pass";
  saved = record ann { password = codes "hnew pass" };
  stored = refl;
  found = refl;
  hashed = refl;
  written = refl;
  bumped = refl;
  same_revoked = refl;
}

abbrev claims : Claims
claims = new_claims token_lib 0 draws.refresh_jti ann.id [] refresh service.refresh_cfg

refresh_after_reset_example :
    (Operations.refresh service (3 * second) next_draws tokens.refresh_token reset).0 ≡ err invalid
unfolding memory_cache_laws forgot_password verify parse has_key get_text login new_user_repository
    find_live issue_token_pair sign store_session signed put_text fits get_claims put_claims
    read_list refresh_key reset_key version_key version_of erase insert lookup retain errors_is
    text_eq peek del get prefixed set store sweep_locked offset page_num page_size scope sort_column
    sort_order get_list get_option is_running is_started put_list put_option put_times before_create
    create delete exists_by_email find_all find_all_paged find_by_email find_by_id update done
refresh_after_reset_example =
    refresh_after_reset service memory_cache_laws (2 * second) (3 * second) request asked reset done
      next_draws tokens.refresh_token claims (record { subject = ann.id; version = 0 }) asked_fit
      (omega arith) (omega arith) refl refl refl (omega arith)

-- A user whose version is 1 logs in, its version expires, and a reset counts from 0 again.
abbrev aged : World (List User) (Cacher Doc) MemoryBlacklist
aged = record world {
  cache =
      (service.cacher.set 0 (version_key ann.id) (number_doc 1) (pos (90 * second)) world.cache).1;
}

abbrev aged_tokens : LoginResponse
aged_tokens = answer (login service (80 * second) draws credentials aged).0

abbrev aged_asked : World (List User) (Cacher Doc) MemoryBlacklist
aged_asked =
    (forgot_password service (95 * second) token ann.email
      (login service (80 * second) draws credentials aged).1).1

abbrev aged_reset : World (List User) (Cacher Doc) MemoryBlacklist
aged_reset = (reset_password service (96 * second) request aged_asked).1

aged_fit : IsValid aged_asked.cache
unfolding forgot_password new_user_repository find_live login set issue_token_pair sign
    store_session version_of get new version_key refresh_key reset_key
aged_fit = (refl, (refl, (refl, tt)))

aged_done : ResetParts service memory_cache_laws (96 * second) request aged_asked aged_reset
unfolding memory_cache_laws peek lookup forgot_password new_user_repository find_live login
    issue_token_pair sign store_session version_of get new version_key refresh_key reset_key
    reset_password Operations.set_password
aged_done = record {
  email = ann.email;
  user = ann;
  hash = codes "hnew pass";
  saved = record ann { password = codes "hnew pass" };
  stored = refl;
  found = refl;
  hashed = refl;
  written = refl;
  bumped = refl;
  same_revoked = refl;
}

abbrev aged_claims : Claims
aged_claims =
    new_claims token_lib (80 * second) draws.refresh_jti ann.id [] refresh service.refresh_cfg

abbrev survivor : LoginResponse
survivor =
    answer
      (Operations.refresh service (97 * second) next_draws aged_tokens.refresh_token aged_reset).0

refresh_survives_reset_example :
    (Operations.refresh service (97 * second) next_draws aged_tokens.refresh_token aged_reset).0
    ≡ ok (pair service memory_cache_laws survivor.access_token survivor.refresh_token)
unfolding memory_cache_laws forgot_password verify parse has_key get_text login new_user_repository
    find_live issue_token_pair sign store_session signed put_text fits get_claims put_claims
    read_list put_list get_option put_option aged_done Operations.refresh Operations.bump_version
    del Operations.rotate Operations.reissue
refresh_survives_reset_example =
    refresh_survives_reset service memory_cache_laws (96 * second) (97 * second) request aged_asked
      aged_reset aged_done next_draws aged_tokens.refresh_token aged_claims
      (record { subject = ann.id; version = 1 }) (record ann { password = codes "hnew pass" })
      survivor.access_token survivor.refresh_token aged_fit (omega arith) (omega arith) refl refl
      refl refl (omega arith) refl refl refl refl refl
