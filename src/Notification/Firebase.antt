-- ===== src/Notification/Firebase.antt =====
-- pkg/notification/firebase/firebase.go. The clock, the key and token libraries and Google's
-- answers are arguments. Times are in nanoseconds; a payload is a JSON object, kept as its members.
-- Tracing and the log are left out.
pub mod Laws
use wapgo.Base.{
  ℕ, ◌+◌, ◌-◌, ◌*◌, Bool, true, false, not, ◌&&◌, ◌||◌, Option, none, some, List, [], ◌∷◌, ◌++◌,
  length, take, drop, ltb, leb, ◌==◌, if◌then◌else◌, Result, ok, err,
}
use wapgo.Base.Int.{ℤ, pos, ◌+ℤ◌, ◌-ℤ◌, ◌*ℤ◌, ltb_ℤ, wrap64}
use wapgo.Base.Text.{Text, codes, text_eq}
use wapgo.Base.Dict.{Dict}

pub record Message : Type 0 where
  pub token : Text
  pub topic : Text
  pub title : Text
  pub body : Text
  pub custom : Dict Text
  pub image_url : Text

pub record ServiceAccount : Type 0 where
  pub project_id : Text
  pub private_key : Text
  pub client_email : Text
  pub token_uri : Text

-- `tokenExpiry` is the zero time, long past, before the first fetch.
pub record FcmClient : Type 0 where
  pub sa : ServiceAccount
  pub access_token : Text
  pub token_expiry : ℤ

abbrev pub token_url : Text
token_url = codes "https://oauth2.googleapis.com/token"

abbrev pub zero_time : ℤ
zero_time = ℤ.negsuc (62_135_596_800 * 1_000_000_000 - 1)

-- `NewFCMClient`, of the decoded credentials.
unfoldable pub new_fcm_client : Option ServiceAccount → Result Text FcmClient
unfolding text_eq
new_fcm_client none = err (codes "firebase: parse credentials")
new_fcm_client (some sa) =
    if text_eq sa.project_id [] || (text_eq sa.private_key [] || text_eq sa.client_email [])
    then err (codes "firebase: credentials missing project_id, private_key, or client_email")
    else ok (record {
      sa = record sa { token_uri = if text_eq sa.token_uri [] then token_url else sa.token_uri };
      access_token = [];
      token_expiry = zero_time;
    })

-- What the token endpoint answers, once the request could be made.
pub record TokenAnswer : Type 0 where
  pub access_token : Text
  pub expires_in : ℤ

abbrev pub second : ℤ
second = pos 1_000_000_000

-- `time.Duration(n)*time.Second - 30*time.Second`, on 64 bits.
unfoldable pub lifetime : ℤ → ℤ
lifetime n = wrap64 (n *ℤ second -ℤ pos 30 *ℤ second)

-- `fetchAccessToken` at `now`: the errors before the answer come as one.
unfoldable pub fetch_access_token : ℤ → Result Text TokenAnswer → Result Text (Text × ℤ)
unfolding text_eq
fetch_access_token now (err e) = err e
fetch_access_token now (ok answer) =
    if text_eq answer.access_token []
    then err (codes "firebase: empty access token")
    else ok (answer.access_token, now +ℤ lifetime answer.expires_in)

-- The token is fetched and stored; the last component of these results says whether it was fetched.
unfoldable pub renew : ℤ → Result Text TokenAnswer → FcmClient → Result Text Text × FcmClient × Bool
renew now answer c = elim (fetch_access_token now answer) [
  | err e ↦ (err e, c, true)
  | ok (tok, expiry) ↦ (ok tok, record c { access_token = tok; token_expiry = expiry }, true)
]

-- `cachedAccessToken`: the clock is read once to compare and, if the token is fetched, once more.
unfoldable pub cached_access_token :
    ℤ → ℤ → Result Text TokenAnswer → FcmClient → Result Text Text × FcmClient × Bool
cached_access_token now later answer c =
    if not (text_eq c.access_token []) && ltb_ℤ now c.token_expiry
    then (ok c.access_token, c, false)
    else renew later answer c

-- The members of the payload's object `message`.
pub record Payload : Type 0 where
  pub title : Text
  pub body : Text
  pub image : Option Text
  pub token : Option Text
  pub topic : Option Text
  pub custom : Option (Dict Text)

-- A member that is left out when it is empty.
abbrev pub unless_empty : Text → Option Text
unless_empty [] = none
unless_empty (c ∷ s) = some (c ∷ s)

abbrev pub unless_no_entry : Dict Text → Option (Dict Text)
unless_no_entry [] = none
unless_no_entry (e ∷ d) = some (e ∷ d)

unfoldable pub build_payload : Message → Payload
unfolding text_eq
build_payload msg = record {
  title = msg.title;
  body = msg.body;
  image = unless_empty msg.image_url;
  token = unless_empty msg.token;
  topic = if text_eq msg.token [] then unless_empty msg.topic else none;
  custom = unless_no_entry msg.custom;
}

-- `maskToken`, for the log.
unfoldable pub mask_token : Text → Text
mask_token t =
    if leb (length t) 8 then codes "***" else take 4 t ++ codes "***" ++ drop (length t - 4) t

-- What FCM answers to a message, once a request could be built.
pub data Answer : Type 0 where
  no_request unreachable : Text → Answer
  answered : ℕ → Answer

pub data SendError : Type 0 where
  get_access_token build_request do_failed : Text → SendError
  fcm_http : ℕ → SendError

-- What the journal keeps: the status and whether there was an error.
pub record Entry : Type 0 where
  pub status : ℕ
  pub with_error : Bool

unfoldable pub outcome : Answer → Option SendError × Option Entry
outcome (no_request e) = (some (build_request e), none)
outcome (unreachable e) = (some (do_failed e), some (record { status = 0; with_error = true }))
outcome (answered status) =
    if status == 200
    then (none, some (record { status = status; with_error = false }))
    else (some (fcm_http status), some (record { status = status; with_error = true }))

-- `Send`, with FCM as a function of the token and the payload that it gets.
unfoldable pub send :
    ℤ
    → ℤ
    → Result Text TokenAnswer
    → (Text → Payload → Answer)
    → Message
    → FcmClient
    → Option SendError × Option Entry × FcmClient
unfolding cached_access_token build_payload outcome
send now later token_answer fcm msg c =
    let (tok, c', fetched) = cached_access_token now later token_answer c in
    elim tok [
      | err e ↦ (some (get_access_token e), none, c')
      | ok t ↦ let (error, entry) = outcome (fcm t (build_payload msg)) in (error, entry, c')
    ]
