-- ===== src/Notification/Firebase/Laws.antt =====
-- The token that the FCM client caches, and what its log shows of a device token.
use mathlib.Core.List.{append_assoc}
use wapgo.Base.{
  sym, ◌∙◌, take-append, drop-append, ℕ, ◌-◌, ◌≤◌, ◌<◌, ◌≡◌, refl, true, false, not, ◌&&◌, [], ◌∷◌,
  ◌++◌, length, take, length-append, leb, if◌then◌else◌, Result, ok, arith, Bool-cases, inl, inr,
}
use wapgo.Base.Int.{ℤ, pos, ◌+ℤ◌, ◌-ℤ◌, ◌*ℤ◌, ltb_ℤ, wrap64_small}
use wapgo.Base.Text.{Text, codes, text_eq}
use wapgo.Notification.Firebase.{
  FcmClient, TokenAnswer, second, lifetime, fetch_access_token, renew, cached_access_token,
  mask_token,
}

-- The end of a token's use: thirty seconds before the end of its lifetime.
abbrev pub last_use : ℤ → ℕ → ℤ
last_use fetched n = fetched +ℤ (pos n *ℤ second -ℤ pos 30 *ℤ second)

lifetime_small :
    (n : ℕ) → n ≤ 9_000_000_000 → lifetime (pos n) ≡ pos n *ℤ second -ℤ pos 30 *ℤ second
unfolding lifetime ◌*ℤ◌ ◌-ℤ◌
lifetime_small n h =
    wrap64_small (pos n *ℤ second -ℤ pos 30 *ℤ second) (ground arith) (ground arith)

renewed :
    (later : ℤ) (answer : TokenAnswer) (c : FcmClient)
    → text_eq answer.access_token [] ≡ false
    → renew later (ok answer) c ≡ (
      ok answer.access_token,
      record c {
        access_token = answer.access_token;
        token_expiry = (later +ℤ lifetime answer.expires_in);
      },
      true,
    )
unfolding renew fetch_access_token
renewed later answer c given = rw (given, fetch_access_token, renew) refl

fetching :
    (now later : ℤ) (answer : Result Text TokenAnswer) (c : FcmClient)
    → (cached_access_token now later answer c).2 ≡ true
    → cached_access_token now later answer c ≡ renew later answer c
unfolding cached_access_token
fetching now later answer c fetched =
    elim (Bool-cases (not (text_eq c.access_token []) && ltb_ℤ now c.token_expiry)) [
      | inl cached ↦ absurd (ground arith)
      | inr stale ↦ ground arith
    ]

holding :
    (now later : ℤ) (answer : Result Text TokenAnswer) (c : FcmClient)
    → text_eq c.access_token [] ≡ false
    → cached_access_token now later answer c
      ≡ (if ltb_ℤ now c.token_expiry then (ok c.access_token, c, false) else renew later answer c)
unfolding cached_access_token
holding now later answer c held = rw held refl

abbrev pub lasting : Text → ℕ → TokenAnswer
lasting tok n = record { access_token = tok; expires_in = pos n }

-- A token is fetched once and then used until thirty seconds before its end: after a call that
-- fetched it, with a lifetime of at most nine thousand million seconds, a later call answers the
-- same token and fetches nothing as long as that time is not reached, and fetches again from then
-- on.
pub cached_access_token_window :
    (now later now' later' : ℤ) (tok : Text) (n : ℕ) (answer' : Result Text TokenAnswer)
    (c : FcmClient)
    → n ≤ 9_000_000_000
    → text_eq tok [] ≡ false
    → (cached_access_token now later (ok (lasting tok n)) c).2 ≡ true
    → let c' = (cached_access_token now later (ok (lasting tok n)) c).1 in
      cached_access_token now' later' answer' c'
      ≡ (if ltb_ℤ now' (last_use later n) then (ok tok, c', false) else renew later' answer' c')
cached_access_token_window now later now' later' tok n answer' c bound given fetched =
    rw
      (
        fetching now later (ok (lasting tok n)) c fetched,
        renewed later (lasting tok n) c given,
        lifetime_small n bound,
      )
      (holding now' later' answer'
        (record c { access_token = tok; token_expiry = last_use later n }) given)

masked :
    (first middle last : Text)
    → length first ≡ 4
    → length last ≡ 4
    → 0 < length middle
    → mask_token (first ++ middle ++ last) ≡ first ++ codes "***" ++ last
unfolding mask_token
masked first middle last four four' some_between =
    let whole = length-append (first ++ middle) last in
    let front = length-append first middle in
    let is_long : leb (length (first ++ middle ++ last)) 8 ≡ false = ground (arith, whole, front) in
    let rest : length (first ++ middle) ≡ length (first ++ middle ++ last) - 4 =
      omega (arith, whole) in
    let head : take 4 (first ++ middle ++ last) ≡ first =
      rw (append_assoc first middle last) (take-append first (middle ++ last) 4 four) in
    rw (is_long, head, drop-append (first ++ middle) last _ rest, mask_token) refl

-- The log shows no more of a device token than its first and last four bytes: tokens that agree on
-- those, and have something between them, are logged alike, however they differ there.
pub mask_token_alike :
    (first middle other last : Text) (c d : ℕ)
    → length first ≡ 4
    → length last ≡ 4
    → mask_token (first ++ c ∷ middle ++ last) ≡ mask_token (first ++ d ∷ other ++ last)
mask_token_alike first middle other last c d four four' =
    masked first (c ∷ middle) last four four' (omega arith)
    ∙ sym (masked first (d ∷ other) last four four' (omega arith))
