-- ===== src/HttpClient/Ssrf/Laws.antt =====
-- Where the outgoing client of pkg/httpclient can connect to.
use wapgo.Base.{
  ◌≡◌, ◌≢◌, ◌⊎◌, inl, inr, refl, sym, Bool, true, false, Option, some, List, [], ◌∷◌, any, ok,
  arith, Option-cases, Bool-cases,
}
use wapgo.Base.Text.{Text, text_eq_iff}
use wapgo.HttpClient.Ssrf.{
  Ip, is_internal_ip, is_internal_host, validate_host, equal_fold, dial_first, guarded_dial,
}

-- The address of a list, by place.
abbrev pub Among : Ip → List Ip → Type 0
Among ip [] = ⊥
Among ip (i ∷ is) = (ip ≡ i) ⊎ Among ip is

dial_first-Among :
    {C : Type 0} (dial : Ip → Option C) (ips : List Ip) (ip : Ip) (c : C)
    → dial_first dial ips ≡ some (ip, c)
    → Among ip ips × (dial ip ≡ some c)
unfolding dial_first
dial_first-Among dial [] ip c h = absurd cc
dial_first-Among dial (i ∷ ips) ip c h = elim (Option-cases (dial i)) [
  | inl failed ↦
      let (among, made) = dial_first-Among dial ips ip c (rw (failed, dial_first) at h) in
      (inr among, made)
  | inr (conn, made) ↦ let same : i ≡ ip = ground arith in (inl (sym same), ground arith)
]

Among-any :
    (p : Ip → Bool) (ip : Ip) (ips : List Ip) → any p ips ≡ false → Among ip ips → p ip ≡ false
Among-any p ip [] h a = absurd a
Among-any p ip (i ∷ ips) h (inl same) = ground arith
Among-any p ip (i ∷ ips) h (inr a) = Among-any p ip ips (ground arith) a

-- What stands behind a connection that the guarded dialer made.
pub record IsDialled {C : Type 0} (host_of : Text → Option Text) (lookup : Text → Option (List Ip))
    (dial : Ip → Option C) (allow_private : Bool) (addr : Text) (ip : Ip) (c : C) : Type 0 where
  pub host : Text
  pub ips : List Ip
  pub split : host_of addr ≡ some host
  pub resolved : lookup host ≡ some ips
  pub among : Among ip ips
  pub dialled : dial ip ≡ some c
  pub external : (allow_private ≡ true) ⊎ (is_internal_ip (some ip) ≡ false)

-- A connection is made only to an address that the one lookup of the host returned, and that
-- address is not internal, unless private addresses are allowed.
pub guarded_dial-IsDialled :
    {C : Type 0} (host_of : Text → Option Text) (lookup : Text → Option (List Ip))
    (dial : Ip → Option C) (allow_private : Bool) (addr : Text) (ip : Ip) (c : C)
    → guarded_dial host_of lookup dial allow_private addr ≡ ok (ip, c)
    → IsDialled host_of lookup dial allow_private addr ip c
unfolding guarded_dial
guarded_dial-IsDialled host_of lookup dial allow_private addr ip c h =
    elim (Option-cases (host_of addr)) [
      | inl bad ↦ absurd (ground arith)
      | inr (host, split) ↦ elim (Option-cases (lookup host)) [
        | inl failed ↦ absurd (ground arith)
        | inr (ips, resolved) ↦
            let found : dial_first dial ips ≡ some (ip, c) = ground arith in
            let (among, dialled) = dial_first-Among dial ips ip c found in
            record {
              host = host;
              ips = ips;
              split = split;
              resolved = resolved;
              among = among;
              dialled = dialled;
              external = elim (Bool-cases allow_private) [
                | inl allowed ↦ inl allowed
                | inr guarded ↦
                    let clean : any (λ i. is_internal_ip (some i)) ips ≡ false = ground arith in
                    inr (Among-any (λ i. is_internal_ip (some i)) ip ips clean among)
              ];
            }
      ]
    ]

-- A host that is validated is not empty, is neither a loopback name nor an address of the private
-- ranges unless private addresses are allowed, and is on the allowlist, up to case, if there is
-- one.
pub validate_host-ok :
    (parse_ip : Text → Option Ip) (host : Text) (allowed_hosts : List Text) (allow_private : Bool)
    → validate_host parse_ip host allowed_hosts allow_private ≡ ok tt
    → (host ≢ [])
      × ((allow_private ≡ true) ⊎ (is_internal_host parse_ip host ≡ false))
      × ((allowed_hosts ≡ []) ⊎ (any (λ a. equal_fold host a) allowed_hosts ≡ true))
unfolding validate_host
validate_host-ok parse_ip host [] allow_private h =
    (λ same. ground (arith, text_eq_iff host [], same), ground arith, inl refl)
validate_host-ok parse_ip host (a ∷ allowed) allow_private h =
    (λ same. ground (arith, text_eq_iff host [], same), ground arith, inr (ground arith))
