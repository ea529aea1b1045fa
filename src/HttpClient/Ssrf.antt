-- ===== src/HttpClient/Ssrf.antt =====
-- The guard against requests to internal addresses: `validateHost`, `isInternalHost` and the
-- transport of pkg/httpclient/middleware.go, `guardedDialContext` and `isInternalIP` of
-- pkg/httpclient/ssrf_dial.go. An address is its number of 32 or 128 bits; `net.ParseIP` is the
-- parameter `parse_ip`, the resolver's answer and the dialer are parameters too.
pub mod Laws
use wapgo.Base.{
  ℕ, suc, zero, ◌+◌, ◌*◌, ◌/◌, ◌-◌, ◌%◌, ◌^◌, Bool, true, false, not, ◌&&◌, ◌||◌, Option, none,
  some, List, [], ◌∷◌, any, leb, ltb, ◌==◌, map, if◌then◌else◌, Result, ok, err, length,
}
use wapgo.Base.Ascii.{lower}
use wapgo.Base.Text.{Text, codes, text_eq}

pub data Ip : Type 0 where
  v4 v6 : ℕ → Ip

-- `To4`: an IPv6 address that carries an IPv4 address counts as that.
abbrev pub normal : Ip → Ip
normal (v4 n) = v4 n
normal (v6 n) = if n / 2 ^ 32 == 65535 then v4 (n % 2 ^ 32) else v6 n

pub record Range : Type 0 where
  pub net : Ip
  pub ones : ℕ

abbrev pub quad : ℕ → ℕ → ℕ → ℕ → Ip
quad a b c d = v4 (a * 2 ^ 24 + b * 2 ^ 16 + c * 2 ^ 8 + d)

abbrev pub cidr : Ip → ℕ → Range
cidr ip ones = record { net = ip; ones = ones }

-- `IPNet.Contains`: the same kind of address, and the same leading bits.
abbrev pub same_bits : Ip → Ip → ℕ → Bool
same_bits (v4 n) (v4 m) ones = n / 2 ^ (32 - ones) == m / 2 ^ (32 - ones)
same_bits (v4 n) (v6 m) ones = false
same_bits (v6 n) (v4 m) ones = false
same_bits (v6 n) (v6 m) ones = n / 2 ^ (128 - ones) == m / 2 ^ (128 - ones)

abbrev pub contains : Range → Ip → Bool
contains r ip = same_bits r.net (normal ip) r.ones

unfoldable pub private_ranges : List Range
private_ranges =
    cidr (quad 127 0 0 0) 8
    ∷ cidr (quad 10 0 0 0) 8
    ∷ cidr (quad 172 16 0 0) 12
    ∷ cidr (quad 192 168 0 0) 16
    ∷ cidr (quad 169 254 0 0) 16
    ∷ cidr (quad 100 64 0 0) 10
    ∷ cidr (v6 1) 128
    ∷ cidr (v6 (252 * 2 ^ 120)) 7
    ∷ cidr (v6 (254 * 2 ^ 120 + 128 * 2 ^ 112)) 10
    ∷ []

unfoldable pub in_private_ranges : Ip → Bool
unfolding private_ranges
in_private_ranges ip = any (λ r. contains r ip) private_ranges

-- The tests of `net.IP` that `isInternalIP` calls.
abbrev pub is_loopback : Ip → Bool
is_loopback ip = elim (normal ip) [ v4 n ↦ n / 2 ^ 24 == 127 | v6 n ↦ n == 1 ]

abbrev pub is_private : Ip → Bool
is_private ip = elim (normal ip) [
  | v4 n ↦ n / 2 ^ 24 == 10 || (n / 2 ^ 20 == 172 * 16 + 1 || n / 2 ^ 16 == 192 * 256 + 168)
  | v6 n ↦ n / 2 ^ 121 == 126
]

abbrev pub is_link_local_unicast : Ip → Bool
is_link_local_unicast ip = elim (normal ip) [
  | v4 n ↦ n / 2 ^ 16 == 169 * 256 + 254
  | v6 n ↦ n / 2 ^ 118 == 1018
]

abbrev pub is_link_local_multicast : Ip → Bool
is_link_local_multicast ip = elim (normal ip) [
  | v4 n ↦ n / 2 ^ 8 == 224 * 2 ^ 16
  | v6 n ↦ n / 2 ^ 120 == 255 && (n / 2 ^ 112) % 16 == 2
]

abbrev pub is_unspecified : Ip → Bool
is_unspecified ip = elim (normal ip) [ v4 n ↦ n == 0 | v6 n ↦ n == 0 ]

abbrev pub is_multicast : Ip → Bool
is_multicast ip = elim (normal ip) [ v4 n ↦ n / 2 ^ 28 == 14 | v6 n ↦ n / 2 ^ 120 == 255 ]

-- `none` is a nil address.
unfoldable pub is_internal_ip : Option Ip → Bool
unfolding in_private_ranges
is_internal_ip none = true
is_internal_ip (some ip) =
    is_loopback ip
    || (is_private ip
        || (is_link_local_unicast ip
            || (is_link_local_multicast ip
                || (is_unspecified ip || (is_multicast ip || in_private_ranges ip)))))

-- `strings.EqualFold`, on ASCII, of which host names consist.
unfoldable pub equal_fold : Text → Text → Bool
unfolding text_eq
equal_fold s t = text_eq (lower s) (lower t)

abbrev pub loopback_names : List Text
loopback_names = codes "localhost" ∷ codes "ip6-localhost" ∷ codes "ip6-loopback" ∷ []

pub data Refusal : Type 0 where
  empty_host internal_host not_allowed too_many_redirects : Refusal
  bad_address resolve_failed no_addresses internal_address dial_failed : Refusal

module _ (parse_ip : Text → Option Ip) where
  unfoldable pub is_internal_host : Text → Bool
  unfolding in_private_ranges text_eq
  is_internal_host host =
      if any (λ n. text_eq (lower host) n) loopback_names
      then true
      else (elim (parse_ip host) [ none ↦ false | some ip ↦ in_private_ranges ip ])

  unfoldable pub validate_host : Text → List Text → Bool → Result Refusal (Unit {0})
  unfolding is_internal_host equal_fold text_eq
  validate_host host allowed_hosts allow_private =
      if text_eq host []
      then err empty_host
      else (if not allow_private && is_internal_host host
          then err internal_host
          else (if length allowed_hosts == 0
              then ok tt
              else (if any (λ a. equal_fold host a) allowed_hosts then ok tt else err not_allowed)))

-- The second loop of `guardedDialContext`: the first address that can be dialled.
unfoldable pub dial_first : {C : Type 0} → (Ip → Option C) → List Ip → Option (Ip × C)
dial_first dial [] = none
dial_first dial (ip ∷ ips) =
    let rest = dial_first dial ips in elim (dial ip) [ some conn ↦ some (ip, conn) | none ↦ rest ]

-- `host_of` is `SplitHostPort`, and `lookup` the resolver; the result names the address dialled.
unfoldable pub guarded_dial :
    {C : Type 0}
    → (Text → Option Text)
    → (Text → Option (List Ip))
    → (Ip → Option C)
    → Bool
    → Text
    → Result Refusal (Ip × C)
unfolding is_internal_ip dial_first
guarded_dial host_of lookup dial allow_private addr = elim (host_of addr) [
  | none ↦ err bad_address
  | some host ↦ elim (lookup host) [
    | none ↦ err resolve_failed
    | some ips ↦
        if length ips == 0
        then err no_addresses
        else (if not allow_private && any (λ ip. is_internal_ip (some ip)) ips
            then err internal_address
            else (elim (dial_first dial ips) [ none ↦ err dial_failed | some c ↦ ok c ]))
  ]
]

module _ (parse_ip : Text → Option Ip) where
  -- `ssrfGuardTransport.RoundTrip`: the request is sent only after its host is validated.
  unfoldable pub ssrf_round_trip :
      {S A : Type 0}
      → List Text
      → Bool
      → (S → Result Refusal A × S)
      → Text
      → S
      → Result Refusal A × S
  unfolding validate_host
  ssrf_round_trip allowed_hosts allow_private inner host s =
      elim (validate_host parse_ip host allowed_hosts allow_private) [
        | err e ↦ (err e, s)
        | ok _ ↦ inner s
      ]

  -- The check of a redirect, after so many hops.
  unfoldable pub ssrf_check_redirect : List Text → Bool → Text → ℕ → Result Refusal (Unit {0})
  unfolding validate_host
  ssrf_check_redirect allowed_hosts allow_private host via =
      if leb 10 via
      then err too_many_redirects
      else validate_host parse_ip host allowed_hosts allow_private
