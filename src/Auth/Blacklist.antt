-- ===== src/Auth/Blacklist.antt =====
-- The interface of pkg/auth/blacklist.go, its contract, and the in-process implementation
-- (pkg/auth/memory_blacklist.go) as an instance of both.
use wapgo.Base.{ℕ, ◌+◌, ◌≤◌, ◌≡◌, ◌≢◌, Bool, not, ◌&&◌, [], ltb, if◌then◌else◌, Result, ok, arith}
use wapgo.Base.Text.{Text, text_eq, text_eq_iff}
use wapgo.Auth.MemoryBlacklist.{MemoryBlacklist, BlacklistError, revoke, is_revoked}
use wapgo.Auth.MemoryBlacklist.Laws.{
  is_banned, IsValid, revoke-IsValid, is_revoked-IsValid, is_revoked-eq-is_banned,
  is_banned-is_revoked, is_banned-revoke,
}

-- `Revoke` and `IsRevoked`, at a reading of the clock.
pub record Blacklist (B : Type 0) : Type 0 where
  pub revoke : ℕ → Text → ℕ → B → Result BlacklistError (Unit {0}) × B
  pub is_revoked : ℕ → Text → B → Result BlacklistError Bool × B

-- The contract of an implementation whose storage does not fail: a revocation is in force for its
-- lifetime, and a check answers from the revocations in force and changes none of them.
pub record IsBlacklist {B : Type 0} (bl : Blacklist B) : Type 1 where
  pub IsFit : B → Type 0
  pub banned : ℕ → B → Text → Bool
  pub revoke_fit :
      (now : ℕ) (jti : Text) (ttl : ℕ) (b : B) → IsFit b → IsFit (bl.revoke now jti ttl b).1
  pub check_fit : (now : ℕ) (jti : Text) (b : B) → IsFit b → IsFit (bl.is_revoked now jti b).1
  pub revoke_ok :
      (now : ℕ) (jti : Text) (ttl : ℕ) (b : B) → jti ≢ [] → (bl.revoke now jti ttl b).0 ≡ ok tt
  pub check :
      (now : ℕ) (jti : Text) (b : B)
      → (bl.is_revoked now jti b).0 ≡ ok (not (text_eq jti []) && banned now b jti)
  pub banned_check :
      (now t : ℕ) (jti j : Text) (b : B)
      → now ≤ t
      → banned t (bl.is_revoked now jti b).1 j ≡ banned t b j
  pub banned_revoke :
      (now t : ℕ) (jti j : Text) (ttl : ℕ) (b : B)
      → IsFit b
      → jti ≢ []
      → now ≤ t
      → banned t (bl.revoke now jti ttl b).1 j
        ≡ (if text_eq jti j then ltb t (now + ttl) else banned t b j)

abbrev pub memory_blacklist : Blacklist MemoryBlacklist
memory_blacklist = record { revoke = revoke; is_revoked = is_revoked }

pub revoke_ok :
    (now : ℕ) (jti : Text) (ttl : ℕ) (b : MemoryBlacklist)
    → jti ≢ []
    → (revoke now jti ttl b).0 ≡ ok tt
unfolding revoke
revoke_ok now jti ttl b h = ground (arith, text_eq_iff jti [])

-- The in-process blacklist keeps the contract of the interface.
unfoldable pub memory_blacklist_laws : IsBlacklist memory_blacklist
memory_blacklist_laws = record {
  IsFit = λ b. IsValid b;
  banned = is_banned;
  revoke_fit = revoke-IsValid;
  check_fit = is_revoked-IsValid;
  revoke_ok = revoke_ok;
  check = is_revoked-eq-is_banned;
  banned_check = is_banned-is_revoked;
  banned_revoke = is_banned-revoke;
}
