-- ===== src/Cache/Interface.antt =====
-- internal/domain/repository/cache.go: the operations of a cacher that the use cases depend on,
-- over documents `D` (what encoding/json makes of a value), the contract of an implementation that
-- does not fail, and the in-process cacher (internal/repository/memory) as an instance.
use wapgo.Base.{
  ℕ, ◌≤◌, ◌≡◌, refl, Option, none, some, List, any, Result, ok, err, or_err, if◌then◌else◌, arith,
  ◌⊎◌, inl, inr, Bool-cases,
}
use wapgo.Base.Int.{ℤ}
use wapgo.Base.Text.{Text, codes, text_eq}
use wapgo.Base.Errors.{GoError, sentinel, other, cache_miss}
use wapgo.Cache.Memory.{
  CacheError, miss, marshal_failed, unmarshal_failed, Cacher, Entry, deadline, is_past, set, get,
  del, prefixed,
}
use wapgo.Base.Dict.{lookup}
use wapgo.Cache.Memory.Laws.{
  live, peek, IsValid, peek-store, store-IsValid, get-eq-peek, peek-get, get-IsValid, peek-del,
  del-IsValid,
}

-- `Get` is split into the bytes that are found and their decoding into the caller's type.
pub record CacheOps (C D : Type 0) : Type 0 where
  pub set : ℕ → Text → D → ℤ → C → Result GoError (Unit {0}) × C
  pub fetch : ℕ → Text → C → Result GoError D × C
  pub del : List Text → C → Result GoError (Unit {0}) × C

abbrev pub decoded : {D A : Type 0} → (D → Option A) → Result GoError D → Result GoError A
decoded decode (ok d) = or_err (other (codes "cache get unmarshal")) (decode d)
decoded decode (err e) = err e

-- `cacher.Get(ctx, key, &dest)`
abbrev pub get_as :
    {C D A : Type 0} → CacheOps C D → (D → Option A) → ℕ → Text → C → Result GoError A × C
get_as ops decode now key c = let (r, c') = ops.fetch now key c in (decoded decode r, c')

-- What a lookup answers.
abbrev pub or_miss : {D : Type 0} → Option D → Result GoError D
or_miss o = or_err (sentinel cache_miss) o

-- The contract: a document is found under its key until its time is over or it is deleted.
pub record IsCache {C D : Type 0} (ops : CacheOps C D) : Type 1 where
  pub IsFit : C → Type 0
  pub peek : ℕ → C → Text → Option D
  pub set_ok : (now : ℕ) (k : Text) (d : D) (ttl : ℤ) (c : C) → (ops.set now k d ttl c).0 ≡ ok tt
  pub set_fit :
      (now : ℕ) (k : Text) (d : D) (ttl : ℤ) (c : C) → IsFit c → IsFit (ops.set now k d ttl c).1
  pub fetch_fit : (now : ℕ) (k : Text) (c : C) → IsFit c → IsFit (ops.fetch now k c).1
  pub del_fit : (ks : List Text) (c : C) → IsFit c → IsFit (ops.del ks c).1
  pub fetched : (now : ℕ) (k : Text) (c : C) → (ops.fetch now k c).0 ≡ or_miss (peek now c k)
  pub peek_fetch :
      (now t : ℕ) (k j : Text) (c : C) → now ≤ t → peek t (ops.fetch now k c).1 j ≡ peek t c j
  pub peek_later :
      (now t : ℕ) (k : Text) (c : C) → now ≤ t → (peek t c k ≡ peek now c k) ⊎ (peek t c k ≡ none)
  pub peek_set :
      (now t : ℕ) (k j : Text) (d : D) (ttl : ℤ) (c : C)
      → IsFit c
      → now ≤ t
      → peek t (ops.set now k d ttl c).1 j ≡ (
          if text_eq k j
          then (if is_past t (deadline now ttl) then none else some d)
          else peek t c j)
  pub peek_del :
      (t : ℕ) (ks : List Text) (j : Text) (c : C)
      → peek t (ops.del ks c).1 j ≡ (if any (λ k. text_eq k j) ks then none else peek t c j)

-- The error of an operation as the interface shows it.
abbrev pub shown : {A : Type 0} → Result CacheError A → Result GoError A
shown (ok a) = ok a
shown (err miss) = err (sentinel cache_miss)
shown (err marshal_failed) = err (other (codes "cache set marshal"))
shown (err unmarshal_failed) = err (other (codes "cache get unmarshal"))

module _ {D : Type 0} where
  -- Documents are stored as they are.
  abbrev pub memory_cache : CacheOps (Cacher D) D
  memory_cache = record {
    set = λ now k d ttl c. let (r, c') = set (λ x. some x) now k d ttl c in (shown r, c');
    fetch = λ now k c. let (r, c') = get (λ x. some x) now k c in (shown r, c');
    del = λ ks c. (ok tt, del ks c);
  }

  pub shown-get :
      (now : ℕ) (k : Text) (c : Cacher D)
      → shown (get (λ x. some x) now k c).0 ≡ or_miss (peek now c k)
  shown-get now k c = rw (get-eq-peek (λ x. some x) now k c) (ground arith)

  live_later :
      (now t : ℕ) (o : Option (Entry D)) → now ≤ t → (live t o ≡ live now o) ⊎ (live t o ≡ none)
  live_later now t none h = inl refl
  live_later now t (some e) h = elim (Bool-cases (is_past t e.expires_at)) [
    | inl past ↦ inr (rw past)
    | inr fresh ↦ inl (ground arith)
  ]

  pub peek_later :
      (now t : ℕ) (k : Text) (c : Cacher D)
      → now ≤ t
      → (peek t c k ≡ peek now c k) ⊎ (peek t c k ≡ none)
  unfolding peek
  peek_later now t k c h = live_later now t (lookup (prefixed c.ns k) c.m) h

  -- The in-process cacher keeps the contract of the interface.
  unfoldable pub memory_cache_laws : IsCache memory_cache
  unfolding set
  memory_cache_laws = record {
    IsFit = λ c. IsValid c;
    peek = λ t c k. peek t c k;
    set_ok = λ now k d ttl c. refl;
    set_fit = λ now k d ttl c v.
        store-IsValid now k (record { payload = d; expires_at = deadline now ttl }) c v;
    fetch_fit = λ now k c v. get-IsValid (λ x. some x) now k c v;
    del_fit = del-IsValid;
    fetched = shown-get;
    peek_fetch = λ now t k j c h. peek-get (λ x. some x) now t k j c h;
    peek_later = peek_later;
    peek_set = λ now t k j d ttl c v h.
        peek-store now t k j (record { payload = d; expires_at = deadline now ttl }) c v h;
    peek_del = peek-del;
  }
