-- ===== src/Cache/Memory/Laws.antt =====
-- What a reader of the in-process cacher sees at a time, and how each operation changes it.
use wapgo.Base.{
  ℕ, ◌≤◌, ◌≡◌, refl, ap, ◌∙◌, true, false, not, Option, none, some, List, [], ◌∷◌, leb, length, any,
  if◌then◌else◌, err, or_err, arith, Bool-cases, Option-cases, inl, inr,
}
use wapgo.Base.Text.{Text, codes, text_eq, text_eq_iff, append_cancel}
use wapgo.Base.Dict.{
  lookup, insert, erase, IsUnique, lookup-insert, lookup-erase, lookup-retain, insert-IsUnique,
  erase-IsUnique, retain-IsUnique, keep_if,
}
use wapgo.Cache.Memory.{
  miss, unmarshal_failed, Entry, Cacher, is_expired, prefixed, sweep_locked, store, get, del,
  exists, sweep_threshold,
}

prefixed_injective : (ns j k : Text) → prefixed ns j ≡ prefixed ns k → j ≡ k
unfolding prefixed
prefixed_injective ns j k e = elim (Bool-cases (text_eq ns [])) [
  | inl bare ↦ ground arith
  | inr named ↦ append_cancel (codes ":") j k (append_cancel ns _ _ (rw named at e))
]

pub prefixed_eq : (ns j k : Text) → text_eq (prefixed ns j) (prefixed ns k) ≡ text_eq j k
prefixed_eq ns j k = ground (
  arith,
  text_eq_iff (prefixed ns j) (prefixed ns k),
  text_eq_iff j k,
  prefixed_injective ns j k,
  λ (e : j ≡ k). ap (prefixed ns) e,
)

module _ {D : Type 0} where
  -- The entry is there, and its time has not come.
  abbrev pub live : ℕ → Option (Entry D) → Option D
  live now none = none
  live now (some e) = if is_expired now e then none else some e.payload

  -- What a reader at time `now` finds under the key.
  unfoldable pub peek : ℕ → Cacher D → Text → Option D
  peek now c key = live now (lookup (prefixed c.ns key) c.m)

  abbrev pub IsValid : Cacher D → Type 0
  IsValid c = IsUnique c.m

  -- An expired entry stays expired, so a reader cannot tell whether it was dropped.
  pub live-keep_if :
      (now t : ℕ) (o : Option (Entry D))
      → now ≤ t
      → live t (keep_if (λ e. not (is_expired now e)) o) ≡ live t o
  live-keep_if now t none h = refl
  live-keep_if now t (some e) h = ground arith

  pub peek-sweep_locked :
      (now t : ℕ) (key : Text) (c : Cacher D)
      → IsValid c
      → now ≤ t
      → peek t (sweep_locked now c) key ≡ peek t c key
  unfolding peek sweep_locked
  peek-sweep_locked now t key c v h =
      rw (lookup-retain (prefixed c.ns key) (λ e. not (is_expired now e)) c.m v)
        (live-keep_if now t (lookup (prefixed c.ns key) c.m) h)

  pub sweep_locked-IsValid : (now : ℕ) (c : Cacher D) → IsValid c → IsValid (sweep_locked now c)
  unfolding sweep_locked
  sweep_locked-IsValid now c v = retain-IsUnique _ c.m v

  pub store-IsValid :
      (now : ℕ) (key : Text) (e : Entry D) (c : Cacher D) → IsValid c → IsValid (store now key e c)
  unfolding store
  store-IsValid now key e c v = elim (Bool-cases (leb sweep_threshold (length c.m))) [
    | inl full ↦ rw full (
        insert-IsUnique (prefixed (sweep_locked now c).ns key) e (sweep_locked now c).m
          (sweep_locked-IsValid now c v))
    | inr room ↦ rw room (insert-IsUnique (prefixed c.ns key) e c.m v)
  ]

  -- An assignment to the map, seen by a reader.
  peek_insert :
      (t : ℕ) (key j : Text) (e : Entry D) (c : Cacher D)
      → peek t (record c { m = insert (prefixed c.ns key) e c.m }) j
        ≡ (if text_eq key j then live t (some e) else peek t c j)
  unfolding peek
  peek_insert t key j e c =
      rw (lookup-insert (prefixed c.ns j) (prefixed c.ns key) e c.m, prefixed_eq c.ns key j)
        (ground arith)

  pub peek_erase :
      (t : ℕ) (key j : Text) (c : Cacher D)
      → peek t (record c { m = erase (prefixed c.ns key) c.m }) j
        ≡ (if text_eq key j then none else peek t c j)
  unfolding peek
  peek_erase t key j c =
      rw (lookup-erase (prefixed c.ns j) (prefixed c.ns key) c.m, prefixed_eq c.ns key j)
        (ground arith)

  -- A write changes what is read under its key and nothing else, sweep included.
  pub peek-store :
      (now t : ℕ) (key j : Text) (e : Entry D) (c : Cacher D)
      → IsValid c
      → now ≤ t
      → peek t (store now key e c) j ≡ (if text_eq key j then live t (some e) else peek t c j)
  unfolding store
  peek-store now t key j e c v h = elim (Bool-cases (leb sweep_threshold (length c.m))) [
    | inl full ↦
        rw (full, peek_insert t key j e (sweep_locked now c), peek-sweep_locked now t j c v h)
    | inr room ↦ rw (room, peek_insert t key j e c)
  ]

  -- `Get` finds what a reader sees, and drops only what no reader will see again.
  pub get-eq-peek :
      {A : Type 0} (unmarshal : D → Option A) (now : ℕ) (key : Text) (c : Cacher D)
      → (get unmarshal now key c).0
        ≡ elim (peek now c key) [ none ↦ err miss | some b ↦ or_err unmarshal_failed (unmarshal b) ]
  unfolding get peek
  get-eq-peek unmarshal now key c = ground arith

  pub exists-eq-peek :
      (now : ℕ) (key : Text) (c : Cacher D)
      → (exists now key c).0 ≡ elim (peek now c key) [ none ↦ false | some b ↦ true ]
  unfolding exists peek
  exists-eq-peek now key c = ground arith

  expired-unseen :
      (now t : ℕ) (key : Text) (e : Entry D) (c : Cacher D)
      → lookup (prefixed c.ns key) c.m ≡ some e
      → is_expired now e ≡ true
      → now ≤ t
      → peek t c key ≡ none
  unfolding peek
  expired-unseen now t key e c found old h = rw found (ground arith)

  -- The lazy deletion of an expired entry.
  peek_drop :
      (now t : ℕ) (key j : Text) (e : Entry D) (c : Cacher D)
      → lookup (prefixed c.ns key) c.m ≡ some e
      → is_expired now e ≡ true
      → now ≤ t
      → peek t (record c { m = erase (prefixed c.ns key) c.m }) j ≡ peek t c j
  peek_drop now t key j e c found old h =
      ground
        (arith, peek_erase t key j c, text_eq_iff key j, expired-unseen now t key e c found old h)

  pub peek-get :
      {A : Type 0} (unmarshal : D → Option A) (now t : ℕ) (key j : Text) (c : Cacher D)
      → now ≤ t
      → peek t (get unmarshal now key c).1 j ≡ peek t c j
  unfolding get
  peek-get unmarshal now t key j c h = elim (Option-cases (lookup (prefixed c.ns key) c.m)) [
    | inl absent ↦ rw (absent, get)
    | inr (e, found) ↦ elim (Bool-cases (is_expired now e)) [
      | inl old ↦ rw (found, get, old) (peek_drop now t key j e c found old h)
      | inr fresh ↦ rw (found, get, fresh)
    ]
  ]

  pub peek-exists :
      (now t : ℕ) (key j : Text) (c : Cacher D)
      → now ≤ t
      → peek t (exists now key c).1 j ≡ peek t c j
  unfolding exists
  peek-exists now t key j c h = elim (Option-cases (lookup (prefixed c.ns key) c.m)) [
    | inl absent ↦ rw (absent, exists)
    | inr (e, found) ↦ elim (Bool-cases (is_expired now e)) [
      | inl old ↦ rw (found, exists, old) (peek_drop now t key j e c found old h)
      | inr fresh ↦ rw (found, exists, fresh)
    ]
  ]

  pub peek-del :
      (t : ℕ) (ks : List Text) (j : Text) (c : Cacher D)
      → peek t (del ks c) j ≡ (if any (λ k. text_eq k j) ks then none else peek t c j)
  unfolding del
  peek-del t [] j c = refl
  peek-del t (k ∷ ks) j c =
      peek-del t ks j (record c { m = erase (prefixed c.ns k) c.m })
      ∙ rw (peek_erase t k j c) (ground arith)

  pub get-IsValid :
      {A : Type 0} (unmarshal : D → Option A) (now : ℕ) (key : Text) (c : Cacher D)
      → IsValid c
      → IsValid (get unmarshal now key c).1
  unfolding get
  get-IsValid unmarshal now key c v = ground (arith, erase-IsUnique (prefixed c.ns key) c.m v)

  pub exists-IsValid :
      (now : ℕ) (key : Text) (c : Cacher D) → IsValid c → IsValid (exists now key c).1
  unfolding exists
  exists-IsValid now key c v = ground (arith, erase-IsUnique (prefixed c.ns key) c.m v)

  pub del-IsValid : (ks : List Text) (c : Cacher D) → IsValid c → IsValid (del ks c)
  unfolding del
  del-IsValid [] c v = v
  del-IsValid (k ∷ ks) c v = del-IsValid ks _ (erase-IsUnique (prefixed c.ns k) c.m v)
