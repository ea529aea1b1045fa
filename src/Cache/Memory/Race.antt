-- ===== src/Cache/Memory/Race.antt =====
-- `Get` of internal/repository/memory/cache.go with a `Set` between its two critical sections.
use wapgo.Base.{ℕ, ◌≤◌, ◌≡◌, ◌∙◌, true, Option, none, some, err, or_err}
use wapgo.Base.Int.{pos}
use wapgo.Base.Text.{Text, text_eq_refl}
use wapgo.Cache.Memory.{
  miss, Entry, Cacher, is_expired, read, drop, get, set, unmarshal_failed, store,
}
use wapgo.Cache.Memory.Laws.{IsValid, get-eq-peek, peek_erase, peek-store, peek}

module _ {A D : Type 0} (marshal : A → Option D) (unmarshal : D → Option A) where
  get_expired :
      (now : ℕ) (key : Text) (old : Entry D) (c : Cacher D)
      → read key c ≡ some old
      → is_expired now old ≡ true
      → get unmarshal now key c ≡ (err miss, drop key c)
  unfolding get
  get_expired now key old c found past = rw (found, get, past)

  set_encoded :
      (now : ℕ) (key : Text) (v : A) (d : D) (c : Cacher D)
      → marshal v ≡ some d
      → (set marshal now key v (pos 0) c).1
        ≡ store now key (record { payload = d; expires_at = none }) c
  unfolding set
  set_encoded now key v d c encoded = rw (encoded, set)

  dropped : (t : ℕ) (key : Text) (c : Cacher D) → peek t (drop key c) key ≡ none
  unfolding drop
  dropped t key c = peek_erase t key key c ∙ rw (text_eq_refl key)

  -- A value that is set between the two steps of a `Get` is lost. The `Get` finds an expired entry;
  -- another client sets the key, which from then on reads as the new value; then the `Get` deletes
  -- the key, and the next read is a miss.
  pub get_loses_set :
      (now t : ℕ) (key : Text) (v : A) (d : D) (old : Entry D) (c : Cacher D)
      → IsValid c
      → read key c ≡ some old
      → is_expired now old ≡ true
      → now ≤ t
      → marshal v ≡ some d
      → let after_set = (set marshal now key v (pos 0) c).1 in
        (get unmarshal now key c ≡ (err miss, drop key c))
        × ((get unmarshal t key after_set).0 ≡ or_err unmarshal_failed (unmarshal d))
        × ((get unmarshal t key (drop key after_set)).0 ≡ err miss)
  get_loses_set now t key v d old c fit found past h encoded =
      let e : Entry D = record { payload = d; expires_at = none } in
      let w = store now key e c in
      (
        get_expired now key old c found past,
        rw (set_encoded now key v d c encoded) (
            get-eq-peek unmarshal t key w
            ∙ rw (peek-store now t key key e c fit h, text_eq_refl key)),
        get-eq-peek unmarshal t key (drop key (set marshal now key v (pos 0) c).1)
            ∙ rw (dropped t key (set marshal now key v (pos 0) c).1),
      )
