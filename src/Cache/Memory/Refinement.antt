-- ===== src/Cache/Memory/Refinement.antt =====
-- The contract of internal/domain/repository/cache.go as an abstract store (a function from keys to
-- entries, with no namespace, no sweep and no lazy deletion), and the in-process cacher of
-- internal/repository/memory/cache.go run against it call by call.
use wapgo.Base.{
  ℕ, ◌+◌, ◌≤◌, ◌≡◌, refl, ap, ◌∙◌, Bool, true, false, Option, none, some, List, [], ◌∷◌,
  if◌then◌else◌, Result, ok, err, or_err, arith, any, Option-cases, inl, inr,
}
use wapgo.Base.Int.{ℤ}
use wapgo.Base.Text.{Text, text_eq}
use wapgo.Base.Dict.{lookup}
use wapgo.Cache.Memory.{
  CacheError, miss, unmarshal_failed, marshal_failed, Entry, Cacher, new, deadline, set, get, del,
  exists,
}
use wapgo.Cache.Memory.Laws.{
  live, peek, IsValid, peek-store, store-IsValid, get-eq-peek, exists-eq-peek, peek-get,
  peek-exists, peek-del, get-IsValid, exists-IsValid, del-IsValid,
}

-- One call of the interface, and its answer.
pub data Call (V : Type 0) : Type 0 where
  set_call : Text → V → ℤ → Call V
  get_call : Text → Call V
  del_call : List Text → Call V
  exists_call : Text → Call V

pub data Reply (V : Type 0) : Type 0 where
  done : Result CacheError (Unit {0}) → Reply V
  got : Result CacheError V → Reply V
  found : Bool → Reply V

-- The abstract store.
abbrev pub Store : Type 0 → Type 0
Store D = Text → Option (Entry D)

module _ {V D : Type 0} (marshal : V → Option D) (unmarshal : D → Option V) where
  -- The in-process cacher answers a call made at time `now`.
  pub step : ℕ → Call V → Cacher D → Reply V × Cacher D
  step now (set_call k v ttl) c = let (r, c') = set marshal now k v ttl c in (done r, c')
  step now (get_call k) c = let (r, c') = get unmarshal now k c in (got r, c')
  step now (del_call ks) c = (done (ok tt), del ks c)
  step now (exists_call k) c = let (r, c') = exists now k c in (found r, c')

  -- What the interface promises.
  pub spec_step : ℕ → Call V → Store D → Reply V × Store D
  spec_step now (set_call k v ttl) s = elim (marshal v) [
    | none ↦ (done (err marshal_failed), s)
    | some b ↦ (
      done (ok tt),
      λ j.
          if text_eq k j then some (record { payload = b; expires_at = deadline now ttl }) else s j,
    )
  ]
  spec_step now (get_call k) s = (
    got (elim (live now (s k)) [
      | none ↦ err miss
      | some b ↦ or_err unmarshal_failed (unmarshal b)
    ]),
    s,
  )
  spec_step now (del_call ks) s =
      (done (ok tt), λ j. if any (λ k. text_eq k j) ks then none else s j)
  spec_step now (exists_call k) s =
      (found (elim (live now (s k)) [ none ↦ false | some b ↦ true ]), s)

  -- A client's calls, each with the time since the one before.
  pub run : ℕ → List (ℕ × Call V) → Cacher D → List (Reply V)
  run now [] c = []
  run now ((wait, call) ∷ calls) c =
      let (r, c') = step (now + wait) call c in r ∷ run (now + wait) calls c'

  pub spec_run : ℕ → List (ℕ × Call V) → Store D → List (Reply V)
  spec_run now [] s = []
  spec_run now ((wait, call) ∷ calls) s =
      let (r, s') = spec_step (now + wait) call s in r ∷ spec_run (now + wait) calls s'

  -- From `now` on no reader can tell the two apart.
  pub record Agrees (now : ℕ) (c : Cacher D) (s : Store D) : Type 0 where
    pub valid : IsValid c
    pub seen : (t : ℕ) (k : Text) → now ≤ t → peek t c k ≡ live t (s k)

  Agrees-later :
      (now wait : ℕ) (c : Cacher D) (s : Store D) → Agrees now c s → Agrees (now + wait) c s
  Agrees-later now wait c s a = record { valid = a.valid; seen = λ t k h. a.seen t k (omega arith) }

  step-reply :
      (now : ℕ) (call : Call V) (c : Cacher D) (s : Store D)
      → Agrees now c s
      → (step now call c).0 ≡ (spec_step now call s).0
  unfolding step spec_step set
  step-reply now (set_call k v ttl) c s a = ground arith
  step-reply now (get_call k) c s a =
      ap got (get-eq-peek unmarshal now k c ∙ rw (a.seen now k (omega arith)))
  step-reply now (del_call ks) c s a = refl
  step-reply now (exists_call k) c s a =
      ap found (exists-eq-peek now k c ∙ rw (a.seen now k (omega arith)))

  step-Agrees :
      (now : ℕ) (call : Call V) (c : Cacher D) (s : Store D)
      → Agrees now c s
      → Agrees now (step now call c).1 (spec_step now call s).1
  unfolding step spec_step set
  step-Agrees now (set_call k v ttl) c s a = elim (Option-cases (marshal v)) [
    | inl failed ↦ rw (failed, step, spec_step, set) a
    | inr (b, encoded) ↦
        let e : Entry D = record { payload = b; expires_at = deadline now ttl } in
        rw (encoded, step, spec_step, set)
          (record {
            valid = store-IsValid now k e c a.valid;
            seen = λ t j h. peek-store now t k j e c a.valid h ∙ ground (arith, a.seen t j h);
          })
  ]
  step-Agrees now (get_call k) c s a = record {
    valid = get-IsValid unmarshal now k c a.valid;
    seen = λ t j h. peek-get unmarshal now t k j c h ∙ a.seen t j h;
  }
  step-Agrees now (del_call ks) c s a = record {
    valid = del-IsValid ks c a.valid;
    seen = λ t j h. peek-del t ks j c ∙ ground (arith, a.seen t j h);
  }
  step-Agrees now (exists_call k) c s a = record {
    valid = exists-IsValid now k c a.valid;
    seen = λ t j h. peek-exists now t k j c h ∙ a.seen t j h;
  }

  run-Agrees :
      (now : ℕ) (calls : List (ℕ × Call V)) (c : Cacher D) (s : Store D)
      → Agrees now c s
      → run now calls c ≡ spec_run now calls s
  unfolding run spec_run
  run-Agrees now [] c s a = refl
  run-Agrees now ((wait, call) ∷ calls) c s a =
      let later = Agrees-later now wait c s a in
      rw (step-reply (now + wait) call c s later) (
        ap (λ rs. (spec_step (now + wait) call s).0 ∷ rs)
          (run-Agrees (now + wait) calls (step (now + wait) call c).1
            (spec_step (now + wait) call s).1 (step-Agrees (now + wait) call c s later)))

  -- Whatever a client calls and however much time passes between its calls, a fresh in-process
  -- cacher answers as the abstract store does: its namespace, its sweep and its lazy deletion of
  -- expired entries cannot be observed.
  pub run-eq-spec_run :
      (ns : Text) (now : ℕ) (calls : List (ℕ × Call V))
      → run now calls (new ns) ≡ spec_run now calls (λ k. none)
  unfolding new peek lookup
  run-eq-spec_run ns now calls =
      run-Agrees now calls (new ns) (λ k. none) (record { valid = tt; seen = λ t k h. refl })
