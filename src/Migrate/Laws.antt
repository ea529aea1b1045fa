-- ===== src/Migrate/Laws.antt =====
-- What an operator of cmd/migrate can rely on, given migrations whose SQL does not fail.
use wapgo.Base.{
  ℕ, suc, ◌+◌, ◌-◌, ◌≤◌, ◌<◌, ◌≡◌, true, false, none, some, [], ◌∷◌, ltb, ok, arith, Option-cases,
  Bool-cases, inl, inr,
}
use wapgo.Base.Int.{ℤ, pos, negsuc, ltb_ℤ}
use wapgo.Base.Text.{Text, codes}
use wapgo.Migrate.{Error, no_change, dirty_at, Migrator, done, minus, down_steps, report, exec, run}

-- `Force` sets a version that is clean, as golang-migrate documents.
pub record CanForce {S : Type 0} (m : Migrator S) : Type 0 where
  pub force_ok : (v : ℕ) (s : S) → (m.force v s).0 ≡ none
  pub force_version : (v : ℕ) (s : S) → m.version (m.force v s).1 ≡ ok (v, false)

-- A source of `total` migrations that all run: of a clean database so many are applied.
pub record IsMigrator {S : Type 0} (m : Migrator S) : Type 0 where
  pub total : ℕ
  pub applied : S → ℕ
  pub steps_up :
      (n : ℕ) (s : S)
      → 0 < n
      → applied s + n ≤ total
      → ((m.steps (pos n) s).0 ≡ none) × (applied (m.steps (pos n) s).1 ≡ applied s + n)
  pub steps_down :
      (n : ℕ) (s : S)
      → n < applied s
      → ((m.steps (negsuc n) s).0 ≡ none) × (applied (m.steps (negsuc n) s).1 + suc n ≡ applied s)
  pub up_pending : (s : S) → applied s < total → ((m.up s).0 ≡ none) × (applied (m.up s).1 ≡ total)
  pub up_current : (s : S) → applied s ≡ total → ((m.up s).0 ≡ some no_change) × ((m.up s).1 ≡ s)

module _ {S : Type 0} (m : Migrator S) where
  -- A call of the library that returns nil.
  run_up_steps :
      (n : ℕ) (target : ℤ) (s : S)
      → 0 < n
      → (m.steps (pos n) s).0 ≡ none
      → run m (codes "up") (pos n) target s
        ≡ record { error = none; printed = done (codes "up") ∷ []; state = (m.steps (pos n) s).1 }
  unfolding run report
  run_up_steps n target s p h = ground arith

  run_down :
      (steps target : ℤ) (s : S)
      → (m.steps (minus (down_steps steps)) s).0 ≡ none
      → run m (codes "down") steps target s ≡ record {
        error = none;
        printed = done (codes "down") ∷ [];
        state = (m.steps (minus (down_steps steps)) s).1;
      }
  unfolding run report
  run_down steps target s h = ground arith

  run_force :
      (steps : ℤ) (v : ℕ) (s : S)
      → (m.force v s).0 ≡ none
      → run m (codes "force") steps (pos v) s
        ≡ record { error = none; printed = done (codes "force") ∷ []; state = (m.force v s).1 }
  unfolding run report
  run_force steps v s h = ground arith

  run_dirty :
      (dir : Text) (steps target : ℤ) (s : S) (e : Error) (v : ℕ)
      → (run m dir steps target s).error ≡ some e
      → m.version (run m dir steps target s).state ≡ ok (v, true)
      → (cause : Error) × (e ≡ dirty_at v cause)
  unfolding run
  run_dirty dir steps target s e v failed dirty =
      elim (Option-cases (exec m dir steps target s).error) [
        | inl fine ↦ absurd (ground arith)
        | inr (cause, f) ↦ (cause, ground arith)
      ]

  -- A failure that leaves the database dirty says how to go on, and that works: if a run fails and
  -- the database is dirty at a version after it, the error names that version, and running `-dir
  -- force -version` with it succeeds and leaves the database clean at that version.
  pub run_recovers :
      (law : CanForce m) (dir : Text) (steps target any_steps : ℤ) (s : S) (e : Error) (v : ℕ)
      → (run m dir steps target s).error ≡ some e
      → m.version (run m dir steps target s).state ≡ ok (v, true)
      → let again = run m (codes "force") any_steps (pos v) (run m dir steps target s).state in
        ((cause : Error) × (e ≡ dirty_at v cause))
        × (again.error ≡ none)
        × (m.version again.state ≡ ok (v, false))
  run_recovers law dir steps target any_steps s e v failed dirty =
      let t = (run m dir steps target s).state in
      let forced = run_force any_steps v t (law.force_ok v t) in
      (run_dirty dir steps target s e v failed dirty, rw forced, rw forced (law.force_version v t))

  module _ (law : IsMigrator m) where
    open law use {total, applied, steps_up, steps_down, up_pending, up_current}

    down_applied :
        (steps target : ℤ) (k : ℕ) (s : S)
        → down_steps steps ≡ suc k
        → k < applied s
        → ((run m (codes "down") steps target s).error ≡ none)
          × (applied (run m (codes "down") steps target s).state + suc k ≡ applied s)
    down_applied steps target k s e h =
        let (fine, fewer) = steps_down k s h in
        let lowered = run_down steps target s (rw e fine) in (rw lowered, rw (lowered, e) fewer)

    up_applied :
        (steps target : ℤ) (s : S)
        → ltb_ℤ (pos 0) steps ≡ false
        → applied s ≤ total
        → ((run m (codes "up") steps target s).error ≡ none)
          × (applied (run m (codes "up") steps target s).state ≡ total)
    unfolding run report
    up_applied steps target s none_given within = elim (Bool-cases (ltb (applied s) total)) [
      | inl pending ↦ ground (arith, up_pending s)
      | inr current ↦ ground (arith, up_current s)
    ]

    -- Down takes back what up did: of a database with room for `n` more migrations, `-dir up -steps
    -- n` and then `-dir down -steps n` both succeed, and as many are applied as before.
    pub applied-down_up :
        (n : ℕ) (target : ℤ) (s : S)
        → 0 < n
        → applied s + n ≤ total
        → let raised = run m (codes "up") (pos n) target s in
          let lowered = run m (codes "down") (pos n) target raised.state in
          (raised.error ≡ none)
          × (applied raised.state ≡ applied s + n)
          × (lowered.error ≡ none)
          × (applied lowered.state ≡ applied s)
    applied-down_up n target s p room =
        let (fine, more) = steps_up n s p room in
        let raised = run_up_steps n target s p fine in
        let t = (m.steps (pos n) s).1 in
        let (lowered, fewer) = down_applied (pos n) target (n - 1) t (ground arith) (omega arith) in
        (rw raised, rw raised more, rw raised lowered, rw raised (omega arith))

    -- Without `-steps` the two are no inverses: up applies all that is pending, or reports that
    -- nothing is, which is no error; down takes back one, and at least one must be applied.
    pub applied_default :
        (steps target : ℤ) (s : S)
        → ltb_ℤ (pos 0) steps ≡ false
        → applied s ≤ total
        → 0 < total
        → let raised = run m (codes "up") steps target s in
          let lowered = run m (codes "down") steps target raised.state in
          (raised.error ≡ none)
          × (applied raised.state ≡ total)
          × (lowered.error ≡ none)
          × (applied lowered.state + 1 ≡ total)
    applied_default steps target s none_given within some_migration =
        let (fine, all_applied) = up_applied steps target s none_given within in
        let t = (run m (codes "up") steps target s).state in
        let (lowered, fewer) = down_applied steps target 0 t (rw none_given) (omega arith) in
        (fine, all_applied, lowered, omega arith)
