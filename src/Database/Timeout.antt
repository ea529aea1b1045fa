-- ===== src/Database/Timeout.antt =====
-- pkg/database/timeout.go. A statement has a context, which may be nil: its deadline and, once the
-- plugin has given it one, what cancels it. A deadline is a time in nanoseconds.
use wapgo.Base.{
  ℕ, ◌+◌, ◌≡◌, refl, Bool, true, false, Option, none, some, if◌then◌else◌, Option-cases, inl, inr,
}
use wapgo.Base.Int.{ℤ, pos, pos_part, ltb_ℤ}

pub record Context : Type 0 where
  pub deadline : Option ℕ
  pub has_cancel : Bool
  pub cancelled : Bool

abbrev pub background : Context
background = record { deadline = none; has_cancel = false; cancelled = false }

-- The context of a statement, `none` for nil.
pub record Statement : Type 0 where
  pub context : Option Context

-- `NewQueryTimeoutPlugin`
unfoldable pub plugin_timeout : ℤ → ℕ
plugin_timeout given = if ltb_ℤ (pos 0) given then pos_part given else 5_000_000_000

abbrev pub or_background : Option Context → Context
or_background none = background
or_background (some c) = c

abbrev pub bounded : ℕ → ℕ → Context → Context
bounded now timeout c = elim c.deadline [
  | none ↦ record { deadline = some (now + timeout); has_cancel = true; cancelled = false }
  | some d ↦ c
]

-- `before` at `now`; a nil statement is left alone. A deadline that is there stays, and so does a
-- nil context only until the plugin gives it one.
unfoldable pub before : ℕ → ℕ → Option Statement → Option Statement
before now timeout none = none
before now timeout (some s) =
    some (record { context = some (bounded now timeout (or_background s.context)) })

-- `after`: cancels what `before` made.
abbrev pub released : Context → Context
released c = if c.has_cancel then record c { cancelled = true } else c

abbrev pub released_in : Option Context → Option Context
released_in none = none
released_in (some c) = some (released c)

unfoldable pub after : Option Statement → Option Statement
after none = none
after (some s) = some (record { context = released_in s.context })

abbrev deadline_of : Option Context → Option ℕ
deadline_of none = none
deadline_of (some c) = c.deadline

-- No statement runs without a deadline: a statement that has none gets one at the timeout, and its
-- context is cancelled after the statement; a deadline that is there is kept, even if it is later.
pub after-before :
    (now timeout : ℕ) (s : Statement)
    → after (before now timeout (some s))
      ≡ some (record {
        context = some (elim (deadline_of s.context) [
          | none ↦ record { deadline = some (now + timeout); has_cancel = true; cancelled = true }
          | some d ↦ released (or_background s.context)
        ]);
      })
unfolding after before
after-before now timeout s = by_context s.context
  where
    by_context :
        (context : Option Context)
        → after (before now timeout (some (record { context = context })))
          ≡ some (record {
            context = some (elim (deadline_of context) [
              | none ↦ record {
                deadline = some (now + timeout);
                has_cancel = true;
                cancelled = true;
              }
              | some d ↦ released (or_background context)
            ]);
          })
    by_context none = refl
    by_context (some c) = elim (Option-cases c.deadline) [
      | inl free ↦ rw (free, bounded) refl
      | inr (d, held) ↦ rw (held, bounded) refl
    ]
