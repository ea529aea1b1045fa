-- ===== src/Journal/Record/Interleaved.antt =====
-- `AddThirdParty` of goroutines that share a journal: each adds its call to the record under the
-- mutex, and writes its line after it has released it, so the lines may be written in another
-- order.
use mathlib.Core.List.{Perm, map-append, perm_middle, append_assoc, append-nil}
use mathlib.Core.List.Perm
use wapgo.Base.{◌≡◌, List, [], ◌∷◌, ◌++◌, map}
use wapgo.Journal.Record.{ThirdParty, CallSummary, summary}

-- `pending` are the lines of the goroutines that are between the two steps.
pub record Shared : Type 0 where
  pub third_party : List ThirdParty
  pub pending : List CallSummary
  pub written : List CallSummary

pub data Step (s : Shared) : Shared → Type 0 where
  add :
      (tp : ThirdParty)
      → Step s
          (record s { third_party = s.third_party ++ tp ∷ []; pending = summary tp ∷ s.pending })
  write :
      (before after : List CallSummary) (line : CallSummary)
      → s.pending ≡ before ++ line ∷ after
      → Step s (record s { pending = before ++ after; written = line ∷ s.written })

pub data Run (s : Shared) : Shared → Type 0 where
  here : Run s s
  next : {t u : Shared} → Run s t → Step t u → Run s u

abbrev pub nothing : Shared
nothing = record { third_party = []; pending = []; written = [] }

-- What is written or will be is what is recorded.
abbrev IsLogged : Shared → Type 0
IsLogged s = Perm (map summary s.third_party) (s.pending ++ s.written)

Step-IsLogged : {s t : Shared} → Step s t → IsLogged s → IsLogged t
Step-IsLogged {s} (add tp) h = rw (map-append summary) (
    Perm.trans (perm_middle (map summary s.third_party) [])
      (rw append-nil (Perm.cons (summary tp) h)))
Step-IsLogged {s} (write before after line e) h = Perm.trans h (
    rw e (
      rw (append_assoc before (line ∷ after)) (
        Perm.trans (perm_middle before (after ++ s.written)) (
          rw (← append_assoc before after s.written)
            (Perm.symm (perm_middle (before ++ after) s.written))))))

Run-IsLogged : {s t : Shared} → IsLogged s → Run s t → IsLogged t
Run-IsLogged h here = h
Run-IsLogged h (next r st) = Step-IsLogged st (Run-IsLogged h r)

-- However the calls of several goroutines interleave, once no goroutine is between its two steps,
-- thirdparty.log has exactly one line for each recorded call, possibly in another order.
pub written-perm :
    {s : Shared} → Run nothing s → s.pending ≡ [] → Perm (map summary s.third_party) s.written
written-perm r e = rw e at (Run-IsLogged Perm.rfl r)
