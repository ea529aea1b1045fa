-- ===== src/Journal/Record/Laws.antt =====
-- The record of a request against the lines of the files.
use mathlib.Core.List.{map-append, append-nil, append_assoc}
use wapgo.Base.{ℕ, ◌≡◌, refl, Option, none, some, List, [], ◌∷◌, ◌++◌, map}
use wapgo.Base.Text.{Text}
use wapgo.Journal.Record.{
  Kind, ThirdParty, Trace, Journal, CallSummary, Line, summary, start, set_request_id, set_trace_id,
  add_third_party, add_trace, third_parties, traces_of,
}

-- The calls that application code makes on a journal.
pub data Call (D : Type 0) : Type 0 where
  identify correlate : Text → Call D
  call_out : ThirdParty → Call D
  note : Text → D → ℕ → Call D

pub record Files (D : Type 0) : Type 0 where
  pub thirdparty : List (Line CallSummary)
  pub trace : List (Line (Text × D))

abbrev pub contents : {A : Type 0} → List (Line A) → List A
contents [] = []
contents (l ∷ ls) = l.what ∷ contents ls

contents-append :
    {A : Type 0} (ls ms : List (Line A)) → contents (ls ++ ms) ≡ contents ls ++ contents ms
contents-append [] ms = refl
contents-append (l ∷ ls) ms = cc (contents-append ls ms)

module _ {D : Type 0} where
  pub call : Call D → Option (Journal D) → Files D → Option (Journal D) × Files D
  call (identify id) j f = (set_request_id id j, f)
  call (correlate id) j f = (set_trace_id id j, f)
  call (call_out tp) j f =
      let (j', lines) = add_third_party tp j in
      (j', record f { thirdparty = f.thirdparty ++ lines })
  call (note name payload now) j f =
      let (j', lines) = add_trace name payload now j in (j', record f { trace = f.trace ++ lines })

  pub calls : List (Call D) → Option (Journal D) → Files D → Option (Journal D) × Files D
  calls [] j f = (j, f)
  calls (c ∷ cs) j f = let (j', f') = call c j f in calls cs j' f'

  -- The outgoing calls and the notes among the calls, in order.
  abbrev pub called : List (Call D) → List ThirdParty
  called [] = []
  called (call_out tp ∷ cs) = tp ∷ called cs
  called (_ ∷ cs) = called cs

  abbrev pub notes : List (Call D) → List (Text × D)
  notes [] = []
  notes (note name payload now ∷ cs) = (name, payload) ∷ notes cs
  notes (_ ∷ cs) = notes cs

  abbrev pub noted : Trace D → Text × D
  noted t = (t.name, t.payload)

  pub calls-called :
      (cs : List (Call D)) (j : Journal D) (f : Files D)
      → third_parties (calls cs (some j) f).0 ≡ j.third_party ++ called cs
  unfolding calls call set_request_id set_trace_id add_third_party add_trace third_parties
  calls-called [] j f = rw append-nil
  calls-called (identify id ∷ cs) j f = calls-called cs _ f
  calls-called (correlate id ∷ cs) j f = calls-called cs _ f
  calls-called (call_out tp ∷ cs) j f = rw (calls-called cs, append_assoc j.third_party (tp ∷ []))
  calls-called (note name payload now ∷ cs) j f = calls-called cs _ _

  pub calls-notes :
      (cs : List (Call D)) (j : Journal D) (f : Files D)
      → map noted (traces_of (calls cs (some j) f).0) ≡ map noted j.traces ++ notes cs
  unfolding calls call set_request_id set_trace_id add_third_party add_trace traces_of
  calls-notes [] j f = rw append-nil
  calls-notes (identify id ∷ cs) j f = calls-notes cs _ f
  calls-notes (correlate id ∷ cs) j f = calls-notes cs _ f
  calls-notes (call_out tp ∷ cs) j f = calls-notes cs _ _
  calls-notes (note name payload now ∷ cs) j f =
      rw
        (calls-notes cs, map-append noted, append_assoc (map noted j.traces) ((name, payload) ∷ []))

  pub calls-thirdparty :
      (cs : List (Call D)) (j : Journal D) (f : Files D)
      → contents (calls cs (some j) f).1.thirdparty
        ≡ contents f.thirdparty ++ map summary (called cs)
  unfolding calls call set_request_id set_trace_id add_third_party add_trace
  calls-thirdparty [] j f = rw append-nil
  calls-thirdparty (identify id ∷ cs) j f = calls-thirdparty cs _ f
  calls-thirdparty (correlate id ∷ cs) j f = calls-thirdparty cs _ f
  calls-thirdparty (call_out tp ∷ cs) j f =
      rw (
        calls-thirdparty cs,
        contents-append,
        append_assoc (contents f.thirdparty) (summary tp ∷ []),
      )
  calls-thirdparty (note name payload now ∷ cs) j f = calls-thirdparty cs _ _

  pub calls-trace :
      (cs : List (Call D)) (j : Journal D) (f : Files D)
      → contents (calls cs (some j) f).1.trace ≡ contents f.trace ++ notes cs
  unfolding calls call set_request_id set_trace_id add_third_party add_trace
  calls-trace [] j f = rw append-nil
  calls-trace (identify id ∷ cs) j f = calls-trace cs _ f
  calls-trace (correlate id ∷ cs) j f = calls-trace cs _ f
  calls-trace (call_out tp ∷ cs) j f = calls-trace cs _ _
  calls-trace (note name payload now ∷ cs) j f =
      rw (calls-trace cs, contents-append, append_assoc (contents f.trace) ((name, payload) ∷ []))

  abbrev pub no_lines : Files D
  no_lines = record { thirdparty = []; trace = [] }

  -- The record of a request and the two files agree: whatever is called on a new journal, the
  -- record holds every outgoing call and every note, in order, and thirdparty.log and trace.log got
  -- one line for each of them, in the same order.
  pub calls-start :
      (cs : List (Call D)) (kind : Kind)
      → let (j, f) = calls cs (some (start kind)) no_lines in
        (third_parties j ≡ called cs)
        × (contents f.thirdparty ≡ map summary (called cs))
        × (map noted (traces_of j) ≡ notes cs)
        × (contents f.trace ≡ notes cs)
  unfolding start
  calls-start cs kind = (
    calls-called cs (start kind) no_lines,
    calls-thirdparty cs (start kind) no_lines,
    calls-notes cs (start kind) no_lines,
    calls-trace cs (start kind) no_lines,
  )

  -- On a nil journal every call is a no-op: nothing is recorded and nothing is written.
  pub calls_nil : (cs : List (Call D)) (f : Files D) → calls cs none f ≡ (none, f)
  unfolding calls call set_request_id set_trace_id add_third_party add_trace
  calls_nil [] f = refl
  calls_nil (identify id ∷ cs) f = calls_nil cs f
  calls_nil (correlate id ∷ cs) f = calls_nil cs f
  calls_nil (call_out tp ∷ cs) f = rw append-nil (calls_nil cs f)
  calls_nil (note name payload now ∷ cs) f = rw append-nil (calls_nil cs f)
