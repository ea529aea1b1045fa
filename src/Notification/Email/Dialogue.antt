-- ===== src/Notification/Email/Dialogue.antt =====
-- What the SMTP dialogue of `Send` guarantees, and what it does not look at.
use wapgo.Base.{
  ◌≡◌, refl, Bool, true, false, not, ◌&&◌, ◌||◌, Option, none, some, List, [], ◌∷◌, ◌++◌, ◌==◌, all,
  map, ap, arith, ◌∙◌,
}
use wapgo.Base.Text.{Text}
use wapgo.Notification.Email.{
  Message, Config, build_raw, Step, connect, implicit_tls, new_client, no_starttls, start_tls, auth,
  mail_from, rcpt, begin_data, end_data, write, opening, fails, run, finish, dial, or_nobody,
  reported, send,
}

-- Whether every login in a dialogue comes behind TLS.
abbrev pub guarded : Bool → List Step → Bool
guarded secure [] = true
guarded secure (implicit_tls ∷ steps) = guarded true steps
guarded secure (start_tls ∷ steps) = guarded true steps
guarded secure (auth user password ∷ steps) = secure && guarded secure steps
guarded secure (_ ∷ steps) = guarded secure steps

-- The same of planned steps, where nothing happens behind a step that always fails.
abbrev planned : Bool → List Step → Bool
planned secure [] = true
planned secure (implicit_tls ∷ steps) = planned true steps
planned secure (start_tls ∷ steps) = planned true steps
planned secure (auth user password ∷ steps) = secure && planned secure steps
planned secure (no_starttls ∷ steps) = true
planned secure (_ ∷ steps) = planned secure steps

guarded-run :
    (refuses : Step → Bool) (secure : Bool) (steps : List Step)
    → planned secure steps ≡ true
    → guarded secure (run refuses steps).0 ≡ true
unfolding run
guarded-run refuses secure [] h = refl
guarded-run refuses secure (connect ∷ steps) h = ground (arith, guarded-run refuses secure steps)
guarded-run refuses secure (implicit_tls ∷ steps) h = guarded-run refuses true steps h
guarded-run refuses secure (new_client ∷ steps) h = ground (arith, guarded-run refuses secure steps)
guarded-run refuses secure (no_starttls ∷ steps) h = refl
guarded-run refuses secure (start_tls ∷ steps) h = ground (arith, guarded-run refuses true steps)
guarded-run refuses secure (auth u p ∷ steps) h = ground (arith, guarded-run refuses secure steps)
guarded-run refuses secure (mail_from f ∷ steps) h =
    ground (arith, guarded-run refuses secure steps)
guarded-run refuses secure (rcpt r ∷ steps) h = ground (arith, guarded-run refuses secure steps)
guarded-run refuses secure (begin_data ∷ steps) h = ground (arith, guarded-run refuses secure steps)
guarded-run refuses secure (end_data ∷ steps) h = ground (arith, guarded-run refuses secure steps)
guarded-run refuses secure (write t ∷ steps) h = ground (arith, guarded-run refuses secure steps)

planned_tail :
    (secure : Bool) (rs : List Text) → planned secure (map rcpt rs ++ begin_data ∷ []) ≡ true
planned_tail secure [] = refl
planned_tail secure (r ∷ rs) = planned_tail secure rs

opening-planned :
    (cfg : Config) (offers : Bool) (msg : Message)
    → ((cfg.port == 465) || (cfg.port == 587)) ≡ true
    → planned false (opening cfg offers msg) ≡ true
unfolding opening
opening-planned cfg offers msg h =
    ground (arith, planned_tail true (msg.to ++ msg.cc), planned_tail false (msg.to ++ msg.cc))

guarded-append :
    (secure : Bool) (steps : List Step) (text : Text)
    → guarded secure (steps ++ write text ∷ end_data ∷ []) ≡ guarded secure steps
guarded-append secure [] text = refl
guarded-append secure (connect ∷ steps) text = guarded-append secure steps text
guarded-append secure (implicit_tls ∷ steps) text = guarded-append true steps text
guarded-append secure (new_client ∷ steps) text = guarded-append secure steps text
guarded-append secure (no_starttls ∷ steps) text = guarded-append secure steps text
guarded-append secure (start_tls ∷ steps) text = guarded-append true steps text
guarded-append secure (auth u p ∷ steps) text = rw (guarded-append secure steps text)
guarded-append secure (mail_from f ∷ steps) text = guarded-append secure steps text
guarded-append secure (rcpt r ∷ steps) text = guarded-append secure steps text
guarded-append secure (begin_data ∷ steps) text = guarded-append secure steps text
guarded-append secure (end_data ∷ steps) text = guarded-append secure steps text
guarded-append secure (write t ∷ steps) text = guarded-append secure steps text

guarded-finish :
    (refuses : Step → Bool) (text : Text) (out : List Step × Option Step)
    → guarded false out.0 ≡ true
    → guarded false (finish refuses (write text) out).0 ≡ true
guarded-finish refuses text (taken, some s) h = h
guarded-finish refuses text (taken, none) h = guarded-append false taken text ∙ h

-- On the two submission ports the password is sent behind TLS only: with port 465 or 587, whatever
-- the server offers and answers, every login that is tried comes after the connection was turned
-- to TLS.
pub dial-guarded :
    (cfg : Config) (offers : Bool) (refuses : Step → Bool) (msg : Message)
    → ((cfg.port == 465) || (cfg.port == 587)) ≡ true
    → guarded false (dial cfg offers refuses msg).0 ≡ true
unfolding dial
dial-guarded cfg offers refuses msg h =
    let steps = opening cfg offers msg in
    guarded-finish refuses (build_raw cfg msg) (run refuses steps)
      (guarded-run refuses false steps (opening-planned cfg offers msg h))

abbrev pub is_end : Step → Bool
is_end end_data = true
is_end _ = false

fails_alike :
    (refuses other : Step → Bool) (s : Step)
    → (is_end s ≡ false → refuses s ≡ other s)
    → is_end s ≡ false
    → fails refuses s ≡ fails other s
fails_alike refuses other implicit_tls h e = refl
fails_alike refuses other no_starttls h e = refl
fails_alike refuses other s h e = h e

run_alike :
    (refuses other : Step → Bool) (steps : List Step)
    → ((s : Step) → is_end s ≡ false → refuses s ≡ other s)
    → all (λ s. not (is_end s)) steps ≡ true
    → run refuses steps ≡ run other steps
unfolding run
run_alike refuses other [] h k = refl
run_alike refuses other (s ∷ steps) h k =
    let same : fails refuses s ≡ fails other s = fails_alike refuses other s (h s) (ground arith) in
    rw (same, run_alike refuses other steps h (ground arith)) refl

tail_unended : (rs : List Text) → all (λ s. not (is_end s)) (map rcpt rs ++ begin_data ∷ []) ≡ true
tail_unended [] = refl
tail_unended (r ∷ rs) = tail_unended rs

opening_unended :
    (cfg : Config) (offers : Bool) (msg : Message)
    → all (λ s. not (is_end s)) (opening cfg offers msg) ≡ true
unfolding opening
opening_unended cfg offers msg = ground (arith, tail_unended (msg.to ++ msg.cc))

finish_alike :
    (refuses other : Step → Bool) (text : Step) (out : List Step × Option Step)
    → refuses text ≡ other text
    → finish refuses text out ≡ finish other text out
finish_alike refuses other text (taken, some s) e = refl
finish_alike refuses other text (taken, none) e = rw e

dial_alike :
    (cfg : Config) (offers : Bool) (refuses other : Step → Bool) (msg : Message)
    → ((s : Step) → is_end s ≡ false → refuses s ≡ other s)
    → dial cfg offers refuses msg ≡ dial cfg offers other msg
unfolding dial
dial_alike cfg offers refuses other msg h =
    let text = write (build_raw cfg msg) in
    ap (finish refuses text)
      (run_alike refuses other (opening cfg offers msg) h (opening_unended cfg offers msg))
    ∙ finish_alike refuses other text (run other (opening cfg offers msg)) (h text refl)

-- A message that the server rejects at the end of its data counts as sent: two servers that answer
-- every step alike, except the end of the data, lead to the same result of `Send`: the same steps,
-- error and journal status. So a rejection there is reported as success, with status 250.
pub send_ignores_end :
    (cfg : Config) (offers : Bool) (refuses other : Step → Bool) (msg : Message)
    → ((s : Step) → is_end s ≡ false → refuses s ≡ other s)
    → send cfg offers refuses msg ≡ send cfg offers other msg
unfolding send
send_ignores_end cfg offers refuses other msg h =
    ap (λ out. or_nobody msg.to (reported out)) (dial_alike cfg offers refuses other msg h)
