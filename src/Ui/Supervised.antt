-- ===== src/Ui/Supervised.antt =====
-- Every session that the control panel drives can be stopped, ui/src/main.rs: as long as a task
-- that ends checks and writes at once.
use xkvm.Base.{
  ℕ, ◌≡◌, refl, sym, ap, ◌∙◌, ◌⊎◌, inl, inr, Bool, true, false, none, some, subst, ◌==◌, Bool-cases,
  nat_eq, Text, text_eq,
}
use mathlib.Core.Bool.{false≢true}
use xkvm.Ui.{
  AppState, Phase, ending, done, World, take_previous, mirrored, mirror_event, get_status,
  take_session, Step, begins, takes, fails, checks, rechecks, refuses, writes, stops, gives_up,
  finishes, mirrors, Reach, start, then_step,
}
use xkvm.Client.Session.{
  SessionEvent, connected, clipboard_received, disconnected, forwarding_changed, latency, error,
}
use xkvm.Ui.Ordered.{token, started, owns, drives, IsOrdered, initial-IsOrdered}
use xkvm.Ui.Preserved.{
  goes-IsOrdered, begin_reset-IsOrdered, take_previous-IsOrdered, check_install-IsOrdered,
  write_session-IsOrdered, finish-IsOrdered, app-IsOrdered,
}

mirrored-keeps :
    (reason : Bool → Text) (event : SessionEvent) (app : AppState)
    → ((mirrored reason event app).generation ≡ app.generation)
      × ((mirrored reason event app).session ≡ app.session)
unfolding mirrored
mirrored-keeps reason (connected name fingerprint) app = (refl, refl)
mirrored-keeps reason (disconnected closed) app = (refl, refl)
mirrored-keeps reason (forwarding_changed on) app = (refl, refl)
mirrored-keeps reason (clipboard_received size) app = (refl, refl)
mirrored-keeps reason (latency ms) app = (refl, refl)
mirrored-keeps reason (error msg) app = (refl, refl)

mirror_event-keeps :
    (reason : Bool → Text) (g : ℕ) (event : SessionEvent) (app app' : AppState)
    → mirror_event reason g event app ≡ some app'
    → (app'.generation ≡ app.generation) × (app'.session ≡ app.session)
unfolding mirror_event
mirror_event-keeps reason g event app app' e = elim (Bool-cases (app.generation == g)) [
  | inl b ↦
      let same : mirrored reason event app ≡ app' = cc (b, e) in
      subst (λ x. (x.generation ≡ app.generation) × (x.session ≡ app.session)) same
        (mirrored-keeps reason event app)
  | inr b ↦ absurd (cc (b, e))
]

Step-IsOrdered : (w w' : World) → Step w w' → IsOrdered w → IsOrdered w'
unfolding started owns drives
Step-IsOrdered _ _ (begins connects w) i = begin_reset-IsOrdered connects w i
Step-IsOrdered _ _ (takes connects g w p l) i = take_previous-IsOrdered connects g w p l i
Step-IsOrdered _ _ (fails g w p) i =
    goes-IsOrdered g done w (λ e. cc (sym p ∙ e)) (ap started p) (λ _. ap owns p)
      (λ f. absurd (false≢true f)) i
Step-IsOrdered _ _ (checks g w p l) i =
    check_install-IsOrdered true g w (λ e. cc (sym p ∙ e)) (ap owns p) i
Step-IsOrdered _ _ (rechecks g w p l) i =
    check_install-IsOrdered false g w (λ e. cc (sym p ∙ e)) (ap owns p) i
Step-IsOrdered _ _ (refuses true g w p e) i =
    check_install-IsOrdered true g w (λ e. cc (sym p ∙ e)) (ap owns p) i
Step-IsOrdered _ _ (refuses false g w p e) i =
    check_install-IsOrdered false g w (λ e. cc (sym p ∙ e)) (ap owns p) i
Step-IsOrdered _ _ (writes g active w l) i = write_session-IsOrdered g active w l i
Step-IsOrdered _ _ (stops g w p) i =
    goes-IsOrdered g _ w (λ e. cc (sym p ∙ e)) (ap started p) (λ _. ap owns p) (λ _. ap drives p) i
Step-IsOrdered _ _ (gives_up g w p) i =
    goes-IsOrdered g ending w (λ e. cc (sym p ∙ e)) (ap started p) (λ _. ap owns p)
      (λ f. absurd (false≢true f)) i
Step-IsOrdered _ _ (finishes g w p l) i = finish-IsOrdered g w p l i
Step-IsOrdered _ _ (mirrors reason g event w app e) i =
    let (a, s) = mirror_event-keeps reason g event w.app app e in app-IsOrdered app w a s i

pub Reach-IsOrdered : (w : World) → Reach w → IsOrdered w
Reach-IsOrdered _ start = initial-IsOrdered
Reach-IsOrdered _ (then_step w0 w r s) = Step-IsOrdered w0 w s (Reach-IsOrdered w0 r)

-- However the calls and their tasks take turns, as long as nothing comes between the check and the
-- write of a task that ends: a call that runs a session, or is about to connect it again, has its
-- token cancelled or its session is the one in the state.
pub Reach-supervised :
    (w : World) (g : ℕ)
    → Reach w
    → drives (w.phase g) ≡ true
    → (w.cancelled g ≡ true) ⊎ (token w ≡ some g)
Reach-supervised w g r d = (Reach-IsOrdered w r).supervised g d

-- However the calls and their tasks have taken turns, as long as nothing came between the check and
-- the write of a task that ends: when a call takes the previous session, the status is not
-- connected and every session that is still driven is cancelled.
take_previous-stops :
    (connects : Bool) (g h : ℕ) (w : World)
    → Reach w
    → w.phase g ≡ Phase.bumped connects
    → w.lock ≡ none
    → drives ((take_previous connects g w).phase h) ≡ true
    → ((get_status (take_previous connects g w).app).connected ≡ false)
      × ((take_previous connects g w).cancelled h ≡ true)
unfolding take_previous take_session get_status
take_previous-stops connects g h w r p l d = stops_with connects p d
  where
    taken :
        (connects : Bool)
        → w.phase g ≡ Phase.bumped connects
        → IsOrdered (take_previous connects g w)
    taken connects p = take_previous-IsOrdered connects g w p l (Reach-IsOrdered w r)

    stops_with :
        (connects : Bool)
        → w.phase g ≡ Phase.bumped connects
        → drives ((take_previous connects g w).phase h) ≡ true
        → ((get_status (take_previous connects g w).app).connected ≡ false)
          × ((take_previous connects g w).cancelled h ≡ true)
    stops_with true p d =
        (refl, elim ((taken true p).supervised h d) [ inl c ↦ c | inr e ↦ absurd (cc e) ])
    stops_with false p d =
        (refl, elim ((taken false p).supervised h d) [ inl c ↦ c | inr e ↦ absurd (cc e) ])

-- However the calls and their tasks take turns: writing a session into the state replaces none, or
-- the one of the same call, or one that is cancelled.
pub write_session-replaces :
    (g t : ℕ) (w : World) → Reach w → w.lock ≡ some g → token w ≡ some t → t ≡ g
unfolding owns
write_session-replaces g t w r l e =
    let i = Reach-IsOrdered w r in i.own g (ap owns (i.holder g l)) (inr l) t e
