-- ===== src/Ui/Preserved.antt =====
-- Every step of the control panel, ui/src/main.rs, keeps the calls in order.
use xkvm.Base.{
  ℕ, suc, ◌≡◌, refl, sym, ap, ◌∙◌, ◌≢◌, ◌⊎◌, inl, inr, Bool, true, false, none, some, arith, ◌==◌,
  if◌then◌else◌, ==_iff, Bool-cases, ◌>>=◌, nat_eq, text_eq,
}
use mathlib.Core.Bool.{false≢true}
use xkvm.Ui.{
  ActiveSession, AppState, Phase, connecting, running, installing, ending, done, bumped, World, set,
  goes, cancel_token, begin_reset, take_session, take_previous, check_install, write_session,
  clear_end, finish,
}
use xkvm.Ui.Ordered.{
  token, started, owns, drives, flag, before, set_same, set_other, no_some, cancel_token-keeps,
  cancel_token-some, owns-started, IsOrdered,
}

-- A call that does not hold the lock goes on, or gives up.
pub goes-IsOrdered :
    (g : ℕ) (p : Phase) (w : World)
    → w.phase g ≢ installing
    → started (w.phase g) ≡ true
    → (owns p ≡ true → owns (w.phase g) ≡ true)
    → (drives p ≡ true → drives (w.phase g) ≡ true)
    → IsOrdered w
    → IsOrdered (goes g p w)
goes-IsOrdered g p w n s o d i = record {
  known = λ h k. elim (flag started g p w.phase h k) [
    | inl (e, _) ↦ rw e (i.known g s)
    | inr (_, k') ↦ i.known h k'
  ];
  holder =
      λ h l. set_other g p w.phase h (λ e. n (ap w.phase (sym e) ∙ i.holder h l)) ∙ i.holder h l;
  newest = λ h h' l k. i.newest h h' l (before owns g p w.phase o h' k);
  own = λ h k. i.own h (before owns g p w.phase o h k);
  supervised = λ h k. i.supervised h (before drives g p w.phase d h k);
}

pub begin_reset-IsOrdered :
    (connects : Bool) (w : World) → IsOrdered w → IsOrdered (begin_reset connects w)
unfolding begin_reset started owns drives
begin_reset-IsOrdered connects w i = record {
  known = λ g h. elim (flag started (suc w.app.generation) (bumped connects) w.phase g h) [
    | inl (e, _) ↦ omega (arith, e)
    | inr (_, k) ↦ omega (arith, i.known g k)
  ];
  holder = λ g l.
      set_other (suc w.app.generation) (bumped connects) w.phase g
        (λ e. absurd (omega (arith, e, i.known g (ap started (i.holder g l)))))
      ∙ i.holder g l;
  newest = λ g h l o. elim (flag owns (suc w.app.generation) (bumped connects) w.phase h o) [
    | inl (_, k) ↦ absurd (false≢true k)
    | inr (_, k) ↦ i.newest g h l k
  ];
  own = λ g o c. elim (flag owns (suc w.app.generation) (bumped connects) w.phase g o) [
    | inl (_, k) ↦ absurd (false≢true k)
    | inr (n, k) ↦ elim c [ inl e ↦ absurd (n e) | inr l ↦ i.own g k (inr l) ]
  ];
  supervised = λ g d. elim (flag drives (suc w.app.generation) (bumped connects) w.phase g d) [
    | inl (_, k) ↦ absurd (false≢true k)
    | inr (_, k) ↦ i.supervised g k
  ];
}

taken-IsOrdered :
    (app : AppState) (p : Phase) (g : ℕ) (w : World)
    → app.generation ≡ w.app.generation
    → app.session ≡ none
    → started (w.phase g) ≡ true
    → drives p ≡ false
    → w.lock ≡ none
    → IsOrdered w
    → IsOrdered (record w {
      app = app;
      phase = set g p w.phase;
      cancelled = cancel_token (token w) w.cancelled;
    })
taken-IsOrdered app p g w a n s d l i = record {
  known = λ h k. rw a (i.known h (before started g p w.phase (λ _. s) h k));
  holder = λ h e. absurd (no_some h (sym l ∙ e));
  newest = λ g' h e. absurd (no_some g' (sym l ∙ e));
  own = λ h o c t e. absurd (no_some t (sym (ap (λ x. x >>= λ y. some y.cancel) n) ∙ e));
  supervised = λ h k.
      elim (i.supervised h (before drives g p w.phase (λ f. absurd (false≢true (sym d ∙ f))) h k)) [
        | inl c ↦ inl (cancel_token-keeps (token w) w.cancelled h c)
        | inr e ↦ inl (cancel_token-some (token w) w.cancelled h e)
      ];
}

pub take_previous-IsOrdered :
    (connects : Bool) (g : ℕ) (w : World)
    → w.phase g ≡ bumped connects
    → w.lock ≡ none
    → IsOrdered w
    → IsOrdered (take_previous connects g w)
unfolding take_previous take_session started drives
take_previous-IsOrdered true g w p l i =
    taken-IsOrdered _ connecting g w refl refl (ap started p) refl l i
take_previous-IsOrdered false g w p l i =
    taken-IsOrdered _ done g w refl refl (ap started p) refl l i

cancelled-IsOrdered :
    (t : ℕ) (w : World) → IsOrdered w → IsOrdered (record w { cancelled = set t true w.cancelled })
cancelled-IsOrdered t w i = record {
  known = i.known;
  holder = i.holder;
  newest = i.newest;
  own = i.own;
  supervised = λ g d. elim (i.supervised g d) [
    | inl c ↦ inl (cancel_token-keeps (some t) w.cancelled g c)
    | inr e ↦ inr e
  ];
}

pub check_install-IsOrdered :
    (first : Bool) (g : ℕ) (w : World)
    → w.phase g ≢ installing
    → owns (w.phase g) ≡ true
    → IsOrdered w
    → IsOrdered (check_install first g w)
unfolding check_install owns drives
check_install-IsOrdered first g w n o i = elim (Bool-cases (w.app.generation == g)) [
  | inl b ↦ rw b (current ((==_iff w.app.generation g).0 b))
  | inr b ↦ rw b (superseded first)
]
  where
    got : {h : ℕ} → some g ≡ some h → h ≡ g
    got s = cc s

    settled :
        w.app.generation ≡ g
        → {h : ℕ} → (h ≡ w.app.generation) ⊎ (some g ≡ some h)
        → h ≡ w.app.generation
    settled e (inl s) = s
    settled e (inr s) = got s ∙ sym e

    superseded :
        (first : Bool)
        → IsOrdered (
            if first
            then record w { phase = set g done w.phase; cancelled = set g true w.cancelled }
            else record w { phase = set g ending w.phase })
    superseded true = cancelled-IsOrdered g (goes g done w) (
        goes-IsOrdered g done w n (owns-started (w.phase g) o) (λ _. o) (λ f. absurd (false≢true f))
          i)
    superseded false =
        goes-IsOrdered g ending w n (owns-started (w.phase g) o) (λ _. o)
          (λ f. absurd (false≢true f)) i

    current :
        w.app.generation ≡ g
        → IsOrdered (record w { phase = set g installing w.phase; lock = some g })
    current e = record {
      known = λ h k.
          i.known h (before started g installing w.phase (λ _. owns-started (w.phase g) o) h k);
      holder = λ h s. rw (got s) (set_same g installing w.phase);
      newest = λ g' h s k.
          rw (got s, sym e)
            (i.known h (owns-started (w.phase h) (before owns g installing w.phase (λ _. o) h k)));
      own = λ h k c. i.own h (before owns g installing w.phase (λ _. o) h k) (inl (settled e c));
      supervised = λ h k.
          i.supervised h (before drives g installing w.phase (λ f. absurd (false≢true f)) h k);
    }

pub write_session-IsOrdered :
    (g : ℕ) (active : ActiveSession) (w : World)
    → w.lock ≡ some g
    → IsOrdered w
    → IsOrdered (write_session g active w)
unfolding write_session started owns drives
write_session-IsOrdered g active w l i = record {
  known = λ h k. i.known h (before started g running w.phase (λ _. ap started (i.holder g l)) h k);
  holder = λ h e. absurd (no_some h e);
  newest = λ g' h e. absurd (no_some g' e);
  own = λ h k c t e. elim (flag owns g running w.phase h k) [
    | inl (s, _) ↦ cc (s, e)
    | inr (n, k') ↦ elim c [
      | inl s ↦
          absurd (n (omega (arith, s, i.newest g h l k', i.known g (ap started (i.holder g l)))))
      | inr s ↦ absurd (no_some h s)
    ]
  ];
  supervised = λ h k. elim (flag drives g running w.phase h k) [
    | inl (s, _) ↦ inr (rw s refl)
    | inr (n, k') ↦ elim (i.supervised h k') [
      | inl c ↦ inl c
      | inr s ↦ absurd (n (i.own g (ap owns (i.holder g l)) (inr l) h s))
    ]
  ];
}

pub finish-IsOrdered :
    (g : ℕ) (w : World) → w.phase g ≡ ending → w.lock ≡ none → IsOrdered w → IsOrdered (finish g w)
unfolding finish clear_end started owns drives
finish-IsOrdered g w p l i = elim (Bool-cases (w.app.generation == g)) [
  | inl b ↦ rw b (current ((==_iff w.app.generation g).0 b))
  | inr b ↦ rw b (
      goes-IsOrdered g done w (λ e. cc (sym p ∙ e)) (ap started p) (λ _. ap owns p)
        (λ f. absurd (false≢true f)) i)
]
  where
    current :
        w.app.generation ≡ g
        → IsOrdered (record w {
          app = record w.app { session = none; forwarding_active = false };
          phase = set g done w.phase;
        })
    current e = record {
      known = λ h k. i.known h (before started g done w.phase (λ _. ap started p) h k);
      holder = λ h s. absurd (no_some h (sym l ∙ s));
      newest = λ g' h s. absurd (no_some g' (sym l ∙ s));
      own = λ h o c t s. absurd (no_some t s);
      supervised = λ h k. elim (flag drives g done w.phase h k) [
        | inl (_, f) ↦ absurd (false≢true f)
        | inr (n, k') ↦ elim (i.supervised h k') [
          | inl c ↦ inl c
          | inr s ↦ absurd (n (i.own g (ap owns p) (inl (sym e)) h s))
        ]
      ];
    }

pub app-IsOrdered :
    (app : AppState) (w : World)
    → app.generation ≡ w.app.generation
    → app.session ≡ w.app.session
    → IsOrdered w
    → IsOrdered (record w { app = app })
app-IsOrdered app w a s i =
    let same : token (record w { app = app }) ≡ token w = ap (λ x. x >>= λ y. some y.cancel) s in
    record {
      known = λ g h. rw a (i.known g h);
      holder = i.holder;
      newest = i.newest;
      own = λ g o c t e. i.own g o (rw a at c) t (sym same ∙ e);
      supervised = λ g d. elim (i.supervised g d) [ inl c ↦ inl c | inr e ↦ inr (same ∙ e) ];
    }
