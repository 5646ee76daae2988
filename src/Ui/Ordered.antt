-- ===== src/Ui/Ordered.antt =====
-- What every step of the control panel, ui/src/main.rs, keeps true of the calls.
use xkvm.Base.{
  ℕ, ◌≤◌, ◌≡◌, refl, sym, ◌∙◌, ◌≢◌, ◌⊎◌, inl, inr, Bool, true, false, Option, none, some, arith,
  ◌==◌, ==_iff, Bool-cases, ◌>>=◌, nat_eq, text_eq,
}
use mathlib.Core.Bool.{false≢true}
use xkvm.Ui.{
  Phase, idle, connecting, reconnecting, running, installing, ending, clearing, done, bumped, World,
  set, cancel_token, initial,
}

-- The token of the session in the state.
abbrev pub token : World → Option ℕ
token w = w.app.session >>= λ s. some s.cancel

unfoldable pub started : Phase → Bool
started idle = false
started _ = true

-- Whether a call has taken the previous session, and may still touch the state.
unfoldable pub owns : Phase → Bool
owns idle = false
owns (bumped connects) = false
owns done = false
owns _ = true

-- Whether the call drives a session, or has one to drive again.
unfoldable pub drives : Phase → Bool
drives running = true
drives reconnecting = true
drives _ = false

pub flag :
    (q : Phase → Bool) (g : ℕ) (p : Phase) (f : ℕ → Phase) (h : ℕ)
    → q (set g p f h) ≡ true
    → ((h ≡ g) × (q p ≡ true)) ⊎ ((h ≢ g) × (q (f h) ≡ true))
unfolding set
flag q g p f h e = elim (Bool-cases (h == g)) [
  | inl b ↦ inl ((==_iff h g).0 b, rw b at e)
  | inr b ↦ inr (λ x. false≢true (sym b ∙ (==_iff h g).1 x), rw b at e)
]

pub set_other : (g : ℕ) (p : Phase) (f : ℕ → Phase) (h : ℕ) → h ≢ g → set g p f h ≡ f h
unfolding set
set_other g p f h n = elim (Bool-cases (h == g)) [
  | inl b ↦ absurd (n ((==_iff h g).0 b))
  | inr b ↦ rw b refl
]

pub before :
    (q : Phase → Bool) (g : ℕ) (p : Phase) (f : ℕ → Phase)
    → (q p ≡ true → q (f g) ≡ true)
    → (h : ℕ) → q (set g p f h) ≡ true
    → q (f h) ≡ true
before q g p f imp h k = elim (flag q g p f h k) [ inl (e, k') ↦ rw e (imp k') | inr (_, k') ↦ k' ]

pub set_same {ℓ} : {A : Type ℓ} (g : ℕ) (a : A) (f : ℕ → A) → set g a f g ≡ a
unfolding set
set_same g a f = rw ((==_iff g g).1 refl) refl

pub no_some {ℓ} : {A : Type ℓ} (a : A) → none ≡ some a → ⊥
no_some a e = cc e

pub cancel_token-keeps :
    (o : Option ℕ) (f : ℕ → Bool) (h : ℕ) → f h ≡ true → cancel_token o f h ≡ true
unfolding set
cancel_token-keeps none f h e = e
cancel_token-keeps (some t) f h e = ground (arith, e)

pub cancel_token-some :
    (o : Option ℕ) (f : ℕ → Bool) (h : ℕ) → o ≡ some h → cancel_token o f h ≡ true
cancel_token-some o f h e = rw e (set_same h true f)

pub owns-started : (p : Phase) → owns p ≡ true → started p ≡ true
unfolding owns started
owns-started idle e = e
owns-started connecting e = refl
owns-started reconnecting e = refl
owns-started running e = refl
owns-started installing e = refl
owns-started ending e = refl
owns-started clearing e = refl
owns-started done e = refl
owns-started (bumped connects) e = refl

-- What holds of the calls; the last is what the others are for.
pub record IsOrdered (w : World) : Type 0 where
  pub known : (g : ℕ) → started (w.phase g) ≡ true → g ≤ w.app.generation
  pub holder : (g : ℕ) → w.lock ≡ some g → w.phase g ≡ installing
  pub newest : (g h : ℕ) → w.lock ≡ some g → owns (w.phase h) ≡ true → h ≤ g
  pub own :
      (g : ℕ)
      → owns (w.phase g) ≡ true
      → (g ≡ w.app.generation) ⊎ (w.lock ≡ some g)
      → (t : ℕ) → token w ≡ some t
      → t ≡ g
  pub supervised : (g : ℕ) → drives (w.phase g) ≡ true → (w.cancelled g ≡ true) ⊎ (token w ≡ some g)

pub initial-IsOrdered : IsOrdered initial
unfolding initial started owns drives
initial-IsOrdered = record {
  known = λ g. λ h. absurd (false≢true h);
  holder = λ g h. cc h;
  newest = λ g h l o. absurd (false≢true o);
  own = λ g h. absurd (false≢true h);
  supervised = λ g h. absurd (false≢true h);
}
