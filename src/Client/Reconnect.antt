-- ===== src/Client/Reconnect.antt =====
-- `run_with_reconnect` of client/src/session.rs: what one attempt to connect ends in, and the waits
-- between the attempts.
pub mod Pinned
use native.Mathlib.Nat.{pow-suc}
use xkvm.Base.{
  ℕ, suc, ◌*◌, ◌^◌, ◌≤◌, min, ◌≡◌, refl, Bool, true, false, Option, none, some, List, [], ◌∷◌, ◌++◌,
  map, arith, All, nat_eq, Text, text_eq,
}
use xkvm.Client.Handshake.{ConnectError, fatal}
use xkvm.Client.Session.{SessionEvent, error}

-- One attempt: the session that was opened has run to its end, or the error of `Session::connect`
-- with its text.
pub data Attempt : Type 0 where
  ran : Attempt
  failed : ConnectError → Text → Attempt

-- The end of one round: cancelled before, during the attempt or while it waits, or not.
pub data Round : Type 0 where
  cancelled_before : Round
  attempt : Attempt → (cancelled_after cancelled_waiting : Bool) → Round

pub data End : Type 0 where
  returned : End
  fatal_error : Text → End

-- 1 s and 30 s, in milliseconds.
abbrev pub first_backoff : ℕ
first_backoff = 1000

abbrev pub max_backoff : ℕ
max_backoff = 30000

-- The waits, in their order, the events for the user, and how the function ends; `none` says that
-- it is still running when the rounds are used up.
pub record Run : Type 0 where
  pub waits : List ℕ
  pub events : List SessionEvent
  pub end : Option End

abbrev pub next_backoff : ℕ → ℕ
next_backoff backoff = min (backoff * 2) max_backoff

abbrev stop : End → Run
stop end = record { waits = []; events = []; end = some end }

abbrev emitting : List SessionEvent → Run → Run
emitting es run = record run { events = es ++ run.events }

-- From the end of an attempt on.
abbrev wait : ℕ → Bool → Bool → (ℕ → Run) → Run
wait backoff true waiting rest = stop returned
wait backoff false true rest = record { waits = backoff ∷ []; events = []; end = some returned }
wait backoff false false rest = record (rest (next_backoff backoff)) {
  waits = backoff ∷ (rest (next_backoff backoff)).waits;
}

abbrev after_attempt : ℕ → Attempt → Bool → Bool → (ℕ → Run) → Run
after_attempt backoff ran after waiting rest = wait first_backoff after waiting rest
after_attempt backoff (failed (fatal msg) text) after waiting rest =
    emitting (error msg ∷ []) (stop (fatal_error msg))
after_attempt backoff (failed _ text) after waiting rest =
    emitting (error text ∷ []) (wait backoff after waiting rest)

unfoldable pub reconnect : List Round → ℕ → Run
reconnect [] backoff = record { waits = []; events = []; end = none }
reconnect (cancelled_before ∷ rounds) backoff = stop returned
reconnect (attempt a after waiting ∷ rounds) backoff =
    after_attempt backoff a after waiting (reconnect rounds)

abbrev pub Bounded : List ℕ → Type 0
Bounded = All (λ w. (first_backoff ≤ w) × (w ≤ max_backoff))

wait-Bounded :
    (backoff : ℕ) (after waiting : Bool) (rest : ℕ → Run)
    → first_backoff ≤ backoff
    → backoff ≤ max_backoff
    → ((b : ℕ) → first_backoff ≤ b → b ≤ max_backoff → Bounded (rest b).waits)
    → Bounded (wait backoff after waiting rest).waits
wait-Bounded backoff true waiting rest l u f = tt
wait-Bounded backoff false true rest l u f = ((l, u), tt)
wait-Bounded backoff false false rest l u f =
    ((l, u), f (next_backoff backoff) (omega arith) (omega arith))

after_attempt-Bounded :
    (a : Attempt) (backoff : ℕ) (after waiting : Bool) (rest : ℕ → Run)
    → first_backoff ≤ backoff
    → backoff ≤ max_backoff
    → ((b : ℕ) → first_backoff ≤ b → b ≤ max_backoff → Bounded (rest b).waits)
    → Bounded (after_attempt backoff a after waiting rest).waits
after_attempt-Bounded ran backoff after waiting rest l u f =
    wait-Bounded first_backoff after waiting rest (omega arith) (omega arith) f
after_attempt-Bounded (failed (fatal msg) text) backoff after waiting rest l u f = tt
after_attempt-Bounded (failed _ text) backoff after waiting rest l u f =
    wait-Bounded backoff after waiting rest l u f

-- Every wait is between 1 s and 30 s, whatever the attempts end in.
pub reconnect-Bounded :
    (rounds : List Round) (backoff : ℕ)
    → first_backoff ≤ backoff
    → backoff ≤ max_backoff
    → Bounded (reconnect rounds backoff).waits
unfolding reconnect
reconnect-Bounded [] backoff l u = tt
reconnect-Bounded (cancelled_before ∷ rounds) backoff l u = tt
reconnect-Bounded (attempt a after waiting ∷ rounds) backoff l u =
    after_attempt-Bounded a backoff after waiting (reconnect rounds) l u
      (λ b. reconnect-Bounded rounds b)

-- Attempts that fail to reach the server, while nobody cancels.
pub failures : List Text → List Round
failures [] = []
failures (text ∷ texts) = attempt (failed ConnectError.tcp_failed text) false false ∷ failures texts

-- The wait after `n` failures, and the waits from the `n`-th on.
abbrev pub wait_at : ℕ → ℕ
wait_at n = min (first_backoff * 2 ^ n) max_backoff

abbrev pub waits_from : ℕ → List Text → List ℕ
waits_from n [] = []
waits_from n (text ∷ texts) = wait_at n ∷ waits_from (suc n) texts

next_backoff-wait_at : (n : ℕ) → next_backoff (wait_at n) ≡ wait_at (suc n)
next_backoff-wait_at n = omega (arith, pow-suc 2 n)

-- After attempts that fail to reach the server, the waits are 1 s, 2 s, 4 s and so on up to 30 s,
-- and the function goes on: the n-th wait is the smaller of 2^n s and 30 s. The user is told each
-- error.
reconnect-failures :
    (texts : List Text) (n : ℕ)
    → reconnect (failures texts) (wait_at n)
      ≡ record { waits = waits_from n texts; events = map error texts; end = none }
unfolding reconnect failures
reconnect-failures [] n = refl
reconnect-failures (text ∷ texts) n =
    rw (next_backoff-wait_at n, reconnect-failures texts (suc n)) refl
