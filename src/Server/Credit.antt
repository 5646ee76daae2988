-- ===== src/Server/Credit.antt =====
-- How many of the notices that forwarding is off a client may be sent: the `ReleaseAll` it has been
-- sent for which no notice has come yet, against what the tasks still have to broadcast.
use xkvm.Base.{
  ℕ, zero, suc, ◌+◌, ◌-◌, ◌≡◌, refl, Bool, true, false, not, Option, none, some, List, [], ◌∷◌,
  ◌++◌, arith, subst, leb, ◌==◌, if◌then◌else◌, is_some, nat_eq, lookup, text_eq,
}
use xkvm.Protocol.{Envelope, toggle_forward, input, release_all}
use xkvm.Server.State.{Registry, and_then, lookup-broadcast}
use xkvm.Server.Forwarder.{proceed}

abbrev pub is_notice_off : Envelope → Bool
is_notice_off (toggle_forward on) = not on
is_notice_off _ = false

abbrev is_release : Envelope → Bool
is_release (input release_all) = true
is_release _ = false

-- How many `ReleaseAll` there are for which no notice that forwarding is off has come yet; `none`
-- once a notice has come without.
unfoldable spend : Envelope → Option ℕ → Option ℕ
spend e none = none
spend e (some credit) =
    if is_notice_off e
    then (if credit == 0 then none else some (credit - 1))
    else if is_release e
    then some (suc credit)
    else some credit

unfoldable pub credit_after : List Envelope → Option ℕ → Option ℕ
unfolding spend
credit_after [] credit = credit
credit_after (e ∷ queue) credit = credit_after queue (spend e credit)

-- Each notice that forwarding is off has a `ReleaseAll` of its own somewhere before it.
unfoldable pub is_covered : List Envelope → Bool
unfolding credit_after
is_covered queue = is_some (credit_after queue (some 0))

-- The credit that a task needs for what it still has to broadcast.
unfoldable pub need : List Envelope → ℕ
need [] = 0
need (e ∷ envelopes) =
    if is_notice_off e
    then suc (need envelopes)
    else if is_release e
    then need envelopes - 1
    else need envelopes

unfoldable pub needs : List (List Envelope) → ℕ
unfolding need
needs [] = 0
needs (task ∷ tasks) = need task + needs tasks

abbrev pub covers : ℕ → Option ℕ → Bool
covers n none = false
covers n (some credit) = leb n credit

-- The queue, if it is there, has a credit of `n`.
abbrev pub funded : ℕ → Option (List Envelope) → Bool
funded n none = true
funded n (some queue) = covers n (credit_after queue (some 0))

credit_after-append :
    (queue : List Envelope) (e : Envelope) (credit : Option ℕ)
    → credit_after (queue ++ e ∷ []) credit ≡ spend e (credit_after queue credit)
unfolding credit_after
credit_after-append [] e credit = refl
credit_after-append (x ∷ queue) e credit = credit_after-append queue e (spend x credit)

spend-covers :
    (e : Envelope) (envelopes : List Envelope) (m : ℕ) (credit : Option ℕ)
    → covers (need (e ∷ envelopes) + m) credit ≡ true
    → covers (need envelopes + m) (spend e credit) ≡ true
unfolding spend need
spend-covers e envelopes m none h = cc h
spend-covers e envelopes m (some credit) h = ground arith

and_then-funded :
    (e : Envelope) (envelopes : List Envelope) (m : ℕ) (o : Option (List Envelope))
    → funded (need (e ∷ envelopes) + m) o ≡ true
    → funded (need envelopes + m) (and_then e o) ≡ true
and_then-funded e envelopes m none h = refl
and_then-funded e envelopes m (some queue) h =
    rw (credit_after-append queue e (some 0))
      (spend-covers e envelopes m (credit_after queue (some 0)) h)

pub recount : (m n : ℕ) (o : Option (List Envelope)) → m ≡ n → funded m o ≡ true → funded n o ≡ true
recount m n o e h = subst (λ k. funded k o ≡ true) e h

need_other : (e : Envelope) → is_notice_off e ≡ false → need (e ∷ []) ≡ 0
unfolding need
need_other e other = ground arith

-- What is no notice that forwarding is off leaves the credit for the tasks.
pub and_then-funded_other :
    (e : Envelope) (m : ℕ) (o : Option (List Envelope))
    → is_notice_off e ≡ false
    → funded m o ≡ true
    → funded m (and_then e o) ≡ true
unfolding need
and_then-funded_other e m o other h =
    let free = need_other e other in
    recount (0 + m) m (and_then e o) (omega arith)
      (and_then-funded e [] m o (recount m (need (e ∷ []) + m) o (omega (arith, free)) h))

pub proceed-funded :
    (n : ℕ) (tasks : List (List Envelope)) (registry : Registry) (id m : ℕ)
    → funded (needs tasks + m) (lookup id registry) ≡ true
    → let (tasks', registry') = proceed n tasks registry in
      funded (needs tasks' + m) (lookup id registry') ≡ true
unfolding proceed needs
proceed-funded n [] registry id m h = h
proceed-funded zero ([] ∷ tasks) registry id m h =
    recount (need [] + needs tasks + m) (needs tasks + m) (lookup id registry) (empty tasks) h
  where
    empty : (tasks : List (List Envelope)) → need [] + needs tasks + m ≡ needs tasks + m
    empty tasks = omega arith
proceed-funded zero ((e ∷ envelopes) ∷ tasks) registry id m h =
    rw (lookup-broadcast id e registry) (
      recount (need envelopes + (needs tasks + m)) (need envelopes + needs tasks + m)
        (and_then e (lookup id registry)) (omega arith)
        (and_then-funded e envelopes (needs tasks + m) (lookup id registry) (
          recount (need (e ∷ envelopes) + needs tasks + m)
            (need (e ∷ envelopes) + (needs tasks + m)) (lookup id registry) (omega arith) h)))
proceed-funded (suc n) (task ∷ tasks) registry id m h =
    let (tasks', registry') = proceed n tasks registry in
    let rest = proceed-funded n tasks registry id (need task + m) (
      recount (need task + needs tasks + m) (needs tasks + (need task + m)) (lookup id registry)
        (omega arith) h) in
    recount (needs tasks' + (need task + m)) (need task + needs tasks' + m) (lookup id registry')
      (omega arith) rest
