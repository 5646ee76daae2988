-- ===== src/Ui/Races.antt =====
-- What may come between the check and the write of a task that ends, ui/src/main.rs.
use xkvm.Base.{
  ℕ, suc, ◌≡◌, refl, ap, inl, inr, true, false, none, some, arith, subst, ◌==◌, ==_iff,
  Option-cases, nat_eq, text_eq,
}
use xkvm.Ui.{
  ActiveSession, connecting, running, installing, ending, clearing, bumped, World, set, goes,
  cancel_token, begin_reset, take_previous, take_session, check_install, write_session, load_end,
  clear_end, get_status, begins, takes, checks, writes, Reach, RacyStep, steps, loads, clears,
  RacySteps, no_step, one_more,
}
use xkvm.Ui.Ordered.{token, owns, drives, set_same}
use xkvm.Ui.Supervised.{Reach-IsOrdered}

self_eq : (n : ℕ) → (n == n) ≡ true
self_eq n = (==_iff n n).1 refl

suc_neq : (n : ℕ) → (n == suc n) ≡ false
suc_neq n = ground (arith, ==_iff n (suc n))

neq_suc : (n : ℕ) → (suc n == n) ≡ false
neq_suc n = ground (arith, ==_iff (suc n) n)

-- A new call goes through from its start to `session.run`.
module _ (active : ActiveSession) (w : World) where
  abbrev next : ℕ
  next = suc w.app.generation

  abbrev checked : World
  checked = goes w.app.generation clearing w

  abbrev reset_begun : World
  reset_begun = begin_reset true checked

  abbrev taken : World
  taken = take_previous true next reset_begun

  abbrev installing_next : World
  installing_next = record taken { phase = set next installing taken.phase; lock = some next }

  abbrev written : World
  written = write_session next active installing_next

  load_end-checked : load_end w.app.generation w ≡ checked
  unfolding load_end
  load_end-checked = rw ((==_iff w.app.generation w.app.generation).1 refl) refl

  check_install-taken : check_install true next taken ≡ installing_next
  unfolding check_install take_previous take_session begin_reset
  check_install-taken = rw ((==_iff next next).1 refl) refl

  still_clearing : written.phase w.app.generation ≡ clearing
  unfolding set begin_reset take_previous write_session
  still_clearing = rw (suc_neq w.app.generation, self_eq w.app.generation) refl

  still_running : (clear_end w.app.generation written).phase next ≡ running
  unfolding set clear_end write_session
  still_running = rw (neq_suc w.app.generation, self_eq next) refl

  token_kept :
      Reach w
      → owns (w.phase w.app.generation) ≡ true
      → cancel_token (token w) w.cancelled next ≡ w.cancelled next
  unfolding set
  token_kept r o = elim (Option-cases (token w)) [
    | inl e ↦ rw e refl
    | inr (t, e) ↦
        rw
          (e, (Reach-IsOrdered w r).own w.app.generation o (inl refl) t e, neq_suc w.app.generation)
          refl
  ]

  -- In any state that can be reached and whose newest call is past its loop, and unlocked: between
  -- the check of that call and its write, a new call can get through to `session.run` with any
  -- session. Then the new call drives it, its token is as it was, and yet there is no session in
  -- the state, and the status is not connected.
  pub ending_races :
      Reach w
      → w.phase w.app.generation ≡ ending
      → w.lock ≡ none
      → (w' : World) × RacySteps w w'
        × (drives (w'.phase next) ≡ true)
        × (w'.cancelled next ≡ w.cancelled next)
        × ((get_status w'.app).connected ≡ false)
  unfolding begin_reset take_previous take_session write_session clear_end get_status owns drives
  ending_races r p l = (
    clear_end w.app.generation written,
    one_more w checked _ (subst (RacyStep w) load_end-checked (loads w.app.generation w p)) (
        one_more checked reset_begun _ (steps checked reset_begun (begins true checked)) (
          one_more reset_begun taken _
            (steps reset_begun taken
              (takes true next reset_begun (set_same next (bumped true) checked.phase) l))
            (one_more taken installing_next _
              (subst (RacyStep taken) check_install-taken (
                steps taken (check_install true next taken)
                  (checks next taken (set_same next connecting reset_begun.phase) l)))
              (one_more installing_next written _
                (steps installing_next written (writes next active installing_next refl))
                (one_more written _ _ (clears w.app.generation written still_clearing refl)
                  (no_step _)))))),
    ap drives still_running,
    token_kept r (ap owns p),
    refl,
  )
