-- ===== src/Server/Pumps.antt =====
-- The two tasks that `handle_client` of server/src/server.rs starts for a registered client: the
-- one that writes what is queued for it, and the one that reads what it sends.
use xkvm.Base.{
  ℕ, suc, ◌≡◌, refl, inl, inr, Bool, true, Option, none, some, List, [], ◌∷◌, if◌then◌else◌,
  Bool-cases, take, nat_eq, text_eq,
}
use xkvm.Protocol.{Envelope}

-- What is written of the queue; `delivers` says whether the n-th write succeeds.
unfoldable pub pump_outbound : (ℕ → Bool) → ℕ → List Envelope → List Envelope
pump_outbound delivers n [] = []
pump_outbound delivers n (e ∷ queue) =
    let rest = pump_outbound delivers (suc n) queue in if delivers n then e ∷ rest else []

-- What reaches the message loop; a reading that fails is `none`.
unfoldable pub pump_inbound : List (Option Envelope) → List Envelope
pump_inbound [] = []
pump_inbound (none ∷ readings) = []
pump_inbound (some e ∷ readings) = e ∷ pump_inbound readings

-- What is written is the beginning of the queue.
pub pump_outbound-take :
    (delivers : ℕ → Bool) (n : ℕ) (queue : List Envelope)
    → (k : ℕ) × (pump_outbound delivers n queue ≡ take k queue)
unfolding pump_outbound
pump_outbound-take delivers n [] = (0, refl)
pump_outbound-take delivers n (e ∷ queue) = elim (Bool-cases (delivers n)) [
  | inl d ↦ let (k, h) = pump_outbound-take delivers (suc n) queue in (suc k, rw (d, h) refl)
  | inr d ↦ (0, rw d refl)
]

pub pump_outbound-all :
    (delivers : ℕ → Bool) (n : ℕ) (queue : List Envelope)
    → ((m : ℕ) → delivers m ≡ true)
    → pump_outbound delivers n queue ≡ queue
unfolding pump_outbound
pump_outbound-all delivers n [] all = refl
pump_outbound-all delivers n (e ∷ queue) all =
    rw (all n, pump_outbound-all delivers (suc n) queue all) refl
