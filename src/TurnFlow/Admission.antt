-- ===== src/TurnFlow/Admission.antt =====
-- What the admission of turns guarantees, and when the wallet gate blocks (app/src/lib/turnFlow.ts).
use stellar_voice_control_pr.Common.{
  ◌+◌, ◌≤◌, ◌<◌, ◌≡◌, ◌≢◌, ◌↔◌, refl, sym, ap, ◌∙◌, true, false, Option, none, some, List, [], ◌∷◌,
  arith, inl, inr, Bool-cases,
}
use stellar_voice_control_pr.Common.Text.{Text}
use stellar_voice_control_pr.TurnFlow.{
  TurnTicket, TurnFlow, TurnAdmission, start, ignore, blank, duplicate, is_blank, trim, text_eq,
  is_in_flight, offer, is_current, settle_turn, IntentKind, guard_policy, decide_wallet_gate,
  decide_wallet_gate_for_session, WalletSessionState, absent, unlocked, is_value_moving_intent,
}

-- One call of the flow.
pub data FlowCall : Type 0 where
  offers : Text → FlowCall
  settles : TurnTicket → FlowCall

unfoldable pub run_flow : List FlowCall → TurnFlow → TurnFlow
run_flow [] f = f
run_flow (offers raw ∷ calls) f = run_flow calls (offer raw f).1
run_flow (settles ticket ∷ calls) f = run_flow calls (settle_turn ticket f)

offer-generation : (raw : Text) (f : TurnFlow) → f.generation ≤ (offer raw f).1.generation
unfolding offer
offer-generation raw f = ground arith

settle_turn-generation :
    (ticket : TurnTicket) (f : TurnFlow) → (settle_turn ticket f).generation ≡ f.generation
unfolding settle_turn
settle_turn-generation ticket f = ground arith

run_flow-generation :
    (calls : List FlowCall) (f : TurnFlow) → f.generation ≤ (run_flow calls f).generation
unfolding run_flow
run_flow-generation [] f = omega arith
run_flow-generation (offers raw ∷ calls) f =
    omega (arith, run_flow-generation calls (offer raw f).1, offer-generation raw f)
run_flow-generation (settles ticket ∷ calls) f =
    omega (arith, run_flow-generation calls (settle_turn ticket f), settle_turn-generation ticket f)

text_eq_sound : (s t : Text) → text_eq s t ≡ true → s ≡ t
unfolding text_eq
text_eq_sound [] [] h = refl
text_eq_sound (c ∷ s) (d ∷ t) h = ground (arith, text_eq_sound s t)
text_eq_sound [] (d ∷ t) h = cc
text_eq_sound (c ∷ s) [] h = cc

text_eq_refl : (s : Text) → text_eq s s ≡ true
unfolding text_eq
text_eq_refl [] = refl
text_eq_refl (c ∷ s) = ground (arith, text_eq_refl s)

-- A ticket that a later turn has superseded stays so: whatever is offered and settled from then on,
-- it is never current again, and settling it changes nothing.
superseded_stays_stale :
    (ticket : TurnTicket) (calls : List FlowCall) (f : TurnFlow)
    → ticket.generation < f.generation
    → (is_current ticket (run_flow calls f) ≡ false)
      × (settle_turn ticket (run_flow calls f) ≡ run_flow calls f)
unfolding is_current settle_turn
superseded_stays_stale ticket calls f h = let later = run_flow-generation calls f in ground arith

is_in_flight_sound : (t : Text) (o : Option Text) → is_in_flight t o ≡ true → o ≡ some t
unfolding is_in_flight
is_in_flight_sound t none h = cc
is_in_flight_sound t (some u) h = ap some (sym (text_eq_sound t u h))

is_in_flight_self : (t : Text) → is_in_flight t (some t) ≡ true
unfolding is_in_flight
is_in_flight_self t = text_eq_refl t

is_in_flight_other : (t : Text) (o : Option Text) → is_in_flight t o ≡ false → o ≢ some t
is_in_flight_other t o h e =
    let both : is_in_flight t o ≡ true = ap (is_in_flight t) e ∙ is_in_flight_self t in cc

blank_nil : (t : Text) → (is_blank t ≡ true) ↔ (t ≡ [])
blank_nil [] = ground arith
blank_nil (c ∷ t) = ground arith

-- What `offer` answers and leaves, for the trimmed transcript.
abbrev pub admitted : Text → TurnFlow → TurnAdmission × TurnFlow
admitted t f = (
  start (record { generation = f.generation + 1; transcript = t }),
  record { generation = f.generation + 1; in_flight = some t },
)

-- An offered transcript is admitted exactly if it is not blank when trimmed and not the one in
-- flight; it then is in flight, under a ticket one generation later than the last. A blank one is
-- ignored, and so is the one in flight, and the flow is as before.
offer_admits :
    (raw : Text) (f : TurnFlow)
    → ((offer raw f ≡ admitted (trim raw) f) ↔ ((trim raw ≢ []) × (f.in_flight ≢ some (trim raw))))
      × ((offer raw f ≡ (ignore blank, f)) ↔ (trim raw ≡ []))
      × ((offer raw f ≡ (ignore duplicate, f))
          ↔ ((trim raw ≢ []) × (f.in_flight ≡ some (trim raw))))
unfolding offer
offer_admits raw f = elim (Bool-cases (is_blank (trim raw))) [
  | inl b ↦ let nil = (blank_nil (trim raw)).0 b in ground arith
  | inr n ↦
      let full : trim raw ≢ [] = λ e. let b = (blank_nil (trim raw)).1 e in cc in
      elim (Bool-cases (is_in_flight (trim raw) f.in_flight)) [
        | inl d ↦ let same = is_in_flight_sound (trim raw) f.in_flight d in ground arith
        | inr d ↦ let other = is_in_flight_other (trim raw) f.in_flight d in ground arith
      ]
]

-- The gate of a wallet session blocks exactly an intent that moves value in a session that is not
-- unlocked; it agrees with the gate for a missing wallet but for the sentence in a locked session.
wallet_gate_iff :
    (intent : IntentKind) (session : WalletSessionState)
    → (((decide_wallet_gate_for_session intent session).block ≡ true)
        ↔ ((intent ≢ guard_policy) × (session ≢ unlocked)))
      × ((decide_wallet_gate_for_session intent absent ≡ decide_wallet_gate intent false)
          × (decide_wallet_gate_for_session intent unlocked ≡ decide_wallet_gate intent true))
unfolding decide_wallet_gate decide_wallet_gate_for_session is_value_moving_intent
wallet_gate_iff intent session = ground arith
