-- ===== src/Monitor/Transmission.antt =====
-- core/mri.c: `waitForAckToBeTransmitted`, on a platform that gets on with its transmission.
use mri.Prelude.{ℕ, zero, suc, ◌+◌, ◌<◌, ◌≡◌, arith, Bool-cases, inl, inr, true, false}
use mri.Monitor.State.{Machine, MriCore}
use mri.Monitor.Monad.{returned, with_session, ◌>>=◌}
use mri.Monitor.Exception.{transmit_loop, wait_for_ack_to_be_transmitted}

-- The states in which the platform is asked, from one on, as long as it has not completed
pub data Asked {S : Type 0} (machine : Machine S) (from : S) : S → Type 0 where
  at_start : Asked machine from from
  once_more :
      {state : S}
      → (machine.has_transmit_completed state).0 ≡ false
      → Asked machine from state
      → Asked machine from (machine.has_transmit_completed state).1

-- The platform's transmission gets shorter.
pub record IsTransmitting {S : Type 0} (machine : Machine S) : Type 0 where
  pub shorter :
      (state : S)
      → (machine.has_transmit_completed state).0 ≡ false
      → machine.transmit_time (machine.has_transmit_completed state).1 < machine.transmit_time state

module _ {S : Type 0} (machine : Machine S) where
  abbrev pub in_state : MriCore S → S → MriCore S
  in_state m state = with_session m (record m.session { state = state })

  transmit_loop-completes :
      (fuel : ℕ) (start state : S) (m : MriCore S)
      → IsTransmitting machine
      → machine.transmit_time state < fuel
      → Asked machine start state
      → (last : S) × (transmit_loop machine fuel (in_state m state)
          ≡ returned tt (in_state m (machine.has_transmit_completed last).1))
        × Asked machine start last
        × ((machine.has_transmit_completed last).0 ≡ true)
  unfolding transmit_loop ◌>>=◌
  transmit_loop-completes zero start state m h less asked = absurd (omega arith)
  transmit_loop-completes (suc fuel) start state m h less asked =
      elim (Bool-cases (machine.has_transmit_completed state).0) [
        | inl completed ↦ (state, rw completed, asked, completed)
        | inr waits ↦
            let (last, e, reached, done) =
              transmit_loop-completes fuel start (machine.has_transmit_completed state).1 m h
                (omega (arith, h.shorter state waits)) (once_more waits asked) in
            (last, rw waits e, reached, done)
      ]

  -- `waitForAckToBeTransmitted`, on a platform where less of the transmission is left each time that it is said not
  -- to have completed: it returns behind the first answer that it has completed, and changes nothing but the
  -- platform's state, by asking.
  pub wait_for_ack_to_be_transmitted-Asked :
      (m : MriCore S)
      → IsTransmitting machine
      → (last : S) × (wait_for_ack_to_be_transmitted machine m
          ≡ returned tt (in_state m (machine.has_transmit_completed last).1))
        × Asked machine m.session.state last
        × ((machine.has_transmit_completed last).0 ≡ true)
  unfolding wait_for_ack_to_be_transmitted
  wait_for_ack_to_be_transmitted-Asked m h =
      transmit_loop-completes (machine.transmit_time m.session.state + 1) m.session.state
        m.session.state m h (omega arith) at_start
