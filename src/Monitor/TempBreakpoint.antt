-- ===== src/Monitor/TempBreakpoint.antt =====
-- core/mri.c: what is recorded of the temporary breakpoint, and what the platform is asked to do.
use mri.Prelude.{
  ℕ, ◌%◌, ◌≡◌, ◌⊎◌, inl, inr, refl, arith, Bool, true, false, ◌==◌, ◌∙◌, Bool-cases, Option, none,
}
use mri.TryCatch.{set_exception_code}
use mri.Monitor.State.{Machine, MriCore}
use mri.Monitor.Monad.{pure, returned, with_session, ◌>>=◌, >>=-returned}
use mri.Monitor.Breakpoint.{
  clear_thumb_bit, on_platform, set_temp_breakpoint, clear_temp_breakpoint,
}

-- The flag, the address and the callback fit: all three are set, the address without its thumb bit, or all
-- three are cleared.
abbrev pub IsConsistent : {S : Type 0} → MriCore S → Type 0
IsConsistent m =
    ((m.temp_breakpoint ≡ true) × (m.temp_breakpoint_address % 2 ≡ 0))
    ⊎ ((m.temp_breakpoint ≡ false)
        × (m.temp_breakpoint_address ≡ 0)
        × (m.temp_breakpoint_callback ≡ none))

-- How `SetTempBreakpoint` ends: with the breakpoint recorded, or with what was recorded before.
abbrev pub HasSet : {S : Type 0} → ℕ → Option (S → Bool × S) → MriCore S → Bool → MriCore S → Type 0
HasSet address callback m true m' =
    (m.temp_breakpoint ≡ false)
    × (m'.temp_breakpoint ≡ true)
    × (m'.temp_breakpoint_address ≡ clear_thumb_bit address)
    × (m'.temp_breakpoint_callback ≡ callback)
HasSet address callback m false m' =
    (m'.temp_breakpoint ≡ m.temp_breakpoint)
    × (m'.temp_breakpoint_address ≡ m.temp_breakpoint_address)
    × (m'.temp_breakpoint_callback ≡ m.temp_breakpoint_callback)

module _ {S : Type 0} (machine : Machine S) where
  -- The state after a routine of the platform in a `__try`
  abbrev after : (S → ℕ × S) → MriCore S → MriCore S
  after routine m =
      let (code, state) = routine m.session.state in
      with_session m (record m.session {
        packet = record m.session.packet { exn = set_exception_code code 0 };
        state = state;
      })

  -- The state with no breakpoint
  abbrev forgotten : MriCore S → MriCore S
  forgotten m = record m {
    temp_breakpoint = false;
    temp_breakpoint_address = 0;
    temp_breakpoint_callback = none;
  }

  ==→≡ : {n : ℕ} → (n == 0) ≡ true → n ≡ 0
  ==→≡ h = ground arith

  -- The state without an exception
  abbrev quiet : MriCore S → MriCore S
  quiet m = with_session m (record m.session { packet = record m.session.packet { exn = 0 } })

  -- `SetTempBreakpoint` returns from every state with a consistent record; it succeeds only if no breakpoint was set, and then
  -- records this one, and it changes nothing of what is recorded otherwise. What is recorded stays consistent.
  pub set_temp_breakpoint-IsConsistent :
      (address : ℕ) (callback : Option (S → Bool × S)) (m : MriCore S)
      → IsConsistent m
      → (ok : Bool) × (m' : MriCore S) × (set_temp_breakpoint machine address callback m
          ≡ returned ok m')
        × HasSet address callback m ok m'
        × IsConsistent m'
  unfolding set_temp_breakpoint on_platform ◌>>=◌
  set_temp_breakpoint-IsConsistent address callback m consistent =
      let place = clear_thumb_bit address in
      let m' = after (machine.set_hardware_breakpoint place) m in
      elim (Bool-cases m.temp_breakpoint) [
        | inl set ↦ (false, m, rw set, (refl, refl, refl), consistent)
        | inr unset ↦ elim (Bool-cases (m'.session.packet.exn == 0)) [
          | inl fine ↦ (
            true,
            record m' {
              temp_breakpoint = true;
              temp_breakpoint_address = place;
              temp_breakpoint_callback = callback;
            },
            rw (unset, fine),
            (unset, refl, refl, refl),
            inl (refl, omega arith),
          )
          | inr thrown ↦ (false, quiet m', rw (unset, thrown), (refl, refl, refl), consistent)
        ]
      ]

  -- The platform's state behind setting a breakpoint at a place, and behind clearing one
  abbrev pub armed : ℕ → S → S
  armed place state = (machine.set_hardware_breakpoint place state).1

  abbrev pub disarmed : ℕ → S → S
  disarmed place state = (machine.clear_hardware_breakpoint place state).1

  -- `clearTempBreakpoint` returns from every state, whatever the platform throws, with no exception left,
  -- nothing of the breakpoint is left, and the platform has been asked to clear it.
  clear_temp_breakpoint-lem :
      (m : MriCore S)
      → (m' : MriCore S) × (clear_temp_breakpoint machine m ≡ returned tt m')
        × (m'.session.packet.exn ≡ 0)
        × (m'.temp_breakpoint ≡ false)
        × (m'.temp_breakpoint_address ≡ 0)
        × (m'.temp_breakpoint_callback ≡ none)
        × (m'.session.state ≡ disarmed m.temp_breakpoint_address m.session.state)
  unfolding clear_temp_breakpoint on_platform ◌>>=◌
  clear_temp_breakpoint-lem m =
      let m' = after (machine.clear_hardware_breakpoint m.temp_breakpoint_address) m in
      elim (Bool-cases (m'.session.packet.exn == 0)) [
        | inl fine ↦ (forgotten m', rw fine, ==→≡ fine, refl, refl, refl, refl)
        | inr thrown ↦ (forgotten (quiet m'), rw thrown, refl, refl, refl, refl, refl)
      ]

  -- The state in which `SetTempBreakpoint` succeeds
  abbrev recorded : ℕ → Option (S → Bool × S) → MriCore S → MriCore S
  recorded address callback m =
      record (after (machine.set_hardware_breakpoint (clear_thumb_bit address)) m) {
        temp_breakpoint = true;
        temp_breakpoint_address = clear_thumb_bit address;
        temp_breakpoint_callback = callback;
      }

  -- `SetTempBreakpoint` and then `clearTempBreakpoint`, with no breakpoint recorded and one that the platform sets
  -- without an exception: the first returns success; the platform has been asked to set a breakpoint at the
  -- address without its thumb bit and then to clear that one, and nothing else; nothing is recorded any more,
  -- and no exception is left, even if the platform throws as it clears.
  pub clear-set_temp_breakpoint :
      (address : ℕ) (callback : Option (S → Bool × S)) (m : MriCore S)
      → m.temp_breakpoint ≡ false
      → set_exception_code
          (machine.set_hardware_breakpoint (clear_thumb_bit address) m.session.state).0
          0
        ≡ 0
      → (m' : MriCore S) × ((set_temp_breakpoint machine address callback >>= λ ok.
              clear_temp_breakpoint machine >>= λ u. pure ok)
            m
          ≡ returned true m')
        × (m'.session.state
            ≡ disarmed (clear_thumb_bit address) (armed (clear_thumb_bit address) m.session.state))
        × (m'.temp_breakpoint ≡ false)
        × (m'.temp_breakpoint_address ≡ 0)
        × (m'.temp_breakpoint_callback ≡ none)
        × (m'.session.packet.exn ≡ 0)
  unfolding set_temp_breakpoint on_platform ◌>>=◌
  clear-set_temp_breakpoint address callback m unset sets =
      let m₁ = recorded address callback m in
      let (m', clears, none_left, flag, place, call, asked) = clear_temp_breakpoint-lem m₁ in
      let fine : (m₁.session.packet.exn == 0) ≡ true = ground (arith, sets) in
      let succeeds : set_temp_breakpoint machine address callback m ≡ returned true m₁ =
        rw (unset, fine) in
      (
        m',
        >>=-returned (set_temp_breakpoint machine address callback) _ m succeeds
            ∙ >>=-returned (clear_temp_breakpoint machine) (λ u. pure true) m₁ clears,
        asked,
        flag,
        place,
        call,
        none_left,
      )
