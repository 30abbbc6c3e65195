-- ===== src/Monitor/Termination.antt =====
-- How a routine over the monitor's state can end, and the rules by which routines are put together.
pub mod Sessions
pub mod Handlers
pub mod Loops
pub mod Commands
pub mod CommandLoop
pub mod Whole
use mri.Prelude.{ℕ, suc, ap, ◌≤◌, ◌<◌, ◌≡◌, refl, arith, Bool, true, false, if◌then◌else◌, length}
use mri.Buffer.Core.{Buffer}
use mri.Packet.Link.{Link, Outcome, M, done, waits, stuck}
use mri.Packet.Termination.{Ends}
use mri.Commands.Session.{Session}
use mri.Monitor.State.{MriCore}
use mri.Monitor.Monad.{
  Result, Run, returned, waiting, out_of_fuel, ◌>>=◌, ◌>>◌, pure, gets, ask, on_packet, on_buffer,
  on_state, change_buffer, change_state, on_session, attempt, branch, nothing_thrown,
  clear_exception, with_session,
}

-- The number of characters that gdb still sends
abbrev pub to_come : {S : Type 0} → MriCore S → ℕ
to_come m = length m.session.packet.input

-- The routine has returned with at most `n` characters to come, or waits for gdb.
abbrev pub Within {ℓ} : {S : Type 0} {A : Type ℓ} → ℕ → Result S A → Type 0
Within n (returned a m) = to_come m ≤ n
Within n (waiting m) = Unit {0}
Within n out_of_fuel = ⊥

-- The routine ends from every state.
abbrev pub Runs {ℓ} : {S : Type 0} {A : Type ℓ} → Run S A → Type 0
Runs {S = S} run = (m : MriCore S) → Within (to_come m) (run m)

pub Within-mono {ℓ} :
    {S : Type 0} {A : Type ℓ} (n k : ℕ) (r : Result S A) → n ≤ k → Within n r → Within k r
Within-mono n k (returned a m) h w = omega arith
Within-mono n k (waiting m) h w = tt
Within-mono n k out_of_fuel h w = w

pub Within-bind {ℓ κ} :
    {S : Type 0} {A : Type ℓ} {B : Type κ} (run : Run S A) (next : A → Run S B) (n k : ℕ)
    (m : MriCore S)
    → Within n (run m)
    → ((a : A) (m' : MriCore S) → to_come m' ≤ n → Within k (next a m'))
    → Within k ((run >>= next) m)
unfolding ◌>>=◌
Within-bind run next n k m w h = go (run m) w
  where
    go :
        (r : Result _ _)
        → Within n r
        → Within k (elim r [
          | returned a m' ↦ next a m'
          | waiting m' ↦ waiting m'
          | out_of_fuel ↦ out_of_fuel
        ])
    go (returned a m') v = h a m' v
    go (waiting m') v = tt
    go out_of_fuel v = absurd v

module _ {ℓ} {S : Type 0} {A : Type ℓ} where
  pub Runs-pure : (a : A) → Runs {S = S} (pure a)
  Runs-pure a m = omega arith

  pub Runs-gets : (f : MriCore S → A) → Runs (gets f)
  Runs-gets f m = omega arith

  pub Runs-ask : (f : S → A) → Runs (ask f)
  Runs-ask f m = omega arith

  pub Runs-on_buffer : (f : Buffer → A × Buffer) → Runs {S = S} (on_buffer f)
  Runs-on_buffer f m = omega arith

  pub Runs-on_state : (f : S → A × S) → Runs (on_state f)
  Runs-on_state f m = omega arith

  pub Runs-if : (t : Bool) (r q : Run S A) → Runs r → Runs q → Runs (if t then r else q)
  Runs-if true r q h k = h
  Runs-if false r q h k = k

  pub Runs-on_packet :
      (routine : M A)
      → ((l : Link) → Ends (length l.input) (routine l))
      → Runs {S = S} (on_packet routine)
  unfolding on_packet
  Runs-on_packet routine h m = go (routine m.session.packet) (h m.session.packet)
    where
      go :
          (o : Outcome A)
          → Ends (length m.session.packet.input) o
          → Within (to_come m) (elim o [
            | done a l ↦ returned a (with_session m (record m.session { packet = l }))
            | waits l ↦ waiting (with_session m (record m.session { packet = l }))
            | stuck ↦ out_of_fuel
          ])
      go (done a l) less = omega arith
      go (waits l) less = tt
      go stuck less = absurd less

pub Runs-bind {ℓ κ} :
    {S : Type 0} {A : Type ℓ} {B : Type κ} (run : Run S A) (next : A → Run S B)
    → Runs run
    → ((a : A) → Runs (next a))
    → Runs (run >>= next)
Runs-bind run next h k m =
    Within-bind run next (to_come m) (to_come m) m (h m)
      (λ a m' fewer. Within-mono (to_come m') (to_come m) (next a m') fewer (k a m'))

module _ {S : Type 0} where
  pub Runs-change_buffer : (f : Buffer → Buffer) → Runs {S = S} (change_buffer f)
  Runs-change_buffer f m = omega arith

  pub Runs-change_state : (f : S → S) → Runs (change_state f)
  Runs-change_state f m = omega arith

  pub Runs-on_session :
      (f : Session S → Session S)
      → ((s : Session S) → (f s).packet.input ≡ s.packet.input)
      → Runs (on_session f)
  Runs-on_session f h m = omega (arith, ap length (h m.session))

ruleset runs = (
  Runs-pure, Runs-gets, Runs-ask, Runs-on_buffer, Runs-on_state, Runs-if, Runs-bind,
  Runs-change_buffer, Runs-change_state,
)
