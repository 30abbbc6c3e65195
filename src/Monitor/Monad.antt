-- ===== src/Monitor/Monad.antt =====
-- The routines of core/mri.c and of the handlers, as functions of the monitor's state: what they do in turn,
-- and how they call the routines on the packet, on its data buffer, and on the platform.
use mri.Prelude.{◌≡◌, Bool, if◌then◌else◌}
use mri.Buffer.Core.{Buffer, clear_exception_code, no_throw}
use mri.Packet.Link.{M, done, waits, stuck, data_view}
use mri.Commands.Session.{Session, with_buffer}
use mri.Monitor.State.{MriCore}

-- How a routine ends: as one of `Packet.Link` does, but over the monitor's state.
pub data Result {ℓ} (S : Type 0) (A : Type ℓ) : Type ℓ where
  returned : A → MriCore S → Result S A
  waiting : MriCore S → Result S A
  out_of_fuel : Result S A

abbrev pub Run {ℓ} : Type 0 → Type ℓ → Type ℓ
Run S A = MriCore S → Result S A

abbrev pub with_session : {S : Type 0} → MriCore S → Session S → MriCore S
with_session m s = record m { session = s }

-- A routine followed by one that is given its result.
infixl 5 ◌>>=◌ ◌>>◌
unfoldable pub ◌>>=◌ {ℓ κ} :
    {S : Type 0} {A : Type ℓ} {B : Type κ} (routine : Run S A) (next : A → Run S B) → Run S B
◌>>=◌ routine next m = elim (routine m) [
  | returned a m' ↦ next a m'
  | waiting m' ↦ waiting m'
  | out_of_fuel ↦ out_of_fuel
]

abbrev pub ◌>>◌ {ℓ} :
    {S : Type 0} {B : Type ℓ} (routine : Run S (Unit {0})) (next : Run S B) → Run S B
◌>>◌ routine next = routine >>= λ _. next

abbrev pub pure {ℓ} : {S : Type 0} {A : Type ℓ} → A → Run S A
pure a m = returned a m

abbrev pub gets {ℓ} : {S : Type 0} {A : Type ℓ} → (MriCore S → A) → Run S A
gets f m = returned (f m) m

-- A routine of core/packet.c
unfoldable pub on_packet {ℓ} : {S : Type 0} {A : Type ℓ} → M A → Run S A
on_packet routine m = elim (routine m.session.packet) [
  | done a l ↦ returned a (with_session m (record m.session { packet = l }))
  | waits l ↦ waiting (with_session m (record m.session { packet = l }))
  | stuck ↦ out_of_fuel
]

-- A routine of core/buffer.c on `GetBuffer()`
abbrev pub on_buffer {ℓ} : {S : Type 0} {A : Type ℓ} → (Buffer → A × Buffer) → Run S A
on_buffer routine m =
    let result = routine (data_view m.session.packet) in
    returned (result.0) (with_session m (with_buffer m.session (result.1)))

abbrev pub change_buffer : {S : Type 0} → (Buffer → Buffer) → Run S (Unit {0})
change_buffer routine m =
    returned tt (with_session m (with_buffer m.session (routine (data_view m.session.packet))))

-- A routine of the platform
abbrev pub on_state {ℓ} : {S : Type 0} {A : Type ℓ} → (S → A × S) → Run S A
on_state routine m =
    let result = routine m.session.state in
    returned (result.0) (with_session m (record m.session { state = result.1 }))

abbrev pub change_state : {S : Type 0} → (S → S) → Run S (Unit {0})
change_state routine m =
    returned tt (with_session m (record m.session { state = routine m.session.state }))

abbrev pub ask {ℓ} : {S : Type 0} {A : Type ℓ} → (S → A) → Run S A
ask question m = returned (question m.session.state) m

-- The handlers of `Commands`
abbrev pub on_session : {S : Type 0} → (Session S → Session S) → Run S (Unit {0})
on_session routine m = returned tt (with_session m (routine m.session))

-- `__try`, and `clearExceptionCode`
abbrev pub clear_exception : {S : Type 0} → Run S (Unit {0})
clear_exception = change_buffer clear_exception_code

-- Whether no exception is set, which `__catch` asks.
abbrev pub nothing_thrown : {S : Type 0} → Run S Bool
nothing_thrown m = returned (no_throw (data_view m.session.packet)) m

-- `__throwing_func( a = routine ); rest __catch handler`
abbrev pub attempt {ℓ κ} :
    {S : Type 0} {A : Type ℓ} {B : Type κ} (routine : Run S A) (handler : Run S B)
    (rest : A → Run S B)
    → Run S B
attempt routine handler rest =
    routine >>= λ a. nothing_thrown >>= λ fine. if fine then rest a else handler

-- `if (test) … else …`, for a test that changes the state
abbrev pub branch {ℓ} :
    {S : Type 0} {B : Type ℓ} (test : Run S Bool) (positive negative : Run S B) → Run S B
branch test positive negative = test >>= λ holds. if holds then positive else negative

-- What a sequence does once its first part is known to return
pub >>=-returned {ℓ κ} :
    {S : Type 0} {A : Type ℓ} {B : Type κ} (routine : Run S A) (next : A → Run S B) (m : MriCore S)
    {a : A} {m' : MriCore S}
    → routine m ≡ returned a m'
    → (routine >>= next) m ≡ next a m'
unfolding ◌>>=◌
>>=-returned routine next m h = rw (h, ◌>>=◌)
