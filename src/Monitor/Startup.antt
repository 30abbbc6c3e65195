-- ===== src/Monitor/Startup.antt =====
-- core/mri.c: `mriInit`, on each way that it can end.
use mri.Prelude.{ℕ, ◌≡◌, inl, inr, ◌∙◌, sym, Bool, true, false, ◌==◌, Bool-cases, List}
use mri.TryCatch.{set_exception_code}
use mri.Buffer.Core.{no_throw}
use mri.Packet.Link.{data_view}
use mri.Token.Core.{Token, init_tokens}
use mri.Token.Split.{split_string}
use mri.Monitor.State.{Machine, MriCore}
use mri.Monitor.Monad.{returned, with_session, ◌>>=◌, >>=-returned}
use mri.Monitor.Breakpoint.{on_platform}
use mri.Monitor.Init.{cleared_core, clear_core_structure, initialize_platform, mri_init}

module _ {S : Type 0} (machine : Machine S) where
  -- The core after `mriInit`, by the exception, the platform's state and the flags that are left
  abbrev ended : MriCore S → ℕ → S → Bool → MriCore S
  ended m exn state success =
      let cleared = cleared_core machine m in
      record (with_session cleared (record cleared.session {
        packet = record cleared.session.packet { exn = exn };
        state = state;
      })) { successful_init = success; first_exception = success }

  -- What the parameters are split into
  abbrev split_into : Token → List ℕ → Token
  split_into tokens parameters = split_string (record (init_tokens tokens) { exn = 0 }) parameters

  initialize_platform-split :
      (tokens : Token) (parameters : List ℕ) (m : MriCore S)
      → ((split_into tokens parameters).exn == 0) ≡ true
      → initialize_platform machine tokens parameters (ended m 0 m.session.state false)
        ≡ returned tt (
            ended m
              (set_exception_code
                (machine.platform_init (split_into tokens parameters) m.session.state).0
                (split_into tokens parameters).exn)
              (machine.platform_init (split_into tokens parameters) m.session.state).1
              false)
  unfolding initialize_platform on_platform ◌>>=◌
  initialize_platform-split tokens parameters m h = rw h

  initialize_platform-unsplit :
      (tokens : Token) (parameters : List ℕ) (m : MriCore S)
      → ((split_into tokens parameters).exn == 0) ≡ false
      → initialize_platform machine tokens parameters (ended m 0 m.session.state false)
        ≡ returned tt (ended m (split_into tokens parameters).exn m.session.state false)
  unfolding initialize_platform ◌>>=◌
  initialize_platform-unsplit tokens parameters m h = rw h

  -- `mriInit` returns from every state and for all parameters, and sets `MRI_FLAGS_SUCCESSFUL_INIT` and
  -- `MRI_FLAGS_FIRST_EXCEPTION` exactly when no exception is left.
  pub mri_init-lem :
      (tokens : Token) (parameters : List ℕ) (m : MriCore S)
      → (m' : MriCore S) × (mri_init machine tokens parameters m ≡ returned tt m')
        × (m'.successful_init ≡ no_throw (data_view m'.session.packet))
        × (m'.first_exception ≡ no_throw (data_view m'.session.packet))
  unfolding mri_init clear_core_structure ◌>>=◌
  mri_init-lem tokens parameters m =
      let t = split_into tokens parameters in
      let (code, s) = machine.platform_init t m.session.state in
      let start = ended m 0 m.session.state false in
      let run = initialize_platform machine tokens parameters in
      elim (Bool-cases (t.exn == 0)) [
        | inl split ↦
            let first =
              >>=-returned run _ start (initialize_platform-split tokens parameters m split) in
            elim (Bool-cases (set_exception_code code t.exn == 0)) [
              | inl fine ↦ (
                ended m (set_exception_code code t.exn) s true,
                first ∙ rw fine,
                sym fine,
                sym fine,
              )
              | inr thrown ↦ (
                ended m (set_exception_code code t.exn) s false,
                first ∙ rw thrown,
                sym thrown,
                sym thrown,
              )
            ]
        | inr unsplit ↦ (
          ended m t.exn m.session.state false,
          >>=-returned run _ start (initialize_platform-unsplit tokens parameters m unsplit)
              ∙ rw unsplit,
          sym unsplit,
          sym unsplit,
        )
      ]
