-- ===== src/Monitor/Termination/Sessions.antt =====
-- The handlers of `Commands`, and what gdb sends.
use mri.Prelude.{ℕ, ◌≡◌, refl, Bool, true, false, if◌then◌else◌, List}
use mri.Packet.Link.{init}
use mri.Commands.Session.{Session, init_packet_buffers, prepare_string_response}
use mri.Commands.MemoryAccess.{
  handle_memory_read_command, handle_memory_write_command, handle_binary_memory_write_command,
}
use mri.Commands.BreakWatch.{
  Comparators, set_comparator, clear_comparator, answer_platform,
  handle_breakpoint_watchpoint_set_command, handle_breakpoint_watchpoint_remove_command,
}
use mri.Memory.Platform.{Platform}

-- What gdb still sends
abbrev pub input_of : {S : Type 0} → Session S → List ℕ
input_of s = s.packet.input

module _ {S : Type 0} (start size : ℕ) where
  pub input-prepare :
      (s : Session S) (text : List ℕ)
      → input_of (prepare_string_response start size s text) ≡ input_of s
  unfolding prepare_string_response init
  input-prepare s text = refl

  pub input-init : (s : Session S) → input_of (init_packet_buffers start size s) ≡ input_of s
  unfolding init
  input-init s = refl

input-if :
    {S : Type 0} (t : Bool) (a b : Session S) {l : List ℕ}
    → input_of a ≡ l
    → input_of b ≡ l
    → input_of (if t then a else b) ≡ l
input-if true a b h k = h
input-if false a b h k = k

module _ {S : Type 0} (platform : Platform S) (bytes start size : ℕ) where
  pub input-memory_read :
      (s : Session S)
      → input_of (handle_memory_read_command platform bytes start size s) ≡ input_of s
  unfolding handle_memory_read_command prepare_string_response init
  input-memory_read s = search (input-if)

  pub input-memory_write :
      (s : Session S)
      → input_of (handle_memory_write_command platform bytes start size s) ≡ input_of s
  unfolding handle_memory_write_command prepare_string_response init
  input-memory_write s = search (input-if)

  pub input-binary_write :
      (sync : ℕ → ℕ → S → S) (s : Session S)
      → input_of (handle_binary_memory_write_command platform bytes start size sync s) ≡ input_of s
  unfolding handle_binary_memory_write_command prepare_string_response init
  input-binary_write sync s = search (input-if)

module _ {S : Type 0} (comparators : Comparators S) (bytes start size : ℕ) (always : Bool) where
  pub input-set :
      (s : Session S)
      → input_of (handle_breakpoint_watchpoint_set_command comparators bytes start size always s)
        ≡ input_of s
  unfolding handle_breakpoint_watchpoint_set_command set_comparator answer_platform
      prepare_string_response init
  input-set s = search (input-if) depth 12

  pub input-remove :
      (s : Session S)
      → input_of (handle_breakpoint_watchpoint_remove_command comparators bytes start size always s)
        ≡ input_of s
  unfolding handle_breakpoint_watchpoint_remove_command clear_comparator answer_platform
      prepare_string_response init
  input-remove s = search (input-if) depth 12
