-- ===== src/Monitor/Board.antt =====
-- A small machine, whose state is its program counter, and the monitor on it.
use mri.Prelude.{ℕ, ◌+◌, true, false, List, [], ◌∷◌, ◌++◌, none, replicate, length}
use mri.Libc.{literal}
use mri.Packet.Link.{Span}
use mri.Monitor.State.{Machine, MriCore, unknown, other, nothing}

abbrev pub board : Machine ℕ
board = record {
  bytes = 4;
  packet_start = 0;
  packet_size = 36;
  always_hardware = false;
  memory = record {
    mem_read = λ size address s. (0, s);
    mem_write = λ size address value s. s;
    was_memory_fault_encountered = λ s. (false, s);
  };
  comparators = record {
    set_hardware_breakpoint = λ address kind s. (0, s);
    clear_hardware_breakpoint = λ address kind s. (0, s);
    set_hardware_watchpoint = λ address size type s. (0, s);
    clear_hardware_watchpoint = λ address size type s. (0, s);
  };
  sync_icache_to_dcache = λ address size s. s;
  handle_platform_command = λ b s. (nothing, b, s);
  entering_debugger = λ s. s;
  leaving_debugger = λ s. s;
  determine_cause_of_exception = λ s. (5, s);
  get_trap_reason = λ s. (record { type = unknown; address = 0 }, s);
  fault_cause = λ s. ([], s);
  enable_single_step = λ s. s;
  disable_single_step = λ s. s;
  is_single_stepping = λ s. false;
  get_program_counter = λ s. s;
  set_program_counter = λ pc s. pc;
  advance_program_counter = λ s. s + 2;
  was_program_counter_modified = λ s. false;
  type_of_current_instruction = λ s. (other, s);
  write_t_response_registers = λ b s. b;
  memory_map_xml = literal "<memory-map/>";
  memory_map_xml_size = 13;
  target_xml = literal "<target/>";
  target_xml_size = 9;
  set_hardware_breakpoint = λ address s. (0, s);
  clear_hardware_breakpoint = λ address s. (0, s);
  register_words = λ s. 1 ∷ 2 ∷ s ∷ [];
  with_register_words = λ words s. s;
  halted_thread_id = λ s. 0;
  first_thread_id = λ s. (0, s);
  next_thread_id = λ s. (0, s);
  extra_thread_info = λ id s. none;
  thread_context = λ id s. none;
  is_thread_active = λ id s. false;
  is_set_thread_state_supported = false;
  set_thread_state = λ id state s. s;
  restore_prev_thread_state = λ s. s;
  transmit_time = λ s. 0;
  has_transmit_completed = λ s. (true, s);
  reset_device = λ s. s;
  get_semihost_call_parameters =
      λ s. record { parameter1 = 0; parameter2 = 0; parameter3 = 0; parameter4 = 0 };
  get_newlib_semihost_operation = λ s. 0;
  set_semihost_call_return_and_errno_values = λ value errno s. s;
  read_memory = λ address count s. [];
  memory_bytes = λ address count s. [];
  set_memory_bytes = λ address bytes s. s;
  uid = [];
  file_stats_address = 0;
  hook_at = λ address context. none;
  platform_init = λ tokens s. (0, s);
}

abbrev no_pointers : Span
no_pointers = record { start = 0; last = 0; current = 0 }

-- The monitor after a halt, with what gdb then sends.
abbrev pub halted : List ℕ → MriCore ℕ
halted input = record {
  session = record {
    packet = record {
      mem = replicate 40 0;
      exn = 0;
      packet_buffer = no_pointers;
      data_buffer = no_pointers;
      last_char = 0;
      calculated_checksum = 0;
      expected_checksum = 0;
      control_c = false;
      input = input;
      polls = [];
      output = [];
    };
    state = 8;
  };
  temp_breakpoint_callback = none;
  entering_hook = none;
  leaving_hook = none;
  context = record { values = 0; count = 3 } ∷ [];
  temp_breakpoint_address = 0;
  successful_init = true;
  first_exception = false;
  semihost_control_c = false;
  temp_breakpoint = false;
  reset_on_continue = false;
  ranged_single_step = false;
  range_for_single_stepping = record { start = 0; last = 0 };
  semihost_return_code = 0;
  semihost_errno = 0;
  signal_value = 5;
}

-- The monitor with a text in its data buffer, to be read
abbrev pub reading : List ℕ → MriCore ℕ
reading text = record (halted []) {
  session = record {
    packet = record (halted []).session.packet {
      mem = 0 ∷ text ++ replicate 39 0;
      data_buffer = record { start = 1; last = 1 + length text; current = 1 };
    };
    state = 8;
  };
}
