-- ===== src/Monitor/Termination/Whole.antt =====
-- core/mri.c: `GdbCommandHandlingLoop` with every loop that it comes to.
use mri.Prelude.{◌+◌, ◌≡◌, arith, length, false}
use mri.Buffer.Core.{Buffer, bytes_left, no_throw}
use mri.Buffer.Integers.{parse_all_hex_digits}
use mri.Buffer.Room.{parse_hex_digits-throws}
use mri.Packet.Link.{Link, data_view, packet_view}
use mri.Packet.Send.{process_packet_data, send_packet}
use mri.Packet.Termination.Exits.{process_packet_data-ends, send_packet-ends}
use mri.Monitor.State.{Machine, MriCore}
use mri.Monitor.Loop.{gdb_command_handling_loop}
use mri.Monitor.Termination.CommandLoop.{Below, gdb_command_handling_loop-Below}

module _ {S : Type 0} (machine : Machine S) where
  -- `GdbCommandHandlingLoop`, from every state: it returns, with at least one of gdb's characters taken, or
  -- waits for gdb, and no loop below it whose fuel shows in the result uses that up. The three others, in every
  -- state, end in the way of the C loops: those of `Platform_CommSendBuffer` and `processPacketData` with
  -- nothing left to read, and that of `Buffer_ReadUIntegerAsHex` with an exception.
  pub gdb_command_handling_loop-Ends :
      (m : MriCore S) (sent summed : Link) (b : Buffer)
      → Below (length m.session.packet.input) (gdb_command_handling_loop machine m)
        × (bytes_left (packet_view (send_packet sent)) ≡ 0)
        × (bytes_left (data_view (process_packet_data summed)) ≡ 0)
        × (no_throw ((parse_all_hex_digits machine.bytes b).2) ≡ false)
  gdb_command_handling_loop-Ends m sent summed b = (
    gdb_command_handling_loop-Below machine m,
    send_packet-ends sent,
    process_packet_data-ends summed,
    parse_hex_digits-throws machine.bytes (bytes_left b + 1) b 0 0 (omega arith),
  )
