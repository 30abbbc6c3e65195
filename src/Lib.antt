-- ===== src/Lib.antt =====
-- The debug monitor mri: the parts of it that speak to gdb.
--
-- gdb sends a command in a packet, "$text#checksum". core/packet.c receives it into the data buffer
-- of the packet and acknowledges it; the handler of the command reads its arguments from that buffer
-- by the routines of core/buffer.c, does its work, and leaves its response in the same memory; and
-- core/packet.c frames the response and sends it until gdb acknowledges it. An error is a code in the
-- global `mriExceptionCode`, which each state below has as its field `exn`.
--
-- TryCatch models core/try_catch.h, and HexConvert models core/hex_convert.h.
--
-- Libc models core/libc.c: the functions on strings as functions of the bytes behind a pointer, and in
-- Libc/Blocks those on blocks of memory, over a list with indices for pointers.
--
-- Buffer models core/buffer.c. `Buffer` is the structure with the memory that it points into; a
-- pointer is an index of that memory. Core has the pointers and the tests of room, Bytes the
-- characters, bytes and strings, Integers the numbers, and Matching the comparisons. `bytes` is the
-- size of a `uintmri_t`, 4 or 8, and a parameter of what depends on it.
--
-- Packet models core/packet.c. `Link` is the structure `Packet` with its memory and the line to gdb:
-- the characters that gdb still sends, the answers of `Platform_CommHasReceiveData`, and what has
-- been sent. Receive has `Packet_GetFromGDB` and Send has `Packet_SendToGDB`, with one function for
-- each static function. A routine returns, or waits for a character that never comes, or is stuck
-- when the fuel of a loop is used up. The fuel of a loop over the line is the number of characters
-- that gdb still sends and one more, since every round but the first takes one of them; the fuel of a
-- loop over a buffer is the number of characters left in it, of which each round takes one. The two loops
-- over a buffer in Send, and that over digits in Buffer, give the state back at the end of their fuel.
--
-- Objects has the loops that show an object's bytes, which core/memory.c and core/context.c share.
--
-- Memory models core/memory.c. `Platform` is a record of the accesses to the debuggee's memory, which
-- the architectures implement; the routines for the sizes 2, 4 and 8, and those for hexadecimal and
-- for binary text, are each one function of the size, or of the routine that reads a byte.
--
-- Context models core/context.c: registers in several sections of one memory.
--
-- Token models core/token.c: a string split at separators. The pointers to the tokens are indices of
-- the copy of the string.
--
-- Commands models core/cmd_common.c, core/cmd_memory.c and core/cmd_break_watch.c over a `Session`,
-- which has the packet of core/mri.c and the platform's state.
--
-- Monitor models core/mri.c and the other command files. `MriCore` is the state of core/mri.c with the
-- session in it, and `Machine` is the interface of core/platforms.h: each routine of the platform is a
-- function on its state, of which nothing is assumed that a theorem does not name. A routine is a function
-- from the state to a `Result`: it has returned, waits for gdb, or is out of fuel. Init has `mriInit`,
-- Exception the debug exception, Breakpoint the temporary breakpoint, Loop the command table and the loop
-- over commands, Continue, Step, Registers, Threads, Query, VCont and FileIo the handlers of
-- core/cmd_continue.c and its siblings, FileRequests the requests of core/cmd_file.c, and Console
-- core/gdb_console.c. The fuel of
-- the command loop is the number of characters that gdb still sends and one more, since each round takes
-- one; that of a loop that parses or that lists threads is the number of characters left in the buffer and
-- one more, since each round takes or fills one. That of the loop that waits for a transmission is the
-- parameter `transmit_time` of the machine and one more, and enough only on a machine for which that gets less
-- each time it is asked in vain.
--
-- Semihost models semihost/semihost.c, semihost/arm and semihost/newlib: the requests of the program, which
-- are sent to gdb by FileRequests.
--
-- Not modelled is what is below the interface of core/platforms.h: architectures, devices and boards are
-- register accesses, rtos has the stubs for programs without threads, and memory/native the accesses to the
-- memory of the device itself, except for the loops that Memory shows; cmsis is the chip makers'
-- headers, and newlib_stubs.S is assembly. A `char` is taken as unsigned where its value matters only as a
-- code.
pub mod Prelude
pub mod TryCatch
pub mod HexConvert
pub mod Libc
pub mod Buffer
pub mod Packet
pub mod Objects
pub mod Memory
pub mod Context
pub mod Token
pub mod Commands
pub mod Monitor
pub mod Semihost
