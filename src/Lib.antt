-- ===== src/Lib.antt =====
-- libdivecomputer: a library that downloads dives from dive computers and parses them. A driver for
-- a family of devices talks to its device over a byte stream, frames and checks its packets, walks
-- the ring buffers in the memory of the device, collects the data in a byte buffer and reads numbers
-- out of arrays of bytes. This development models those shared parts, and what the
-- drivers of Shearwater and of Suunto computers share on top of them.
--
-- The parts and their files, paths from the repository's root:
--   Base        shared names, Boolean tests, lists, bit operations on native numbers as arithmetic,
--               machine words (u8, u16, u32, u64 are the remainder modulo 2^w, and shifts and
--               subtraction wrap where C wraps) and blocks of memory.
--   Status      dc_status_t of include/libdivecomputer/common.h, dc_status_set_error of src/common.c.
--   Checksum    src/checksum.c: every checksum by its name in the source, with the lookup tables
--               (Checksum/Tables). Checksum/Division is the reference, division of polynomials over
--               GF(2) one bit at a time; Msb and Lsb relate the table-driven loops to it. Sums has the
--               laws of the additive sums.
--   RingBuffer  src/ringbuffer.c: positions in a ring between two addresses. A failed assert is
--               `none`. Residues has the predicates on rings and positions.
--   Buffer      src/buffer.c: dc_buffer_t as a record of its block, capacity, offset and size; the
--               offset, the size and the capacity are size_t of 64 bits. An access outside of
--               the block gives `none`. malloc and realloc are two functions that are parameters: each
--               gives NULL or a block of the size asked for, with bytes of its choice where nothing was
--               stored. The model does not tell such bytes from others, so it has no fault for reading
--               them. The view of a buffer is the list of its bytes, which is what the theorems speak
--               about: Grow, Ends, Sizes, Gap and Insert have one group of operations each.
--   Array       src/array.c: arrays are lists of bytes, a read past their end is `none`. Integers has
--               the readers and writers of a fixed width, Hex the hexadecimal text, Search and Digits
--               what the other operations compute, Codec the round trips.
--   Hdlc        src/hdlc.c: the frames of a byte stream over another. The base stream is a parameter:
--               for a write, a port with a state of its own; for a read, the list of its replies.
--               Encode has the written frame; Chunks and Decode read it back,
--               Exchange joins the two.
--   Rbstream    src/rbstream.c: packets out of a ring in the memory of a device, which is a parameter.
--               Ring is the specification, the bytes of a ring as a stream without an end; Refill and
--               Forward are on forward reads, Behind, Unload and Backward on backward reads, New on
--               dc_rbstream_new.
--   Packet      src/packet.c: a stream of packets over another stream, which is a parameter. Read and
--               Write have one direction each.
--   Shearwater  src/shearwater_common.c: the two phases of the decompression of a dive, with the buffer
--               of src/buffer.c for the output (Xor, Words, Lre), and the SLIP frames over a stream that
--               is a parameter (Slip): Numbers and Send have the packets of a frame that is written,
--               Receive and Decode take a frame apart, Reads has what a read of the stream returns, at most as
--               much as it asks for, and Exchange joins the two. Transfer has the requests on top of them: Answers is on one request with its response, Identifiers on the read by
--               identifier, Storing and Download on the download of a dive. Whether the application has
--               cancelled is a parameter.
--   Suunto      src/suunto_common.c: the walk backward through the ring of profiles of a Suunto computer,
--               with the memory of the device as a list of bytes. The block from malloc and the callback
--               of the application are parameters. Rounds and Safe are on the accesses.
--   Ihex        src/ihex.c: the records of an Intel HEX file, which is a parameter: the bytes to come.
--               Judgement has the rules of the format, Records a record in a file.
--
-- How they interact: the drivers call Checksum on the packets that Hdlc and the other streams carry,
-- move through the memory of a device by RingBuffer, keep what they downloaded in a Buffer, and read
-- its fields by Array. Ihex uses Array and Checksum on the records of a firmware file. The parts hand
-- each other little but arrays of bytes, which are lists of numbers below 256 here.
--
-- Rbstream reads ring buffers by whole packets for the drivers that download a log in one piece. A read
-- copies at least one byte in each round, so it has as much fuel as bytes are wanted.
--
-- Suunto moves through its ring by RingBuffer. Shearwater downloads through its frames into a
-- Buffer, and decompresses on the way.
--
-- Loops are structural recursion on the bytes that they consume. The loop over the blocks of a download
-- has fuel, since no count of the source bounds the empty blocks that a device may send; one round takes
-- one block. The loop of dc_buffer_expand_calc doubles the capacity: from a positive capacity, 64 doublings pass every size
-- below 2^64, so the fuel cannot run out before the loop of the source ends or wraps. A read in Hdlc has
-- one round for each reply of the base stream; where the list of replies ends, the base stream times
-- out, as it does in the source when nothing more arrives.
--
-- Not modelled: the other drivers and the parsers of the device families, the transports
-- (serial, USB, BLE, sockets, IrDA), logging and contexts, the table of descriptors, and the release of memory; src/aes.c is
-- a copy of another project. Of src/array.c the reversal of bytes, the backward search,
-- signextend, popcount and array_float_le are left out.
pub mod Base
pub mod Status
pub mod Checksum
pub mod RingBuffer
pub mod Buffer
pub mod Array
pub mod Hdlc
pub mod Rbstream
pub mod Ihex
pub mod Packet
pub mod Shearwater
pub mod Suunto
