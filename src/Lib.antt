-- ===== src/Lib.antt =====
-- The wire-format core of simple-dns, dns_wire.c with dns_wire.h: the functions that every program
-- of the repository (dns_server.c, resolverd.c, mdnsd.c, certd.c, eppd.c, apid.c, doqd.c,
-- simple_dns.c, object_graph.c) builds and reads DNS messages and stored values with.
--
-- The parts and their files. A message is built in one buffer: `put16` to `get32` are the accessors
-- (Endian), names are written and read on them (Name), names are written with compression
-- against a context of the names written so far (Compress), and records are appended with
-- an owner name written in one of the two ways (Record). EDNS options are read from a request
-- (Edns) and an OPT record is appended to a response (Edns/Append). Values in the store are
-- versioned blobs of tagged items (Tlv), ZONEMD digests among them (Zonemd) and SVCB services
-- (Svcb). Types has the names of the record types, Serial the order of serial numbers, Canon the
-- canonical form of rdata that is signed, Order the canonical order of names, and Hex the text form
-- of binary values. The programs talk to the store through the client of dns_wire.c (Valkey). The
-- registry of eppd.c keeps its objects there as blobs of tagged items (Epp). object_graph.c reads and
-- prints addresses (Ip), lists the addresses and the subnets of a network (Cidr), and keeps a store of
-- objects and roots with transactions (Graph).
--
--   Common         numbers, lists, Boolean tests and the conditional
--   Common/Bits    shifts and masks in plain arithmetic
--   Common/Memory  buffers, and the outcome of a function that may fail; Cursor and Safe beside it
--   Common/Text    C strings: `strlower`, `safe_strcpy`, `strcasecmp`, `strtok_r`, numerals
--   Endian         `put16`, `put32`, `get16`, `get32`
--   Name           `name_to_wire`, `name_from_wire`, `txt_encode`
--   Compress       `g_cc`, `compress_reset`, `name_to_wire_c`
--   Record         `append_rr`, `append_rr_plain`
--   Tlv            `tlv_begin` to `tlv_next`, and the loop of the readers
--   Zonemd         `zonemd_build_tlv`, `zonemd_tlv_to_wire`
--   Svcb           `svcb_tlv_to_wire`
--   Edns           `edns_info_t`, `skip_name`, `edns_parse`
--   Edns/Append    `edns_append_opt`, one function for each option's block
--   Canon          `canon_rdata`; Names, Stored and Soa are about what it copies
--   Hex            `hex_enc`, `hex_dec`
--   Order          `canon_name_cmp`; Lex has lexicographic orders
--   Serial         `serial_lt`, `serial_ge`
--   Types          `type2str`, `str2type`
--   Valkey         `vkc_fill` to `vkc_parse`; Stream, Lines and Blocks are about the bytes that arrive
--   Valkey/Command `vkc_cmd_v`, `vkc_send_cmd`, `vkc_txn_begin`, `vkc_txn_queue`, `vkc_txn_commit`
--   Epp            eppd.c: `epp_…_encode` and `epp_…_decode` of the five kinds of objects; Codec has
--                  the steps that they share
--   Ip             object_graph.c: `pog_parse_ipv4`, `pog_format_ipv4`; V6 has `pog_parse_ipv6`, Printed
--                  `pog_format_ipv6`, Family `pog_parse_ip` and `pog_format_ip`
--   Cidr           object_graph.c: `cidr_get_net` to `cidr_is_assigned`; Lists has the lengths and the
--                  items of `cidr.all`, `cidr.free` and `cidr.subnets`, Network, Hosts and Assigned
--                  say which addresses those of `cidr.free` are
--   Graph          object_graph.c: the store's data and `apply_undo`
--   Graph/Txns     `txn_begin`, `txn_abort`, `txn_commit`, `auto_begin`, `auto_end`, `log_push`
--   Graph/Calls    new objects, the setters, lists, `bind` and `unbind`; Perform has sequences of them
--   Tests          runs on small inputs
--
-- How the code is modelled. A buffer is a list of byte values, and memory is not shared: a function
-- that writes returns the buffer. A C function that returns -1 gives `err`, a success gives `ok`, and
-- every access is checked against the whole memory of the buffer: one outside it gives `fault`.
-- So "never a fault" is memory safety, and a statement about `err` is one about -1. The capacity
-- that a caller passes is a separate number. A C string is the list of its bytes without the NUL. `int`
-- values are natural numbers where the code keeps them from being negative; an assignment to a
-- byte or to a 16-bit value wraps around. The compression context, thread-local in C, is an argument
-- and a result, and a call that fails keeps what it has registered. Buffers and strings are not NULL.
--
-- Loops. `name_from_wire` and `skip_name` count their 128 rounds as the code does, and the end of the
-- count is what the code makes of it. The loops over labels and over items of a list are
-- structural. The loops of `txt_encode`, of the TLV readers and over the EDNS options have fuel, and run
-- into a fault without it: the length of the text, the length of the blob, and one more than the
-- length of the packet are enough, since every round moves on.
--
-- The client. A connection is the unread bytes of its buffer, what each call of `recv` will find, and how
-- many bytes `send` will take. Its loops have the number of bytes to come as fuel, and run into a
-- fault without it. `atoi` is `atol` with the conversion to `int`, as in glibc.
--
-- Addresses. The loop of `pog_parse_ipv6` has the length of its text as fuel, and that of
-- `pog_format_ipv6` 8 rounds: each round moves on. An array of groups with its count is a list. What a
-- list of addresses reads of its parameters is a tree of objects, which it does not change.
--
-- The store. A pointer to an object is its place in the array of objects, so that an object that two
-- fields share is one object here too. Allocations succeed, and what `wal_write_txn` will report is a
-- list. The functions are those that run under the lock of the store, one at a time.
--
-- Not modelled. The functions of dns_wire.c for the presentation form of SVCB, CSYNC, base64, base32,
-- NSEC3 hashes, the canonical order of records, the schema version, `vkc_scan_keys` and what opens
-- connections. Classes, indexes, garbage collection, snapshots and the files of
-- object_graph.c. The programs around dns_wire.c, whose work is sockets, threads, TLS and XML.
pub mod Common
pub mod Endian
pub mod Name
pub mod Compress
pub mod Record
pub mod Tlv
pub mod Zonemd
pub mod Types
pub mod Edns
pub mod Tests
pub mod Serial
pub mod Svcb
pub mod Canon
pub mod Hex
pub mod Order
pub mod Epp
pub mod Valkey
pub mod Ip
pub mod Cidr
pub mod Graph
