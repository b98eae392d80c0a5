-- ===== src/Lib.antt =====
-- LC-clibs: the byte buffer `dybuf`, the packets `dypkt` on top of it, what they take from the
-- platform, the pool of managed memory, the core of the object model, its containers, and the
-- packer that writes objects into a byte buffer and makes them again.
--
-- Parts. A `dybuf` is a block of bytes with four numbers (mark, position, limit, capacity):
-- writers go through a guard that moves the limit and grows the block, readers take what stands
-- at the position. A `dypkt` is the same buffer read and written as fields, each a typdex header
-- (a type and an index in one to four bytes) and a value. The pool counts the owners of
-- memory blocks, apart from the other two. An object (mmo) is a chain of structures in one
-- block, from its root to its last child. The packer numbers the objects it meets, notes their class
-- names, and writes items into a `dybuf`; the unpacker processes all items into maps and lists on a
-- stack, and the getters of an object take their values from there.
--
-- Files, by the code they are about:
--   Base         shared names; bytes, words of 16, 32 and 64 bits with their wrap-around, bit
--                masks, lists
--   Mem          platform/plat_mem.h: a block is a list of bytes, `malloc` a test on the size that
--                tells which requests are met
--   Dybuf        dybuf/dybuf.h. State: `struct dybuf` as `Dybuf`, and `M`, a call as a function
--                from `malloc` and a buffer to a value and a buffer, or to a fault (an access
--                outside the block). Resize, Append, Next, Peek, Join, Blocks, Typdex, TypdexTyp, VarInt,
--                VarBlocks, Float and Life hold the functions, `dyb_append_u8` as `append_u8` and so on.
--                Resized, Inv, Compacted, Reads, Writes, Runs, BigEndian, Peeks, Widths, VarFormat, VarCodec,
--                TypdexFormat, TypdexCodec, SignedCodec, FloatCodec, BlockCodec, VarBlockCodec, RoundTrip,
--                Formats, Edges and LifeLaws hold the proofs, Tests the concrete runs.
--   Dypkt        dybuf/dypkt.h. Pack and Unpack hold the functions, `dyp_append_bool` as
--                `Pack.append_bool` and `dyp_next_bool` as `Unpack.next_bool`; Field, FieldCodec,
--                Packet and Unheaded what is proved of whole fields and packets, with a reader
--                that asks `dyp_next_type` first, as the test in test.c does.
--   Pool         platform/plat_mgn_mem.h. Table: `mgn_memory` and the interface of the hash table
--                macros with the laws that uthash documents. State and Unused hold the functions,
--                `mgn_mem_retain` as `retain` and so on; `_mgn_mem_release` is `give_back`. Swept, Owners
--                and Growth hold the proofs, Tests the concrete runs.
--   Mmo          mmo/mmo.h. Chain: an object as the ring of its structures, `stru_name_to_oid`, the `find_`
--                function that the class macros make, and casts; Birth: the `init_` and `destroy_`
--                functions of the macros; Compare: `__compare_mmobjs`. Cast holds the proofs of casts,
--                Tests the concrete runs.
--   Ext          mmo/mmo_ext.h. Hash: the interface of the hash table macros, as records of operations and
--                laws; Listed fills it. Map: `MMMapItem` and `MMMap`, with `addMMMapItem` as `add_mmmap_item`; MapLaws
--                and MapUpdates their proofs. Sequence: `MMList`; SequenceLaws its proofs. Number: the
--                comparison of `MMInt` and `MMLong`.
--   Pack         mmo/mmo_pack.h and mmo/mmo_pack.c. Codes: the types of items. Packer: `MMPacker`, `packVarInt64_impl`
--                as `pack_var_int64` and so on, the loop of `_packObject_impl` as `pack_waiting`. Unpacker: `MMUnpacker`
--                with its containers in a heap; Process: `process`, one function for each kind of
--                item; Getters: `unpackObject_impl` as `unpack_object` and so on. CallCodec, ObjectCodec and
--                ObjectPacked prove what is written; Rounds, ItemCodec, ObjectRounds and ObjectUnpacked what
--                the loop of `process` makes of it; Received, RoundTrip, RootTrip, ObjectTrip, ObjectResult and
--                ObjectLaws what the getters give; ArrayRounds and ArrayLaws the same of arrays; Numbers is about the numbers of objects, Malformed about
--                items that no packer writes.
--
-- How the code is read. A pointer to the instance is the state; null as the answer of a setter
-- is `false`. A pointer into the block is its offset. A `uint` is a number below 2 ^ 32 and wraps
-- in `add32` and `sub32`; a `uint64` wraps in `add64` and `sub64`; an `int64`, a `float` and a `double` are
-- their bit patterns. The byte order of the host is a parameter of the floats. A null pointer
-- from an unchecked `malloc` is the empty block, so the first access to it is a fault.
--
-- The pool's pointers are numbers, with 0 for `NULL`; the answers of `malloc` are a list in its state,
-- and a callback is a parameter that may change the pool. `plat_mem_allocate` and `plat_mem_copy` take a
-- `uint`, so the pool's sizes, which are `size_t`, are cut to 32 bits in `allocate` and `copy_block`; a copy
-- past the end of a block is noted in the state (`overrun`).
--
-- A pointer to an object is the place of one of its structures, or null. A search through the ring has a
-- result of its own (`Search`): a structure, null, no structure at the place, or out of fuel.
--
-- What a class packs is the list of the calls of its `fn_pack`; a registered allocator is a function
-- from the unpacker to an object and the unpacker, found by class name in a table that is null until
-- the first is registered. In the packer and the unpacker every allocation
-- is taken to succeed, and a packer or unpacker to be what it is cast to.
--
-- Fuel. The reader of a packet takes one round for each field and one more, and the `goto` of
-- `mgn_mem_release_unused` a round for each sixteen elements; more rounds than elements are enough. A
-- cast takes one call for each structure and two more. `pack_waiting` takes a round for each object and
-- one more, `process` a round for each item and one more.
--
-- Not modelled: the function tables of objects and their release through the pool; of mmo/mmo_ext.h the
-- owners of what a container holds, strings and their formatting, data, the comparison of floats,
-- and the packing of the containers themselves; of mmo/mmo_pack.c `registerAllocator_impl`, the versions and
-- the debug output; the vendored hash table and array macros (platform/uthash.h,
-- platform/utarray.h), input and output (platform/plat_io.h), the kernel builds that stub the memory
-- functions, and the tests.
pub mod Base
pub mod Mem
pub mod Dybuf
pub mod Dypkt
pub mod Pool
pub mod Mmo
pub mod Ext
pub mod Pack
