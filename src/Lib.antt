-- ===== src/Lib.antt =====
-- A verification library for parts of KEDR's auxiliary sources: programs of C that run in the
-- kernel, modelled as functions over the states they keep.
--
-- Calc is snippets/fault_indicator_examples/caller_addresses_list/calculator.c, the expressions of
-- the fault indicators. Essence has the trees, Env the names and constants, Lex the function
-- parse_data_next_token, Priority the priorities, Parse the parser, Eval the evaluation. Run is the
-- monad of the parser: struct parse_data is passed on, with a count of the calls of kmalloc and of
-- the objects that are allocated; a BUG_ON is the outcome `bug`. Each call of kmalloc ends as a
-- function of its number says. parse_data_parse recurses on fuel, one unit for a call or a round of
-- its loop; the text's length and one more are enough for any text. kedr_calc_int_t, whose header
-- is not in the repository, is a parameter (CalcInt), and so are the values of the weak variables.
-- A text is the list of its bytes before the NUL. isspace, isalpha and their like are those of
-- ASCII. The messages are left out. Tokens, Sound, Correct, Traps, Names, Print, Precedence,
-- RoundTrip and MissingColon have the proofs.
--
-- Base is snippets/load_controller_on_boot/kedr_standalone/base.c. Table has the replacement tables,
-- with arrays as lists and writes that are checked against their bounds, and Registry the operations:
-- struct kedr_payload and the controller are known by their addresses. How mutex_lock_interruptible,
-- kzalloc and try_module_get end are arguments; try_module_get and module_put are counted for each
-- module. kedr_target_module_in_init, which calls the controller's delegate and nothing else, is not
-- modelled. Concat, Invariant, Balance, Session and Cleanup have the proofs.
--
-- Control is snippets/load_controller_on_boot/kedr_standalone/controller.c, for CONFIG_X86_64. The
-- memory is a function from addresses to bytes, and the decoder of instructions, a copy of the
-- kernel's insn.c, a parameter: what the proofs rely on are the records CallsFit and Local. The loop of
-- do_process_area has a round for each byte of the area and one more, and a round moves on by a byte.
-- Addresses do not wrap around in the comparison of pointers. Detector has the notifications, over the
-- Base above, and the start and the cleanup of the controller; how the locks and the other calls of
-- the kernel end are arguments, and the payloads' functions, which are generated, are parameters. The
-- spin lock is held over each use of target_in_init and is left out. Offsets, Targets, Area, Agree,
-- Skips, Sites, Redirects, Session and Startup have the proofs.
--
-- DataMap is snippets/fs_operation_replacement/data_map.c, the hash table by which the operation
-- replacer finds its data. hash_ptr is a parameter, of which the proofs use that it stays below
-- 2^bits. data_map_create shifts a size_t, which is 0 behind 64 shifts, and the model has 64. The
-- number of chains is not wrapped around, so `size_bits` is to be below 31. The spin lock is held
-- during each of the operations that take it, and is left out. WellFormed, Laws and Drain have the
-- proofs.
--
-- Replacer is snippets/fs_operation_replacement/operation_replacer.c, over the DataMap above: the
-- functions that replace the operations of an object, restore, forget and update them, for both types
-- of replacer. A structure of operations is the list of its pointers, the data of a replacement are
-- known by their addresses, and how kmalloc ends is an argument. The payloads, their layers and the
-- callbacks of the target, which make the mask and the replacements, are not modelled. Restored has the
-- proofs.
--
-- LeakCheck is payload_modules/checkers/kedr_leak_check.old. Storage has mbi_ops.c, with its counters
-- as 64-bit words and no stack traces, and Replace the replacement functions of payload.c, as what
-- they do to the storage: what the replaced function returns and whether a record can be made are
-- arguments, and ZERO_OR_NULL_PTR and IS_ERR are parameters. The functions that differ only in the
-- function that they call are one definition. kstrdup, kstrndup and strndup_user, which measure a
-- string, and the files of klc_output.c are not modelled. Remove, Count and Pairs have the proofs.
--
-- Mist is snippets/code_generation/mist_gen.simple/src/mist_engine/src: mist_string_utils.c, the
-- strings of the mist engine, grar.c, its growing arrays, and smap.c, its string maps. A
-- CMistString is its buffer's size, the offset of `str` in the buffer and the bytes from there to
-- the NUL; a write behind the end of the buffer is `none`, and so is a loop that has no round left.
-- How malloc and realloc end are arguments, in the order of the calls; size_t has 64 bits and a
-- pointer 8 bytes. strstr and strcmp are defined as the C library documents them, and qsort and
-- bsearch are parameters: the proofs use that qsort sorts by the keys and keeps the
-- elements, and that bsearch finds an element in a sorted array just if there is one. Find has the
-- searches, the checks of names and positions, Strings the strings, with Replace and Unescape for
-- the two long functions, and Array the arrays, whose loop in grar_reserve has 64 rounds, enough
-- for any capacity above 0. Map has the string maps, with smap_update, whose merge has a round for
-- each element of the update, in Map.Merge. The elements of an array are values, and the pointers
-- in it are not modelled. Names, Escaped, Bounds, Sum, Trim, Replace.Laws, Array.Reserve and the modules
-- below Map and Map.Merge have the proofs. Left out are mist_string_destroy, mist_get_substring and
-- mist_format_parse_error, and the functions of grar.c that only free elements.
--
-- Pool is snippets/memory_pool/memory_pool.c, the allocator whose objects end at a page boundary.
-- A block is its address and the size of its object, the allocator the list of its blocks, and
-- what the wrapped allocator returns is an argument. Addresses and sizes are 64-bit words, a page has
-- 4096 bytes and the head of a block 24. dump_pagetable, which prints, and payload.c are not modelled.
-- Layout and Blocks have the proofs.
--
-- Trace is snippets/ring_buffer/trace_buffer.c, which reads the messages of the processors'
-- sub-buffers in the order of their time stamps. The kernel's ring buffer and what else the code
-- calls of the kernel are a parameter, the record Kernel: a state World and a function for each
-- call. `others` is what other code, writers among them, does between two calls of a reader, and
-- `readers` what other readers do while a reader sleeps. The loop of trace_buffer_update_internal has
-- a round for each entry of the list and one more; the rounds of waiting
-- in trace_buffer_read_message are an argument. The record Laws of Order says what the proofs rely on of
-- the ring buffer. Wait queues, trace_buffer_destroy, trace_buffer_size and trace_file.c are not
-- modelled. Read has what a reader calls, Kept, Loop, Order, Reads, Runs and Prompt the proofs.
--
-- Prelude has the names that all of them share: tests on numbers, lists measured and indexed by
-- native numbers, and texts.
--
-- Not modelled: the other snippets and tools of the repository, and of the mist engine the parser of
-- templates (mist_base.c), their evaluation (mist_engine.c, mist_exec.c) and the files
-- (mist_file_utils.c).
pub mod Prelude
pub mod Calc
pub mod Base
pub mod DataMap
pub mod LeakCheck
pub mod Mist
pub mod Pool
pub mod Trace
pub mod Control
pub mod Replacer
