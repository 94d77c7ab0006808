-- ===== src/Lib.antt =====
-- Rosa runs x86-64 Darwin programs on arm64 by dynamic binary translation. This library models the
-- part of it that keeps the guest's view of the machine consistent.
--
-- The guest's memory (src/guest) is a table of mappings, ordered by base address. Loaders and the Mach
-- virtual memory calls create mappings, change their permissions and remove them; every translated
-- access finds its mapping through a small cache; and the translation cache (src/dbt) trusts blocks
-- for as long as the version number of the executable bytes stays the same. The Mach traps
-- (src/darwin) keep the names of the process's ports in a name space of its own. Instructions are
-- lowered to blocks of an intermediate representation (src/ir), which are optimised. Translated code is
-- assembled and placed in executable memory (src/arm64), and calls helpers that keep the guest's
-- status flags (src/dbt).
--
-- Prelude: the libraries' names, Boolean tests, lists over native numbers, words, and std::map as an
--   association list.
-- Guest/Mapping, Guest/Space: src/guest/AddressSpace.h and AddressSpace.cpp. `Mapping` and
--   `AddressSpace` are the classes' fields; std::shared_ptr members are optional handles. `map_segment`,
--   `map_anonymous`, `add_mapping`, `validate_new_mapping` and `insert_mapping` are the functions of the
--   same names; what the code throws is a value of `Error`. The result of mmap is an argument.
-- Guest/Pages, Guest/Containing, Guest/Protect, Guest/Deallocate: `protect` and `deallocate`, loop by
--   loop: the rounding to pages, the walk, the pieces of each mapping, the exchange of the tables.
-- Guest/Lookup: `find` and its sixteen-entry cache; a search returns the mapping with its index.
-- Guest/Access: `validateAccess`, which validates a byte in each round and has as many rounds as bytes
--   and one more.
-- Guest/Batch: `mapSegments` of src/guest/MappingBatch.cpp.
-- Guest/View: the abstract specification, a partial function from addresses to cells: a cell is the
--   permissions of an address and its byte or its place in a host memory.
-- Guest/Segments: what the cells of a segment are, by its request alone.
-- Guest/Invariant: what a valid address space is. Guest/Insert, Slice, Replace, Create and the Correct
--   modules prove the operations; Guest/Steps makes them a state machine.
-- Darwin/PortSpace: src/darwin/PortSpace.h and PortSpace.cpp. A name is a number, a GuestPort a record,
--   std::map an association list; each operation returns its result and the new name space.
--   Darwin/PortSpace/Invariant says what a well-formed name space is; Steps is its state machine.
-- Darwin/PortTraps: the traps 18, 19 and 26 to 29 of src/darwin/Mach.cpp, one function each, registers
--   as arguments and rax with the new name space as the result. PortTraps/Same follows the host's port
--   through them.
-- Flags: the helpers of src/dbt/FlagHelpers.cpp, which set the guest's status flags after an operation
--   that the translation has done in the host; each is a function from rflags to rflags. Flags/Select
--   is the backend's choice among them (src/arm64/Backend.cpp). Flags/Reports and Flags/Meaning say
--   what flags a sum and a difference have, in arithmetic; Flags/Signs, Sums, Carries and Counts
--   relate the two, and Logic and BitTests hold the flags of those operations.
-- Arm64/Assembler: src/arm64/Assembler.h and Assembler.cpp. `Assembler` is the class's fields without
--   the listing; a call gives a new assembler, or none if it throws. Moves, Arithmetic, Shifts, Logic,
--   Memory, Branches and Frames hold the instructions, under the code's names, but for bitAnd, bitOr
--   and bitXor, which are `bitwise_and`, `bitwise_or` and `bitwise_xor`; Finish is `finish`.
--   Finish/Resolve has the processor's reading of a branch, Moves/Wide that of a wide move, and
--   Programs the assembler as a state machine.
-- Arm64/CodeBuffer: the arena of src/arm64/CodeBuffer.h and CodeBuffer.cpp that holds the translated
--   code; a call returns the arena it leaves and what it gives unless it throws. The result of mmap is
--   an argument, which Valid.IsFresh says what is documented of.
-- Ir: the intermediate representation of src/ir/IR.h. An optional value or register is an Option of
--   its number. Ir/Builder holds the functions of Builder (src/ir/IR.cpp) on the block that it builds,
--   by kind of operation; one that returns a value gives it with the new block, and where the code
--   overloads a name for a ValueId the model's name ends in by_value or to_value. The Steps modules
--   and Ir/Builder/Reached make the builder a state machine.
-- Ir/Optimization: optimizeBlock of src/ir/Optimization.cpp. The local arrays and vectors are functions
--   of the index, and one step of the loop is `forward`. The search for a value's replacement follows
--   as many replacements as the block has values and one more; each value's replacement stands for
--   itself, so that one is enough.
-- Ir/Meaning: a specification of what a block does to the guest. Constants, the guest's registers,
--   additions, subtractions and bit operations are written out as the code that src/arm64/Backend.cpp
--   emits for them computes; the others are the record `Machine`, with what the optimisation relies on:
--   a condition is 0 or 1, a 32-bit load fits 32 bits, and which operations leave which registers.
-- Guest/Examples, Darwin/Examples, Flags/Examples, Arm64/Examples, Ir/Examples: concrete spaces and
--   programs, runs of the code, and the theorems at them.
--
-- Numbers are natural numbers; where a 32- or 64-bit value may wrap, the model says so. The walk of
-- `protect` has as many rounds as there are mappings and one more, and the search for a free port name
-- as many as there are ports and one more: each round of the walk passes a mapping, and each round of
-- the search an occupied name. The population count of a byte looks at the 32 bits of its type.
--
-- Not modelled of these files: file-backed and sparse mappings (mapFileSegment, mapSparseReadOnly,
-- populateSparseReadOnly, the lazy file transforms), since they read host files; the accesses to the
-- bytes of a mapping once it is found; mappingInfos and the text of summary. Of Mach.cpp the
-- other traps, some of which write port fields through lookup, and the messages are not modelled. Of
-- src/arm64 the backend, but for its choice of the flag helpers, and the copying of code into the arena
-- are not modelled. Of src/ir only verify, which the lowering and debug builds
-- call on finished blocks, is not modelled. Of the rest of the program nothing is modelled: the decoder and the
-- lowering, the translation cache, the Mach-O loader and the system calls.
pub mod Prelude
pub mod Guest
pub mod Darwin
pub mod Flags
pub mod Arm64
pub mod Ir
