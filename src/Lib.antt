-- ===== src/Lib.antt =====
-- Native analysis of ELF binaries in NotDec-bin2llvm: a model of the state that the analyzers share
-- and of what its operations promise.
--
-- The program lifts a native ELF binary to LLVM IR. `lib/NativeAnalysis.cpp` loads the file, runs
-- analyzers in the order of their priorities, and each of them reads and extends one
-- `NativeProgramState` (`include/notdec-bin2llvm/NativeAnalysis.h`): function seeds and their
-- worklist, functions with basic blocks, instructions, cross references, unresolved flows,
-- relocations and notes. Analyzers interact only through the operations of this class. The lifter
-- reads the final state, has the machine code decoded to p-code, and `lib/PcodeToLLVM.cpp` lowers that
-- to LLVM IR.
--
-- Files and code:
--   Memory         `NativeMemoryRange`, `readBytes`, `readSigned32`, `readRawPointer`,
--                  `isExecutableAddress`, `executableRangeContains`, `looksLikeReadOnlyCString`;
--                  Memory/Loading is the constructor of `NativeProgramState`.
--   Numbers        `hexAddress` and `parseHex`.
--   Program        the records and enums of `NativeAnalysis.h`, with a module for each part of the
--                  state: Seeds (`addFunctionSeed`, `addFunctionRange`, ...), Blocks
--                  (`addBasicBlock`, `addBasicBlockSuccessors`, ...), Functions (`addFunction`,
--                  `functionContaining`, ...), Xrefs (`addXref`, `xrefsFrom`, `xrefsTo`),
--                  Instructions (`addInstruction`, `instructionsInRange`, tail targets), Flows
--                  (unresolved flows, relocated pointers, PLT entries). Program/Calls is the class as
--                  a step function on a data type of calls.
--   Analyzers      `NativeAnalysisManager`; Entries is `ElfLoadAnalyzer` and `ElfEntryAnalyzer`,
--                  Relocations is `RelocationPltAnalyzer`, Thunks is `X86PcThunkAnalyzer`, Jumps is
--                  `readX86PicI32Targets` and `recoverJumpTableInFunction` behind the match of the
--                  dispatch, Normalizer is of `FlowFactNormalizer` the missing blocks, the splits,
--                  the successors, and the indirect branches and flow xrefs.
--   EhFrame        `EhFrameAnalyzer`: Bytes, Encodings, Records and Frames are the reader of .eh_frame,
--                  Header is the reader of .eh_frame_hdr, Compare is `compareEhFrameHdr` and `run`.
--   Lowering       `lib/PcodeToLLVM.cpp`: `read`, `write`, `resize` and the cache of values; Operations,
--                  Flags and Dispatch are `lowerOp` with its handlers. Semantics is LLVM's language
--                  reference for the instructions used, Meaning is Ghidra's p-code reference as an
--                  interpreter; Typing has the typing rules of LLVM.
--   Registers      `lib/RegisterStorage.cpp`: the constructor, which groups overlapping registers into
--                  one backing global, `unitFor`, `bitOffset`, `read`, `write` and `sanitizeName`.
--   Pcode          `pcodeOpcodeName` of `lib/Pcode.cpp` and `convertOpcode` of `lib/SleighLift.cpp`.
--   OrderedMap     `std::map` as a list of entries in key order.
--   Common         Boolean tests, lists, strings as lists of bytes, machine words.
--
-- Conventions: `uint64_t` is ℕ with the wrap-around written out where the source adds; a
-- `std::vector` is a list, a `std::map` an association list in key order, a member function a
-- function from a state to a state and a result. A reference to a function or an instruction of a
-- map is a look-up and a store under the same key. A `std::set` that is only asked for membership is
-- a list.
--
-- Bounds: hex printing runs at most sixteen rounds, one for each digit of a 64-bit number, and the
-- round trip of Numbers shows that these are enough; decimal printing runs ten or twenty. The
-- loop of `addDynamicArrayEntries` runs size / pointer size rounds; that these are enough is part of
-- its theorem. `appendMissingBlocks` runs at most once for each instruction, which its theorem shows to
-- be enough. The loop over the records of .eh_frame runs fewer rounds than the section has bytes plus
-- two, which its theorem shows to be enough. All other loops are structural.
--
-- In the lowering `none` stands for poison and undefined behaviour of LLVM. The builder folds
-- constants, which changes no meaning, so that the model has the instructions that it is asked for.
-- Temporaries are told apart by space, offset and size, as `varnodeKey` does. Signed arithmetic that
-- is undefined in C++ on malformed DWARF data gives what two's complement gives.
--
-- Not modelled: the ELF library, the Sleigh decoder, the GTIRB reader and LLVM, which are third-party
-- code, of which the model has arguments where it needs what they report; the decoding of seeds and
-- the recognition of jump table dispatches, which work on the decoder's text; the folding of
-- functions; `normalizeBlockSuccessors`, which changes a vector while it walks over it; of the
-- lowering calls, floating point, terminators, the x87 window, joins of cached values across blocks
-- and the narrowing of register reads; the passes over LLVM IR; printing of the report.
pub mod Common
pub mod OrderedMap
pub mod Numbers
pub mod Memory
pub mod Program
pub mod Registers
pub mod Pcode
pub mod Analyzers
pub mod EhFrame
pub mod Lowering
