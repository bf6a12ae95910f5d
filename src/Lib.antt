-- ===== src/Lib.antt =====
-- Hyperion Runtime: its memory, its fibers, its code generation and its text front end, as functions
-- on explicit states, with the theorems that make each part correct.
--
-- The program starts in src/main.cpp. `MemoryManager` reserves 1 TB of address space and opens its
-- pages one by one in a signal handler; `ProcessingUnit` takes texts from a fiber through a
-- `LockFreeRingBuffer`, which its analysis thread empties, and counts their terms with `Tokenizer`;
-- `Scheduler` runs the fibers, and `SlabAllocator` carves blocks out of a region for the index.
-- `JITAssembler` and `JITEmitter` make machine code, and `JITOptimizer` patches it as it runs. One
-- fiber draws a frame with `SystemMonitor`, and a second fiber hands texts of the clipboard from
-- `InputIngest` to the unit, whose analysis appends a vector for each to the region.
--
--   Base           what the modules share: Boolean tests, lists, words bit by bit
--   Ring           include/core/LockFreeRingBuffer.hpp: each call alone (`Ring`), against a queue
--                  (`Ring.Refine`), and the two threads access by access (`Ring.Spsc`)
--   TaggedPtr      include/core/TaggedPtr.hpp
--   Slab           include/memory/SlabAllocator.hpp: the header word (`Slab.Header`), the free list
--                  (`Slab.FreeList`), `Init` and `Allocate` (`Slab.Alloc`: the outcome, a block taken
--                  whole or split, sizes that wrap), `Free` (`Slab.Release`)
--   MemoryManager  include/mm/MemoryManager.hpp, src/mm/MemoryManager.cpp
--   Scheduler      include/kernel/Scheduler.hpp, src/kernel/Scheduler.cpp and
--                  src/kernel/arch/x86_64/switch.S
--   Optimizer      include/jit/JITOptimizer.hpp, src/jit/JITOptimizer.cpp
--   Emitter        include/core/JITEmitter.hpp, include/core/JITAssembler.hpp
--   Tokenizer      include/core/Tokenizer.hpp, src/core/Tokenizer.cpp
--   Math           src/math/Math.cpp and `DotProductInt8` of core/math/SIMD.hpp
--   ProcessingUnit include/core/ProcessingUnit.hpp, src/core/ProcessingUnit.cpp, over `Ring` and
--                  `MemoryManager`
--   Document       `ProcessDocument` and `AnalysisWorker` of src/core/ProcessingUnit.cpp
--   HnswIndex      core/index/HNSWIndex.hpp, over `Slab`
--   Arm64          src/kernel/arch/arm64/switch.S and the ARM64 half of `Spawn`
--   Canvas         the drawing primitives of src/monitor/SystemMonitor.cpp, on a buffer of cells
--   Monitor        the state of include/monitor/SystemMonitor.hpp, `initialize`, the feeders, the
--                  random numbers and `present`, with the terminal that obeys what it sends
--   Panel          the layout of `render` and `draw_ghost_map`
--   Frame          the other panels, and the whole of `render`
--   InputIngest    src/core/InputIngest.cpp
--   Program        src/main.cpp: the start, and the turns of the fibers and the analysis thread
--   Examples       the theorems applied at concrete inputs
--
-- Names are the source's, in the library's spelling: `m_free_list_head_offset` is the field
-- `free_list_head`, `RemoveFromFreeList` is `remove_from_free_list`. Fields that do not bear on what
-- a part does (locks held through a whole operation, log output) are left out. A machine word is a
-- natural number with its wrap-around written out. Memory is a function from addresses to 64-bit
-- words, since every access of the modelled code lies within one aligned word; a store of a byte or
-- of the low half replaces this part of its word. A map is an association list. The first-fit search
-- runs on fuel: one more than the free list has blocks is enough.
--
-- The operating system (mmap, mprotect, sigaction) and the processor are not part of the program:
-- their answers are arguments, and what is relied on is a named hypothesis. Whether the processor has
-- AVX2 is a part of its description, `Processor`; without it the start traps. The threads of the ring
-- buffer are interleaved access by access in one order of all accesses; weaker orders that the
-- hardware may allow between a release and the matching acquire are not modelled.
--
-- The terminal is a grid of cells and a cursor; a frame is the list of cursor moves and cells that
-- `present` sends. It takes what a cell holds as one glyph, as it is for printable ASCII and the box
-- characters; a cell with a control character or a part of a character is outside of the model, and
-- `Printable` names the texts without one. Coordinates are integers. The source computes with 32-bit
-- ints: `FitsInt` names the windows in which no index of a cell overflows one, the number of cells is
-- wrapped in `buffer_size`, `draw_line` stops without a result where one of its ints overflows, and
-- the counter of frames, below 2 ^ 31 in the theorems, is not wrapped; texts are shorter than 2 ^ 31.
-- An index is compared with the buffer's size as a 64-bit word, as the source does. `draw_line` runs
-- on fuel, one more than the sum of the distances of its end points is enough.
-- Single-precision floats, their operations and their bytes are a parameter, `Arithmetic`: nothing is
-- relied on. In `Program` a turn of a fiber or of the analysis thread is one step; the accesses that
-- the thread makes in the middle of a turn of a fiber are not interleaved with it, other than those
-- to the ring buffer in `Ring.Spsc`.
--
-- Not modelled: the IDF table, which nothing calls, the float dot product and the dot product
-- instruction, raw system calls and the spinlock, the escape sequences of the terminal's mode, signal
-- handling, and `Run`, an endless loop of `Yield`.
pub mod Base
pub mod Ring
pub mod TaggedPtr
pub mod Slab
pub mod MemoryManager
pub mod Scheduler
pub mod Optimizer
pub mod Emitter
pub mod Tokenizer
pub mod ProcessingUnit
pub mod Math
pub mod HnswIndex
pub mod Arm64
pub mod Canvas
pub mod Monitor
pub mod Panel
pub mod Frame
pub mod Document
pub mod InputIngest
pub mod Program
pub mod Examples
