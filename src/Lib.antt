-- ===== src/Lib.antt =====
-- Ferric-K: a bare-metal kernel in Rust. The pure logic lives in crates/ferric-safe-core and
-- crates/ferric-api; crates/ferric-unsafe-core holds the drivers, the allocator and the entry code.
--
-- A key travels from a PS/2 byte (Input/Scancodes) or a serial byte (Input/Terminal) as a key event
-- to the line editor (Input/LineEditor), whose finished line the shell parses (Input/Shell). Text
-- is written into a grid of cells (Text/Grid). What lives on the heap comes from the allocator
-- (Memory/Heap). Pixels go to the loader's framebuffer (Video/Framebuffer), glyphs come from a parsed
-- font (Video/Font), and what is shared stands behind the locks of Sync.
--
--   Base                 shared tests, lists and lemmas
--   Api/Keys, Api/Memory crates/ferric-api/src/lib.rs: keys, events, colors, memory regions
--   Input/Ascii          the ASCII tests of `u8` and `char`
--   Input/Scancodes      crates/ferric-safe-core/src/scancodes.rs: `push` is the decoder's method,
--                        `map`, `map_key`, `printed` and `decode` are parts of it; Tables has the
--                        layout tables; Codes, Stream, Modifiers, Pause and Printing are proofs
--   Input/Ps2            crates/ferric-unsafe-core/src/ps2.rs: the polling driver over the decoder; Poll
--                        has the proofs
--   Input/Keyboard       crates/ferric-safe-core/src/keyboard.rs; Layout compares it to the decoder
--   Input/Terminal       crates/ferric-safe-core/src/terminal.rs; Typing feeds the line editor
--   Input/LineEditor     crates/ferric-safe-core/src/line_editor.rs; Spec is the abstract line, and
--                        Refine the refinement
--   Input/Shell          crates/ferric-safe-core/src/shell.rs; Trim, Parse and Case are proofs
--   Text/Grid            crates/ferric-safe-core/src/grid.rs: `TextGrid` and its methods; Valid,
--                        Put, Tab and Scroll are proofs
--   Text/Console         crates/ferric-unsafe-core/src/console.rs: `Console`; Draw has the methods that
--                        draw, with the framebuffer and the serial line as an argument; `edit_cells` and
--                        `clear_cells` are `set_edit_line` and `clear_screen` before they draw; Valid,
--                        Edit, Geometry, Line, Shown, Blit, Render, Repaint and Redraw
--                        are proofs
--   Kernel               crates/ferric-unsafe-core/src/console.rs: `shell_loop` by events, `run_command`
--                        and what they print; Boot has `kmain` and `render_panic`; Typing puts the line
--                        editor, the console and the framebuffer together
--   Memory/Heap          crates/ferric-unsafe-core/src/heap.rs over a memory of words: `init`, `alloc`
--                        and `dealloc` are the methods, the other definitions their parts; Words,
--                        Links, Rewire, Unlink and Split follow the pointer writes, State has the
--                        valid states, Fit, Take, Carve and Alloc lead to `alloc`, Neighbors, Merge
--                        and Dealloc to `dealloc`; Init is about `init`, Null about exhaustion, Trip
--                        about a pair of calls, Client and Trace about any sequence of calls
--   Memory/Copy          crates/ferric-unsafe-core/src/mem.rs; Moved and Compared are proofs
--   Cpu/Segments         crates/ferric-unsafe-core/src/gdt.rs; Fields reads descriptors as the
--                        processor does, Stack is about what `init` loads
--   Cpu/Gates            crates/ferric-unsafe-core/src/idt.rs; Vectors is about the table
--   Boot/Limine          crates/ferric-unsafe-core/src/limine.rs; Answers has the proofs
--   Boot/Arena           `install_from_boot_info` of crates/ferric-unsafe-core/src/heap.rs; Installed
--                        joins the loader's memory map and the allocator
--   Clock/Window         crates/ferric-safe-core/src/clock_app.rs and crates/ferric-unsafe-core/src/app.rs:
--                        `run_clock` by turns, with the pixels of `ClockWindow::draw` as an argument; OnScreen
--                        and Run are proofs
--   Clock/Surface        `DrawTarget` of crates/ferric-unsafe-core/src/app.rs; Drawn has the proof
--   Time                 crates/ferric-unsafe-core/src/time.rs and clock.rs: the conversions; Seconds
--                        has the proofs
--   Time/Sources         crates/ferric-unsafe-core/src/time.rs and pit.rs: counters and sources; Forward
--                        is about their order
--   Log                  crates/ferric-safe-core/src/log.rs and crates/ferric-unsafe-core/src/log.rs
--   Text/LineEnds        crates/ferric-unsafe-core/src/text.rs
--   Monitor              crates/ferric-safe-core/src/monitor.rs: `MonitorModel`; Load and Summary are
--                        proofs
--   Video/Framebuffer    crates/ferric-unsafe-core/src/framebuffer.rs: `FrameBuffer` and its methods; Capture
--                        has the captured layouts, Bytes and Pixels the stores and reads, Encode the
--                        channels, Fill the rectangles, Bars the color bars of the self-test
--   Video/Font           crates/ferric-safe-core/src/font.rs: `Font`, its parsers and lookups; Parse, Glyphs,
--                        Utf8, Table and Walk are proofs
--   Sync                 crates/ferric-unsafe-core/src/sync.rs: one step of one thread is a `Move`;
--                        Spinlock/Exclusion and OnceLock/Once are proofs
--   Tests                runs at concrete inputs, and the theorems at examples
--
-- A byte, a `char` and a machine integer are plain numbers; a range that a theorem needs is one of
-- its hypotheses. A method on `&mut self` returns the new value. A panic is `none`: the kernel is
-- built with the debug profile, where `u32` arithmetic that overflows panics. A `usize` has 64 bits.
-- Loops over slices are recursion on lists. The two walks of the allocator's free list take fuel;
-- one more round than the list has blocks is enough. In the allocator a panic is `panic`, and a walk
-- without enough fuel is `out_of_fuel`. In the framebuffer and the font a result is an `Outcome`: a
-- value, the error of the source, or a panic. The keyboard driver's loops take fuel; one more round than
-- bytes are waiting is enough. The walk of the second kind of Unicode table takes fuel;
-- the table's length is enough, and its count of glyphs may overflow and panic. A volatile store is a store of its bytes, in little-endian order. The
-- threads of Sync take turns by atomic accesses, in any order.
--
-- Not modelled: the texts of the monitor, the shapes of the clock window, the timers and the serial
-- drivers, the order of the steps at boot, interrupt entry, the graphical front end (it drives the Slint
-- library) and the build tool (it runs host programs). Traits are interfaces without code.
pub mod Base
pub mod Api
pub mod Memory
pub mod Time
pub mod Monitor
pub mod Input
pub mod Text
pub mod Video
pub mod Sync
pub mod Kernel
pub mod Cpu
pub mod Boot
pub mod Clock
pub mod Log
mod Tests
