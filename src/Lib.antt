-- ===== src/Lib.antt =====
-- A model of the loli bootloader (https://github.com/ziyao233/loli-loader), and what is proved of
-- it.
--
-- The loader reads the extlinux-like file loli.cfg, shows its entries as a menu, and loads and
-- starts the kernel of the chosen one. The parser (src/extlinux.c) hands out pointers into the
-- text of the file; the menu (src/menu.c) copies values out of it with the string library
-- (src/string.c) into blocks from the allocator (src/memory.c), which stands on the boot services
-- of the firmware; a failed allocation ends in panic (src/misc.c). The menu is put out by the
-- console (src/interaction.c) on serial devices (src/serial.c) and on frame buffers
-- (src/graphics.c), with the font of src/font.c, and lines are typed in the console's editor;
-- src/loli.c picks the default entry. A kernel gets its initrd by a protocol (src/initrd.c) and
-- its device tree as a table (src/fdt.c). The build links the loader as an ELF file, which
-- tools/elf2efi.c turns into the EFI application: it loads the segments, reads the relocations,
-- moves the whole to the base address, applies the relocations, builds the table of base
-- relocations, and writes the headers, the sections and their padding.
--
-- Files:
--   Base, Base/*: the library's names, tests on numbers, lists and their slices, suffixes,
--     integers
--   Memory, Memory/*: mapped cells, blocks and C strings in memory
--   Run: how a run ends: with a result, in panic, or by a fault
--   Extlinux: src/extlinux.c; Suffix, Pointer: the pointers stay in the text;
--     Lines: the entries; Key, Phrase, Line: match_key; Value: which line;
--     Extent: its length; Scope: the end of an entry
--   CString: src/string.c, strings and blocks; Copy, Block, Wide: what they write;
--     Compare: strcmp, strncmp and memcmp with their theorems
--   CString/Number: itoa_n and atou; Digits: atou; Reverse, Print: itoa_n; Decimal: both;
--     Format: vsprintf
--   Alloc: src/memory.c; Laws: its promises; Model: services that keep the firmware's promises
--   Graphics: src/graphics.c, the drawing; Font: src/font.c; Pixel, Glyph, Scroll, Frame, Bits,
--     Draw: what is drawn; Write: graphics_write; Init: the setting up; Setup, Modes, Available: its theorems
--   Interaction: src/interaction.c and src/ctype.c; Convert: putting out; Block, Editing: the
--     line editor
--   File: src/file.c, the fixing of paths; Access: the opening, sizing and loading of files;
--     Sized: what they return and leave in use
--   Serial: src/serial.c; Initrd: src/initrd.c; Install: initrd_setup; Fdt: src/fdt.c
--   Menu: src/menu.c; Pair: menu_get_pair; Select: menu_get_nth_entry
--   Loli: src/loli.c; Named, Default: the default entry; Config: load_cfg;
--     Entry: load_and_validate_entry
--   Elf2Efi: tools/elf2efi.c, how a run ends and the blocks with a size; Align, Block: alignment
--     and bytes; Elf, Dynamic, Gcd, Executable: headers, segments, tags, alignment, relocations;
--     Parse: parse_elf
--   Elf2Efi/Relocate: relocate_exec and apply_relocs; Buffer, PeReloc: the base relocation table
--   Elf2Efi/Pe, Layout, Output, Sections, Write: the PE file's structures, places and writing;
--     Main: the options and the run of convert
--   Elf2Efi/*/*: the theorems on each of these
--   Tests in each component: runs on concrete input, and the theorems at concrete input
--
-- How the code is read. A pointer that only reads a text is the rest of the text up to its
-- terminator, and NULL is none; functions that write work on a memory of cells by address, of
-- which only some are mapped, and an access to any other cell is a fault. Wide strings stand in a
-- memory of their own with one cell for each 16-bit character. In the functions that open and
-- load files and the entry's parts the memory is the number of open files, of images and of
-- blocks in use, and the bytes of the block that is filled. A function that stores through a
-- pointer returns the new memory; the out-parameter of extlinux_get_value is the second part of
-- its result. An int is a 32-bit pattern that wraps, where the C standard leaves overflow
-- undefined, a size_t wraps where the code lets it, and char is signed or unsigned by a
-- parameter, since the targets differ. The converter works on blocks of bytes with a size, and a
-- run of it is done, exits with a status, or faults, where it leaves a block or divides by 0; its
-- host is little-endian with 64-bit addresses. What a block of the converter holds before it is
-- written is a parameter. The converter sorts by insertion, in the order of its comparison
-- functions, as qsort may.
--
-- Loops. A loop over a text in the parser has as many rounds of fuel as the text has bytes, plus
-- one, and the theorems on it show that this is enough. The string functions that walk memory up
-- to a terminator take their fuel as an argument, and their theorems ask that it exceeds the
-- length of the string; running out of it is a fault. itoa_n divides at least by two in each
-- round, so the value plus one bounds its rounds. memcpy, memset and strscpy count their rounds,
-- and so do the loops of src/graphics.c. The line editor has a round for each key, and still
-- waits where the keys run out. serial_write needs a device that takes a byte at every call, and
-- then as many rounds as the text has bytes, plus one. The second argument of gcd shrinks with
-- each call, so that argument plus one bounds the calls, and it is proved to be enough;
-- write_padding writes at least a byte in each round, so its size bounds the rounds.
--
-- Parameters. The memory services of the firmware are a record of functions. Its documented
-- promise, that a successful pool allocation hands out a block that was not in use and leaves all
-- else alone, is a hypothesis of the theorems that need it, and so is that of the page
-- allocation; Alloc/Model keeps both. The graphics outputs, the screen, the answers to a wait for
-- a key, the files, the loading of an image, what a serial device takes, the firmware's database
-- of interfaces, and the fix-up of a device tree are parameters too, each with its documented
-- behaviour as a hypothesis where a theorem needs it. For the converter, what getopt and strtoul
-- return, the bytes of the input file, and the room the output file has left are parameters.
-- Messages that are only logged or printed are left out, and so is the freeing of the converter's
-- blocks at its end. The converter's allocations are taken to succeed.
--
-- Not modelled: printf itself, the handing of a converted text to the devices
-- (src/interaction.c), what the line editor echoes, the device path of an image, the selection
-- loop and main (src/loli.c), the search for the file system (file_init in src/file.c); the
-- assembly and the declarations of the firmware's tables (src/*.S, include/efi*.h); and
-- tools/elf2efi.py, a copy of another project's tool.
pub mod Base
pub mod Extlinux
pub mod Memory
pub mod CString
pub mod Run
pub mod Alloc
pub mod Menu
pub mod Graphics
pub mod Interaction
pub mod Serial
pub mod Initrd
pub mod Fdt
pub mod File
pub mod Loli
pub mod Elf2Efi
