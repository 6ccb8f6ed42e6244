-- ===== src/Lib.antt =====
-- A model of mclua, a compiler from Lua to bytecode in C, and proofs about it.
--
-- The program lexes a script into tokens, interning its names, parses the tokens into a syntax tree
-- in an arena, lets visitors look at tokens and tree, compiles the tree to functions with constants
-- and 32-bit instruction words, and lists or dumps them. All objects live in one arena, and names
-- are compared by the address that the table of names gives them.
--
-- Files, by the part of the program they model (paths from the repository's root):
--   Prelude, Prelude/*    helpers: Boolean tests, lists, integers over the native numbers, bits
--   Heap                  src/heap/mcheap.h, mcheap.c: `init`, `static_reserve`,
--                         `managed_reserve`, `managed_resize`. The buffer is a function from
--                         offsets to bytes, a header is known by its number, NULL is `none`.
--   Heap/Blocks           blocks that lie apart
--   Heap/Valid, Heap/Reserve, Heap/Resize
--                         the invariant, and the operations on it
--   Probing, Probing/*    the probing loop that src/strtbl/mcstrtbl.c and src/lib/mclfunc.c share
--   StringTable           src/strtbl/mcstrtbl.h, mcstrtbl.c: `init`, `clear`, `hash`, `lookup`,
--                         `intern`. An address is an offset into the table's byte pool.
--   StringTable/Pool, StringTable/Valid, StringTable/Intern, StringTable/Ends,
--   StringTable/Contract  what a growing pool keeps, the invariant, a stored name, how a run of
--                         `intern` may end, the contract
--   Ops, Ops/*            src/lib/mclops.h: opcodes, the mode table, the macros that pack and
--                         unpack words; Ops/Listing is `mccomp_log_instr` of
--                         src/compile/mccompile.c
--   LStr, LStr/Order, LStr/Room
--                         src/lib/mclstr.h, mclstr.c: string objects, their comparison, their room
--   LFunc                 src/lib/mclfunc.h, mclfunc.c: functions with their code, constants, inner
--                         functions and upvalues, the index of the constants
--   LFunc/Arrays          the room that arrays and code have
--   LFunc/Index, LFunc/Rehash, LFunc/Valid
--                         what an index is, insertion and growth, the invariant
--   LFunc/Search, LFunc/Adding, LFunc/Contract
--                         the search for a constant, a constant that is added, the contract
--   Dump                  src/compile/mcluac.c from `luac_flush` to `luac_tofile`, and
--                         `mcfs_writebytes` of src/mcf/mcfs.c
--   Dump/Sizes            the encoding of sizes
--   Dump/Image, Dump/Writes, Dump/Written
--                         the bytes of a function, what a step of the dump writes, the dump
--   Dump/Loader, Dump/RoundTrip, Dump/Contract
--                         a reader of the format, written for the proofs, and what it reads of a
--                         dump
--   Config                src/vm/mcconfig.h, mcconfig.c: the limits and their test
--   Token                 src/lib/mctoken.h
--   Lex                   src/lex/mclex.c: the characters, words, comments and space. The input is
--                         the list of the characters that are still to come.
--   Lex/Input             `mclex_peek`, `mclex_advance` and `mclex_update_file_input`, with
--                         `mcfs_readchunk` of src/mcf/mcfs.c: the list is what they give
--   Lex/Reserved, Lex/Words, Lex/Strings, Lex/Terminals
--                         the reserved words, and the tokens of each kind; Lex/Words has the state
--   Lex/Script            `mclex_set_token`, the loop of `mclex_lex`, and what begins and calls it
--   Lex/Lengths, Lex/Suffixes, Lex/Scans, Lex/Steps, Lex/Rounds, Lex/Ends
--                         what each loop and each token leaves of the input, and how a run ends
--   Lex/Naming, Lex/Numbers
--                         words, reserved words and names, and decimal numbers
--   Ast                   src/lib/mclast.h, mclast.c: nodes and the room that they take
--   Ast/Room, Ast/Growth  trees whose nodes have their room in the arena
--   Parse, Parse/*        src/parse/mcparse.h, mcparse.c: State has the tokens, the position, the
--                         error flag and the arena; Names, Expressions, Operators, Control,
--                         Statements and Program the functions of the grammar
--   Parse/Safe, Parse/Safe/*
--                         a logic of what each step of the parser keeps, and its proof for each
--                         function, file by file
--   Parse/Exhausted       the block loop when the arena is full
--   Compile               src/compile/mccompile.h, mccompile.c: the state of the compiler,
--                         instructions, registers, locals, upvalues, labels and gotos. A compiler
--                         state is a frame for each function, the innermost first.
--   Compile/Scopes, Compile/Upvalues
--                         the rule of scopes, and the search for an upvalue against it
--   Compile/Jumps, Compile/Gotos
--                         labels and the gotos that wait for them, and gotos
--   Brackets, Brackets/Pairs
--                         src/visitors/tokens/mctbracketchecker.c, and `tkv_run` of
--                         src/visitors/mcxt.c: the visitor that pairs brackets
--   Unreach               src/visitors/ast/mcunreach.c: the visitor that cuts blocks short
--   Tests/*               runs on concrete inputs
--
-- How C is read. A function that returns NULL or -1 gives `none`, or in the parser `null` with the
-- state that it leaves. Machine words wrap as they do in C, where the source does arithmetic on
-- them. Pointers have 8 bytes. A probing loop runs on as many steps as the table has slots: by then
-- it has seen every slot, and a loop that has not ended `spins`. The parser runs on fuel: a call of
-- `parse_subexp` or `parse_block` takes one unit, and its loops may go as many rounds as units are
-- left; `out_of_fuel` stands for a run that did not end within it. Loops that take a token in each
-- round have as many rounds as tokens are left.
-- The loop of the lexer goes as many rounds as there are characters and places for tokens, and one
-- more, since a round takes a character, a place, or ends; it `spins` where interning does.
-- The equality of floating-point numbers, strtod, fread, and fwrite with the file that it writes are
-- parameters. `none` stands for a free slot of the index of
-- constants, which has -1. The comparison of the characters of strings is C's memcmp. The loops of
-- `luac_dump_size` and `mclstr_reverse` run on as many rounds as their buffer has bytes.
--
-- Where C promises nothing, the model says so: a string that is appended to itself is
-- `append_overlaps`, and a scan of a string that writes past the end of wordscratch sets `overrun`,
-- with which the lexer ends as `overran`. A wordscratch of less than two bytes is not modelled
-- further: `bfrsize - 1` wraps there, as in C, and the theorem on the end of the lexer asks for two.
--
-- Not modelled: messages and logs, releasing memory, the compilation of expressions and statements, the
-- walk over the tree, opening files, options and libraries.
pub mod Prelude
pub mod Heap
pub mod Ops
pub mod Probing
pub mod StringTable
pub mod Token
pub mod Ast
pub mod Parse
pub mod LStr
pub mod Compile
pub mod Config
pub mod Lex
pub mod LFunc
pub mod Dump
pub mod Brackets
pub mod Unreach
mod Tests
