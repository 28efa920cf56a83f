-- ===== src/Lib.antt =====
-- NetSlug Plus plays a Wii game on two consoles at once. Each game runs with the module
-- modules/netslug_main in it, which replaces the game's access to the Wii Remotes, the disc and
-- the video retrace: the host collects the input of both players for each frame and sends it, with
-- a random seed and the reads of the disc that may end, to the client, and a frame goes on only
-- when all of it is there. The channel (src/) reads config.ini and loads the modules into the
-- game.
--
-- Netplay (modules/netslug_main/main.c): Types has the packets, `Machine` (the variables that the
-- threads and the retrace handler share) and `Outcome` (a step ends, waits, or writes outside an
-- array). Ioctl is the table of reads (IoctlBufferAllocator, ourCallback, and the loops over it),
-- Packet is ProcessPacket, Threads is one round of sendThread_main, recvThread_main and
-- controllerThread_main, Frame is My__VIRetraceHandler, Wpad the replaced WPAD and SMNDance
-- functions, Reads is MyIOS_IoctlAsync, Random is ActualRNG and MyRNG_Rand. World joins two
-- consoles by two connections; its steps are the rounds of the threads, the retraces and the ends
-- of reads, in any order, and the modules below it follow the packets through these steps.
--
-- A thread's wait is the outcome `wait`, which leaves the state; the step is tried again later. A
-- thread runs from one wait to the next without another one between: the source disables
-- interrupts there, or touches only its own variables. ProcessPacket has two such parts, `deliver`
-- and `route`. Frame counts are numbers without bound: the source's overflow is undefined in C. A
-- callback of the game is an event in the handler's result. The connection keeps packets whole and
-- in order, which is what reliable_send and reliable_recv ask of the sockets; a packet is taken at
-- the moment when its send starts. What is read from a Wii Remote is `pads i n`, for any function
-- `pads` of the player and the frame. The canaries of the stacks, the video registers and the
-- messages are not modelled.
--
-- Settings (src/settings/settings.c): Types has the data, Commit is settings_commit, Parser is
-- settings_parseUpdate with settings_parseCategory and settings_parseName, and settings_load, Save
-- is settings_save. A variable is a place of `Store`, by its number; an `int` is its bit pattern
-- and its arithmetic wraps at 2 ^ 32. The array that collects a text is the list of the bytes in
-- it, and its length is what `bufferLocation` is. The other modules hold what is proved.
--
-- The loops of the model are recursions on lists or on a count that the source fixes: three digits
-- of an octet, four octets, four Wii Remotes. `decimal n` prints a number below 10 ^ n: 10 digits
-- are enough for an `int` and 3 for an octet.
--
-- Search (src/search/search.c, and src/search/symbol.c): Text is the reading of a symbol's bytes in
-- Symbol_ParseFile and Parse the rest of it; the elements of the file, which the XML reader gives,
-- are data, sscanf is a parameter, and so is what memory held before. Build is Symbol_GetSymbolSize and
-- Search_BuildFSM, Main is Search_Main with the matches that it makes, Files the search for the files.
-- Symbols has the tables, by the order of their names, and Search_SymbolAdd, Search_SymbolReplace,
-- Search_SymbolLookup and Search_SymbolMatch; `qsort` and `bsearch` of the C library are
-- parameters of which nothing is supposed. NULL is the address 0, and memory for the tables is
-- enough. Fsm (src/search/fsm.c) has FSM_Run and FSM_Merge: a node is known by its index, and the
-- place `left * right->node_count + right` of the table of the merge is the pair of the two
-- indices. The loops over epsilon nodes and the outer loop of FSM_Merge are on fuel; for the
-- latter a round for each pair of nodes and one more are enough, since each round but the last
-- processes a pair; a cycle of epsilon nodes would keep the former from ending in the source too.
-- Search_Main gives FSM_Run as much fuel as there are symbols, since a place of the memory has at most
-- one epsilon node for each of them.
-- The modules below Fsm follow the table through the loops: Table and Process for one pair, Total
-- and Complete for the counts, Loops and Ends for the rounds, Follow and Run for what the machines find.
--
-- Fsm/Create is FSM_Create, for a symbol given by its bytes and their masks. Its two queues are
-- lists, and the four bits that a round is for, with where it stands, are a `Half`. A queue has 16
-- places; the source moves it for the 17th entry and writes that entry to the old array, so that
-- `create` has no result then. Labels names what a node stands for by the ends of the text that may
-- still become the symbol; Enter, Nibbles, Rounds, Halves, First and Machine carry the labels
-- through the loops, and Hits, Match and Found compare the machine with the text.
--
-- Module (src/modules/module.c): Relocation is Module_ElfLinkOne on the word that stands at the
-- place; Capacity is the loop of Module_ListAllocate, on fuel: the capacity doubles in each round,
-- so that as many rounds as the array is to have elements, and one more, are enough; Replace is
-- Module_ListLinkFinalReplaceFunction on a memory of words. PowerPc describes the processor
-- independently of the loader: where it goes after an instruction.
--
-- Elf has what libelf gives of a file, as data: its sections with their names, addresses, contents,
-- symbols and relocations; an alignment is a power of 2, given by its exponent. Link is the loop over
-- a section's relocations and the symbol that each names, Place the places of a module's sections
-- and what is written there, Final is Module_ListLinkFinal. Size is what Module_ListLoadMetadata
-- counts, Metadata its reading of the section .bslug.meta, Files the search for the files that are
-- for the game, Load is Module_ListLoadFile, Main the two passes in Module_Main's order. A step of
-- the loader is done, has `failed` with one of its messages or at the assertion of Module_Main, or
-- reads `beyond` an array. Memory is
-- enough. The modules Cursors, Keeps, Order and Asserts follow the list of waiting relocations, Fit
-- and Layout the free space, Declared, Extension and Listed the files and what they declare.
--
-- The apploader and the start of the channel (src/apploader, src/main.c) are not modelled; libelf, libfat and libsd are other projects' libraries; the networking, the
-- drawing and the drive's interface are calls of hardware.
pub mod Base
pub mod Netplay
pub mod Settings
pub mod Search
pub mod Module
