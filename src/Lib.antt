-- ===== src/Lib.antt =====
-- The C++ server of the repository (src/*.cpp and src/*.h), in those parts that keep state of their own or
-- code and decode bytes. A file of this library models one part; its children prove what it promises.
--
--   Position      src/position.h: coordinates, the order on them, distances and ranges.
--   Checksum      src/tools.cpp, adlerChecksum. Checksum.Adler has Adler-32 as it is defined.
--   Xtea          src/xtea.cpp: the block cipher. Xtea.Bytes is about loading and storing words,
--                 Xtea.Feistel about the rounds, Xtea.Blocks about whole messages.
--   Message       src/networkmessage.h and src/networkmessage.cpp. Message.Wire is the wire format,
--                 written independently; Writing, Bounds and Reading compare the code with it.
--   OutputMessage src/outputmessage.h: the headers in front of a message that is sent.
--   Protocol      src/protocol.cpp: encryption, padding and compression of what is sent, and back.
--                 Protocol.Sending and Protocol.Receiving are about the bytes.
--   Connection    src/connection.cpp: the header and the checksum of a packet that arrives, and the limit
--                 on packets (Flood). RoundTrip joins it with Protocol, Transfer has its lemmas.
--   Otb           src/fileloader.cpp: the tree of nodes in a map or item file. Otb.Parsing has the format
--                 by itself, Otb.Contents the properties that a parsed tree leads to.
--   PropStream    src/fileloader.h: the streams of fields in the properties of a node.
--   Party         src/party.cpp, the party part of src/player.cpp, and the commands of src/game.cpp.
--                 Experience, Members and Commands are definitions; Sharing proves.
--                 Party.Coherence is about players, leaders, members and invitees that point at each
--                 other: a child for each operation, Histories for commands, Refusal for the callback.
--   Growth        src/player.cpp: experience and level, magic level and skills. Growth.Tries has the
--                 definitions of the last two, with the caches of src/vocation.cpp, which Vocations is
--                 about. Table is about the experience that a level needs, Levels
--                 about what levels add, Experience and Changes about gains and losses, Spending and
--                 Top about tries and mana, Death about the mana that a death takes.
--   Guild         src/guild.cpp; Guild.Level is about its experience.
--   Container     src/container.cpp: containers within containers, as a tree. Container.Weights and
--                 Container.Actions are about the weight of what they hold, Container.Queries and
--                 Container.Room about what they are asked before a move, and Container.Walk has the
--                 iterator and the loops that use it.
--   Ladder        the loops that players and guilds share, which raise or lower a level; Steps has
--                 their lemmas.
--   WaitList      src/waitlist.cpp: who waits for a full server, and in which order.
--   Ban           src/ban.cpp, Ban::acceptConnection: too many connections of one address.
--   WildcardTree  src/wildcardtree.cpp: the names of the players online, to be searched by prefix.
--   Base          what they share: lists, bytes, buffers, bits and tests on the native numbers.
--
-- How they interact: a Protocol reads and writes a Message, whose body Xtea codes, and OutputMessage puts
-- its headers with the Checksum in front, which a Connection checks at the other end; a connection first
-- has to pass Ban, and a login WaitList; a player online is in the WildcardTree and may be in a Party,
-- which measures distances by Position. Otb and PropStream are how the map and the items are loaded at
-- the start. A record stands for each object with its fields, and an operation is a function from the
-- state to the state and the result. An object that others point at has an identifier in a store (Party),
-- and the containers within a container are a tree, in which no item stands twice (Container). A
-- definition has the name of the function it models, in lower case.
--
-- Numbers are natural numbers; where the code computes in 8, 16, 32 or 64 bits and can wrap, the remainder is
-- written out. A byte or a `char` is its code. Lists stand for vectors, and for ordered maps a list in
-- the order of the keys. The time is an argument, and so is what configuration and database answer.
-- A logout (Party.Commands) leaves the party, whether or not that is refused, and takes the player off
-- those that are online.
--
-- Bounds and fuel: the cipher's walk over a message (Xtea.run) counts down from a block size and stops at a block
-- size below one lane; its block sizes are powers of two up to 2^29, and a message is below 2^32 bytes.
-- Checksum.chunks counts down from the length of the data, and every chunk has a byte at least. Ladder.climb
-- counts down from 2^19 levels for a player, whose experience below what that level needs is below
-- 2^63, and from 2^16 - 1 for a guild; Ladder.descend from the level itself; Tries.spend from the amount,
-- of which every level costs at least one; the walks over a container from any number above that of the
-- items in it, one of which every step takes, and they answer nothing when that runs out. All other loops
-- are structural.
--
-- Assumptions: the key of the cipher has four words; std::ceil on a float is exact for levels below 2^22;
-- the clock does not wrap or go back; Lua callbacks answer yes or no, or with an amount, and change nothing
-- that is modelled here; zlib makes bytes of bytes, or fails.
--
-- Not modelled: sockets, threads, timers, the database, the Lua interpreter and its bindings, the map,
-- the creatures and fights, the attributes of items, and where a container sends what is moved to it;
-- NetworkMessage::addDouble; the SSE2 variants of checksum and cipher, whose scalar text is modelled; the
-- experience and the skills that a player loses at a death; printing.
pub mod Base
pub mod Position
pub mod Checksum
pub mod Message
pub mod OutputMessage
pub mod Protocol
pub mod Connection
pub mod Xtea
pub mod Otb
pub mod PropStream
pub mod Party
pub mod WaitList
pub mod Ban
pub mod WildcardTree
pub mod Ladder
pub mod Growth
pub mod Guild
pub mod Container
