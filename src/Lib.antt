-- ===== src/Lib.antt =====
-- Models of hexahedra, a client and server for block worlds, written in C++. Paths are those of
-- the repository.
--
-- What the program consists of. A server keeps a world of chunks, makes them with terrain
-- generators, stores them in a database and sends them to clients; clients show the world and send
-- what their player does. The two speak a packet protocol: a packet is a byte with the type of a
-- message and then its fields, written by the archives of hexa/serialize.hpp. Server and client each
-- dispatch on the type and read the rest into a message object.
--
-- Which file models which part.
--
--   Base, Base/Tests, Base/Lists   Names of the library, Boolean tests, lemmas on lists.
--   Base/Table                     Maps as functions; `put` and `erase_key` change them at a key.
--
--   Wire                           hexa/serialize.hpp. A `Serial A` is how an object of a type is
--                                  written by `serializer`, read by `deserializer`, and what a new
--                                  object holds. Wire/Defs has the archives and how `ar(a)(b)` is
--                                  composed, Wire/Endian the byte order of the host (htons, htonl,
--                                  ntohll), Wire/Scalars the integers, Wire/Sequences strings, vectors
--                                  and arrays, Wire/Points the vectors, boxes and positions.
--   Wire/Laws                      `Lawful`: what is written is read back, the rest of the buffer is
--                                  left alone, and of a buffer that ends too early nothing can be
--                                  read; for every combinator. Wire/Laws/Limits has what the code
--                                  does at its limits.
--
--   Protocol                       hexa/protocol.hpp, with the classes of hexa/compression.hpp,
--                                  hexa/block_types.hpp and hexa/hotbar_slot.hpp that messages hold.
--                                  Session, Resources, Entities, Terrain and Interface are the
--                                  messages of the server, Login, Requests and Actions those of a
--                                  client; each class is a record, and its function `serialize` a
--                                  `Serial` with its fields in archive order. Server/Sent has the
--                                  two fields that no packet carries.
--   Protocol/Packet                serialize_packet, and `make` of hexa/server/network.cpp.
--   Protocol/Server, Client        All messages of one side, their type numbers and their ways of
--                                  sending, and the dispatch at the other side: `receive` is
--                                  main_game::receive of hexa/client/main_game.cpp, `on_receive` is
--                                  network::on_receive of hexa/server/network.cpp.
--
--   World/Heights                  The coarse height rules of hexa/basic_types.hpp.
--   World/State                    hexa/server/world.cpp: `World` is the caches `coarse_heights_` and
--                                  `chunks_` of `world`, the part of the database that holds heights
--                                  and chunks, and the calls of `on_update_coarse_height`. The
--                                  functions keep their names: get_chunk, get_chunk_writable,
--                                  get_coarse_height, generate_coarse_height, set_coarse_height,
--                                  adjust_coarse_height; `generate_steps` is the loop of
--                                  generate_chunk.
--   World/Invariant                `IsSound`: every chunk lies below the height of its column.
--   World/Reading                  What later readers see, also after a restart.
--   World/Areas                    Area data of hexa/server/world.cpp, and try_get_area_data of
--                                  hexa/server/world_terraingen_access.cpp.
--
--   LruCache                       hexa/lru_cache.hpp. `LruCache` is the list, the map from keys to
--                                  iterators and the size; an iterator is the address of its element,
--                                  so that one whose element is gone is told apart. `lookup` is
--                                  operator[], and `prune` is both forms of prune, with the pairs for
--                                  which the callback is called. An operation that would use such an
--                                  iterator, or take from an empty list, gives `none`.
--   LruCache/Assign                A write to what operator[] returns.
--   LruCache/Nodes, Invariant      Lists of elements; `IsValid`: list, map and size are in step.
--   LruCache/Refinement, Pruning,  What the operations do to the pairs, the newest first, and what is
--   LruCache/Reading               read.
--
--   ChunkCache                     hexa/client/chunk_cache.cpp: surfaces, light maps and heights in
--                                  memory, each on an `LruCache`, before a database. `serve` is one
--                                  call of a method. ChunkCache/Memory has what the three kinds share,
--                                  Coherence when memory and database are in step, Service what one
--                                  call gives, Equivalence what a sequence of calls gives.
--
--   Base58                         hexa/base58.cpp. `multiply_add` is the inner loop of both
--                                  directions, `convert` and `decode_chars` the outer ones. A buffer
--                                  is a list of digits of the size that the code allocates, and a
--                                  carry that is left at its front is a failed assert.
--   Base58/Digits, Power, Convert, The numbers that digits stand for, the room in the buffers, the
--   Leading, RoundTrip             loops, the zeroes at the front, and both directions together.
--
--   Sessions                       hexa/server/network.cpp: the maps `entities_`, `connections_` and
--                                  `clock_offset_`, and what on_connect, on_disconnect, on_receive,
--                                  login and kick_player do with them. `step` is what the `poll` of
--                                  hexa/server/udp_server.cpp does with one event, `run` a sequence.
--   Sessions/Identity              Which player a login is for: the checks and the search in
--                                  network::login.
--   Sessions/Client                generate_new_uid of hexa/client/player_info.cpp, main_game::login
--                                  of hexa/client/main_game.cpp, and the way of a login from a client
--                                  through Base58, Protocol and Sessions.
--   Sessions/Players, Growth,      Uids and their players; who is let in; whether the two maps say
--   Admission, Pairing, Traces,    the same; what is left of a peer that is kicked.
--   Refusals
--   Sessions/Listed                An entity system as a list, for the examples.
--
--   VoxelRange                     hexa/voxel_range.hpp for coordinates without a sign: `advance` is
--                                  the iterator's operator++, `visit` a loop over a range, which runs
--                                  on as many steps as it is given. VoxelRange/Order has the order of
--                                  the voxels, VoxelRange/Chunks the chunks that blocks lie in.
--
--   FlatMap                        hexa/flat_map.hpp at keys that are numbers: the vector is a list,
--                                  an iterator an index. FlatMap/Search has the operations without
--                                  iterators, FlatMap/Refinement what they do to the map.
--
--   World/Surfaces                 surfaces and light maps of hexa/server/world.cpp, with
--                                  hexa/surface.cpp, hexa/server/world_lightmap_access.cpp and the
--                                  commit of hexa/server/world_write.cpp. Surfaces/State has the
--                                  state and the requests for surfaces, Surfaces/Lights the light
--                                  maps and commit_write, Surfaces/Serving the requests of the rest
--                                  of the server and the reply of hexa/server/network.cpp. A step
--                                  gives a new state and a result, or throws. Quiet, Chunks, Steady,
--                                  Reads, Gather, Laws, Getting, Lighting and Generation have what
--                                  the reads leave alone and give; Keeping, Compressed, Relight,
--                                  Renewal, News, Commit and Requests what holds of the whole. A
--                                  light map generator is the tree of its questions to
--                                  `world_lightmap_access`; one that goes around it is not covered.
--                                  That it keeps the number of lights and asks for places inside
--                                  the limits only, and that every surface and light map can be
--                                  packed and unpacks to what it was, are the hypotheses of
--                                  `IsLawful`. Borders says how far a place is from the limits.
--
--   Surface                        hexa/server/extract_surface.cpp: the places of a chunk, the two
--                                  functions that find its faces, and the lookups in
--                                  hexa/chunk_base.hpp and hexa/server/world_subsection.hpp.
--                                  Surface/Loops and Surface/Places have how often a place is met,
--                                  Surface/Lookup what lies next to it, Surface/Mask the directions,
--                                  Surface/Shown when a face shows, by the two materials,
--                                  Surface/Faces what a place gives, and Surface/Extraction and
--                                  Surface/Visible the whole. `std::sort` and the table of materials
--                                  are parameters, and the table has a material for every type.
--                                  Positions are signed, with the shift and the mask of two's
--                                  complement in Base/Int.
--
-- Choices. Bytes are numbers below 256 and a buffer is a list of them. Signed integers and floats
-- are their bit patterns, since the archives only move bits. The byte order of the host is an
-- instance argument, and theorems hold for both orders. A message is read into an object that
-- exists already, which matters where a read leaves a part of it alone. Failures are values: `err`
-- with the exception, or with the place where the read leaves the buffer, which C++ gives no
-- meaning: `boundary_check` is an assert, which aborts, and which a build with NDEBUG, the default,
-- leaves out. Arithmetic on coordinates wraps at 32 bits where the code can reach that bound. In
-- World/State the asserts on places and the exceptions of packing chunks are left out, and a
-- theorem that needs the asserts assumes `IsLegal`; in World/Surfaces the asserts, and the
-- exceptions of packing and unpacking surfaces and light maps, are steps that give no result. A
-- failed assert of the client's cache is a request without an answer.
--
-- The sessions are changed by one thread, which takes one event after the other, so that a sequence of
-- events is all there is. The client's cache has a mutex for each kind, which a method holds for as
-- long as it runs; the model takes the calls one after the other.
--
-- Loops are recursion over the list that they walk. The loop of `prune` runs on fuel, one more than
-- the size of the cache, which each turn makes smaller by one. A loop over a range needs as many
-- steps as its `size`, which is multiplied in 32 bits.
--
-- Parameters. Terrain and area generators are virtual, and are functions here; so are packing and
-- unpacking, which go through the compression library: where a theorem needs that what is packed
-- unpacks to what it was, it says so. A generator of chunks sees area data only, which no height or
-- chunk depends on in these files. A terrain generator that works on new area data gets all area
-- data in memory and in the database, and gives them back changed, with a result or an exception.
-- The JSON library and the entity system are parameters of the sessions: `EntityLaws` is what a
-- component store promises about new entities and the uids that are set.
--
-- The world's caches are tables here and not an `LruCache`, since the world never removes anything
-- from them and the order in them has no effect.
--
-- Not modelled. `prune_if` of the cache; `double` in the archives, which is read through a pointer
-- made of an integer; the ray cast and the collision in `world`; the handlers that
-- messages are given to, other than the login, and what a login sends and where it places a player;
-- the physics, the scripts, the database back ends, the threads, and the client's rendering and
-- interface.
pub mod Base
pub mod Wire
pub mod Protocol
pub mod World
pub mod LruCache
pub mod ChunkCache
pub mod Base58
pub mod Sessions
pub mod VoxelRange
pub mod FlatMap
pub mod Surface
