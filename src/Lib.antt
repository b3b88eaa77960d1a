-- ===== src/Lib.antt =====
-- luatest: libraries in C++ for Lua, modelled and verified.
--
-- The repository is a collection of libraries that a Lua program loads. Each is an object behind
-- a userdata with a few methods, and they call each other only through Lua. Modelled are:
--
-- - Msgpack: msgpack/cc/msgpack.h, msgpack/cc/msgpack.cc and msgpack/cc/lmsgpack.cc, the codec.
--   Msgpack/Pack has the writer Msgpack::Pack; Msgpack/Unpack the reader Msgpack::Unpack with
--   parse; Msgpack/Encode and Msgpack/Decode the recursive encode and decode over Lua values. A
--   Lua table is given by its raw length and its entries in the order of lua_next. The bit
--   patterns of doubles are a parameter (Msgpack/Floats). The host is little-endian. Tables are
--   shorter than 2^32. A write converts as C++ does, the length of a string to uint32_t and to int;
--   a memcpy of a negative length sets a mark (wild), and the theorems are of shorter strings.
-- - Memory: the bytes of a number in memory, endian_change of msgpack/cc/msgpack.h, reads through
--   a pointer (Memory/Reads) and fields (Memory/Fields), for Msgpack, Rank and Trie.
-- - Timer: timer/cc/ltimer.cc. The set timer_ and the set iter_ of iterators into it, with add,
--   del, delid and expire, and the Lua functions as steps (Timer/Expire).
-- - Stimer: battle/cc/stimer.cc. The multiset timer_ by end time, with add, expire and clear.
-- - Lru: lru/cc/llru.cc. The nodes of the list have addresses, which the index it_ holds; create,
--   update, del and evict. Lru/Update has the specification as a list of ids.
-- - Rank: rank/cc/lrank.cc. The ordered set ranks_ and the index id_it_, with create, add, evict,
--   get_order and info. Rank/Serial has seri and deseri, on bytes; the loop of deseri is on fuel,
--   the length of the input, since each turn uses up bytes.
-- - Grid: the positions of two int16_t that mmo, mmoccskill and slg share, with the conversion to
--   int16_t.
-- - Astar: mmo/cc/astar.h and mmo/cc/astar.cc, the search for a path; mmoccskill/cc/astar.cc is
--   the same code. The test of a position and the integer part of 100 * sqrt(n) are parameters.
--   The main loop is on fuel: a map gives it one more than its number of positions, len * wid,
--   since each state that leaves the open list closes a position or is the last for it. The way
--   back is on fuel too, one more than the number of entries in pres (Astar/Find). Costs are
--   natural numbers: that a cost stays below 2^31 is taken for granted.
-- - Range: mmo/cc/range.h, whose copy mmoccskill uses, over the floating point operations of
--   Std/Reals, which are parameters.
-- - Cells: sets of ids by cell, which mmo and mmoccskill keep of the objects that stand in them.
-- - Mmo: mmo/cc/map.h, mmo/cc/map.cc and mmo/cc/lmap.cc. The class Map is GameMap, with
--   obstacles, entities and cells; Mmo/Search has aoi_search, Mmo/Lua the Lua functions. A
--   callback is modelled by the list of the calls it gets. The variable p that add_entity tests
--   without having given it a value is an argument.
-- - World: mmoccskill/cc/world.h, world.cc, aoi.h, aoi.cc and astar.cc of the same directory:
--   blocks, actors, and the differences that setpos gives. World/Search has search, with
--   nth_element of the C++ library as a parameter, and the skills of skill.h, skill.cc and
--   skillfunc.cc; World/Calls the Lua functions of lworld.cc. What damage prints is a result.
-- - Sight: slg/new/map.h and slg/new/map.cc, the marches and the visions: set_vision, del_vision
--   and vision_diff, and in Sight/Lua the Lua functions of slg/new/lmap.cc, on Std/Difference for
--   std::set_difference. The marches stand in any order. seri_obstacle, which lists the positions
--   of a hash table, is left out. A cross product is an integer instead of a float, of which only
--   the sign counts.
-- - Land: the same class, its obstacles and entities. A rectangle whose loops over int16_t never
--   end, since a bound is 32767, gives none; the other loops go over the list of the positions.
-- - Slg: slg/cc/world.h, slg/cc/world.cc and slg/cc/lworld.cc, the older world: blocks, entities,
--   troops and views. Its rectangles and the test for sight are those of Land and Sight.
-- - Trie: trie/hat/ltrie.cc and trie/pdbs/ltrie.cc, maps from strings to int64_t. The tries of the
--   two libraries are a parameter (the record Library), and what they document is named
--   (IsLibrary), for the keys that they take: tsl::htrie_map throws at keys of more than 65534
--   bytes, which is not modelled. The loop of deseri is on fuel, the length of the input.
-- - Battle: battlecc/cc, battles with the skills of skillfunc.cc. Battle has the data, Battle/Buffs
--   and Battle/Skills skill.cc and skillfunc.cc, Battle/Rounds battle.cc and lbattle.cc. A closure
--   is what it captures, a pointer to an actor its vector and place, and what is printed a list.
--   A state in which the source follows a null pointer or reads past the end of a vector is
--   marked. The functions of an event are called in the order of a list; the source leaves it open.
-- - Std: what the components use of the standard library. Std/Set is std::set (also the order
--   statistics tree of rank/cc/lrank.cc) as a sorted list, Std/Map std::unordered_map as a
--   function, Std/Order the comparison functions. An iterator into a set is the element it points
--   to: elements neither move nor change, and each component erases an element at once with the
--   iterators to it. A hash table of ids is gone through in the order of the ids, and std::sort
--   leaves equal elements in their order; the source leaves both open.
-- - Prelude: tests on numbers, lists, and signed integers, which stand for int64_t.
--
-- The recursion of decode is on fuel, twice the length of the input and one more: each value uses
-- up at least its marker. Besides decode, deseri and the search of Astar, all loops are structural.
--
-- Some theorems speak of the states that calls lead to: these are runs of a list of calls (Timer,
-- Stimer, Mmo, World, Sight), or a data type Reached with a constructor for each call (Slg, Trie,
-- Battle). In Slg and Trie a call that C++ says nothing of, or that never ends, leads to no state.
--
-- A read past the end of the input, of which C++ says nothing, is a result of its own in Msgpack,
-- Rank and Trie. Running out of memory is not modelled, nor the registration with Lua, the
-- collection of the objects and the conversion of arguments.
--
-- Not modelled: jps, a library of its own that the modelled ones do not use; msgpack/stdstr, a
-- fragment whose header is missing; the bindings leveldb, zstd, tool, raft/lraft.c and
-- kcp/cc/lkcp.c, which only call a library; raft/raft, kcp/cc/ikcp.c, pb/c, tsl and
-- parallel_hashmap, which are copies of other projects; and the Lua modules.
pub mod Astar
pub mod Battle
pub mod Cells
pub mod Grid
pub mod Land
pub mod Lru
pub mod Memory
pub mod Mmo
pub mod Msgpack
pub mod Prelude
pub mod Range
pub mod Rank
pub mod Sight
pub mod Slg
pub mod Std
pub mod Stimer
pub mod Timer
pub mod Trie
pub mod World
