-- ===== src/Lib.antt =====
-- balabox stores files as lists of block hashes. This library models the two services in C++ that
-- keep the lists and the blocks, and the client in Python that uses both.
--
-- metadata/ keeps the tables FileBlock (a row for each block of a file, with the block's number
-- and the file's version) and UserCache in MySQL, behind nine FastCGI programs.
--   Sql         the tables, the statement texts, and the MySQL client library as the record MySql
--   Sql.Laws    what MySQL promises for these statements (IsSql): each runs as a whole or not at
--               all, fails with a number above 999, and gives rows in any order that it may
--   Sql.Memory  a server in memory that parses the texts and meets these laws
--   Helper      metadata/src/mysql_helper.cc, method by method (MySQLHelper::updateFileData is
--               update_file_data); Helper.Commit to Helper.Missing prove what the methods do
--   Helper.Suite  metadata/test/mysql_helper_test.cc, by what it tests
--   Helper.Phases       updateFileData as a step relation, one step for each statement
--   Helper.Interleaved  two calls at once, their steps in any order; Helper.Finished and
--                       Helper.Race prove what they leave
--   Util        metadata/src/fcgi_util.cc (getQueryParam is get_query_param, stringToJson is
--               string_to_json)
--   Web         a request, `gstdin` and the accept loop of the nine programs
--   Handlers    their `main` functions: Files (block_list, file_list, file_delete, recent_hashes),
--               Commits (block_query, file_commit), Caches (user_cache_add, user_cache_remove,
--               user_caches)
--               Handlers.Reads, Registry and Invariant prove what the handlers keep, and
--               Handlers.Service, Answers and Deletion what a client reads
--   Json        JsonCpp as a record, and Util.Arrays what is relied on of it (IsJson)
-- A handler reads the request, calls the helper on the database, and writes a page: it is an
-- action on a World, the state of the database and the output.
--
-- blockcache/ keeps blocks in LevelDB: on the block server in a directory that each request opens,
-- on the cache server behind a process of its own.
--   Blocks        what blockcache/block_store.cc and blockcache/block_fetch.cc share (getBlockHash
--                 is get_block_hash), with the directory as the record Directory
--   Blocks.Store  block_store.cc from the request to the page, and Blocks.Fetch block_fetch.cc;
--                 Blocks.Laws and Blocks.Safety prove what they do
--   Cache.Frame   the buffers of blockcache/http_helper.cpp: createBuffer, extractBuffer and the
--                 loops that send and receive them
--   Cache.Server  the commands of blockcache/leveldb_server.cpp, with LevelDB as the record LevelDb
--   Cache.Process  the loop of leveldb_server.cpp over its clients (run_mono_thread), and in
--                 Cache.Process.Blocks the map from hashes to blocks that it amounts to
--   Cache.Client  LevelDBHelper of blockcache/leveldb_helper.cc over sendLocalMsg (get is helper_get,
--                 put is helper_put), with the sockets as the record Network;
--                 Cache.Client.Traces shows that it is a map from hashes to blocks
--   Cache.Fetch   blockcache/cache_block_fetch.cpp and the requests of HttpHelper, with the neon
--                 library as the function Neon
--   Cache.Prefetch  blockcache/prefetch.cpp: one message, from what `recv` wrote to the blocks that
--                 are put into the cache
--   Cache.Store   blockcache/cache_block_store.cpp, which passes a block on to the block server
--
--   Demo          the programs blockcache/write.cc, read.cc and leveldb_helper_test.cc, and Demo.Echo
--                 blockcache/example.cpp and test.cpp
--
-- client/sync.py brings the files of a directory together with what the services hold.
--   Sync           the state of a client (its directory, and what versions.json holds), its
--                  requests, and the servers, the clock and the programs that it calls as the
--                  record Outside
--   Sync.Transfer  upFile and downFile, and Sync.Run the two loops and the option --download
--   Sync.Keeps, Modified and Present  what the loops leave alone, Sync.Versions the versions in
--                  versions.json, and Sync.Sent and Fetched what stands behind a transfer that
--                  succeeded (with Sync.Stored on blocks and Sync.Answers on requests), all
--                  whatever the servers answer
--
-- Base holds the shared definitions: byte strings (Text), C integers as their 32-bit patterns,
-- atoi and intToStr. Exec is code that changes a state and may crash: an exception that nothing
-- catches, or undefined behaviour. Tests runs the theorems on concrete inputs.
--
-- Bounds and fuel. The loops of the block server that open the directory and put the block until
-- they succeed have fuel, and a theorem that needs them to end asks for a success within the fuel.
-- A number is printed with fuel above itself, which is enough because each step divides by ten.
-- The send loop has fuel for the bytes left, of which each step takes at least one. An `int` is a
-- number below 2 ^ 32 that is read as signed where the code does. Names have at most 100 printable
-- characters without quotes or backslashes, and hashes at most 64 without spaces, as the columns
-- hold them; a commit has a version and a number of blocks below 2 ^ 31.
--
-- Not modelled: the calls of sockets, the pauses and the log lines; freeing of memory; what
-- ifconfig prints, which is an argument; the time stamps of FileBlock, by which only
-- getRecentFirstHashes orders rows, and that order is left open; what the test programs print. Of
-- the client: the directory of the blocks, which is emptied before each use, a download by name of
-- versions.json itself, which would replace what it holds, and names that a shell
-- would read as more than one word; its times are seconds, and the files of a download are joined in
-- the order of their numbers, as their names are up to 99999 blocks.
--
-- The theorems on the database hold for every server that meets IsSql. Tables are consistent
-- (IsConsistent) if every file has one version and blocks numbered from 0.
pub mod Base
pub mod Exec
pub mod Sql
pub mod Helper
pub mod Json
pub mod Util
pub mod Web
pub mod Handlers
pub mod Cache
pub mod Demo
pub mod Sync
pub mod Blocks
mod Tests
