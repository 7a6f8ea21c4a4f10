-- ===== src/Lib.antt =====
-- StoRM Tape: the service that accepts requests to recall files from tape and keeps track of them.
--
-- A request comes in over HTTP (src/routes.cpp, src/io.cpp), is handled by TapeService
-- (src/tape_service.cpp), which resolves the logical paths to physical ones
-- (src/storage_area_resolver.cpp), asks the storage and the extended attributes of a file where the
-- file is, and keeps the stages and their files in two SQL tables (src/database_soci.cpp). GEMSS,
-- the mover, takes over what is to be recalled through the same service.
--
-- - Prelude: shared names, tests on numbers and texts, lists.
-- - Model (src/types.hpp, src/file.hpp, src/stage_request.hpp, src/configuration.hpp): the data.
-- - Path: std::filesystem::path as far as the program uses it, that is POSIX paths as texts, their
--   filenames, the order and equality of paths by their elements, lexically_normal,
--   lexically_relative and operator/; Path/Kept, Path/Normal and Path/Relative are about
--   lexically_normal. Algorithm: the algorithms of the C++ library that the program calls; where
--   the standard leaves the order of equivalent elements open, it is kept.
-- - Resolver (src/storage_area_resolver.cpp): StorageAreaResolver::operator(). `none` stands for an
--   assertion that fails or an iterator that must not be dereferenced.
-- - Stage (src/stage_request.cpp): update_timestamps.
-- - Host: the answers of the kernel that the handlers read, and has_xattr over them.
-- - Attributes (src/extended_attributes.cpp, src/extended_attributes.hpp): every function, over the
--   system calls and a state of the file system that other programs may change between two calls.
--   Attributes/Kernel says what the manual pages promise, and Attributes/Handlers that Host agrees.
-- - Storage (src/storage.hpp, and ExtendedFileStatus of src/tape_service.cpp). Storage/Local
--   (src/local_storage.cpp): LocalStorage.
-- - Database (src/database.hpp, src/sql_queries.hpp, src/database_soci.cpp): one definition for
--   each operation of SociDatabase. The state is a World: the two tables, the number of statements
--   issued so far, and the calls of setxattr. An operation is a function of the World that gives a
--   value or an exception, and the World after it. Database/Sql holds the function on the tables
--   that each SQL text denotes. The Engine is what the program leaves to soci and SQLite: which
--   statement throws, the order of the rows of a SELECT with no ORDER BY, and whether fetching into
--   an empty vector throws. A transaction that does not commit restores the tables.
--   Database/Interface is the abstract class and the class that implements it. Database/Abstract
--   says what the interface promises: a map from the ids of the stages to their times and the
--   quotient of their files by order; the methods that count or list over all stages are not
--   described there.
-- - Service (src/tape_service.cpp): the ten handlers, with the values of std::time and of the UUID
--   generator as arguments. Service/Files has what is done with each file, Service/Recall the
--   handlers for GEMSS, Service/Calls the histories of calls. Database/Closed lists what the
--   statements of the service may do to the tables; a property that allows for all of it holds
--   along every history (Service/Invariant, Service/Calls). Service/Life is the life of a file as a
--   relation of steps, Service/Recalling the service over LocalStorage, Service/Draining the calls
--   of take_over one after the other, Service/Persisting what is found after a status request,
--   Service/Delivery a stage from take_over to its end, and Service/Shared the files of several
--   stages on one path.
-- - Config (src/configuration.cpp): the loaders and checks of the storage areas, and in Config/Load
--   those of the roots and the numbers; what yaml-cpp says of a node is data.
-- - Http (src/io.cpp, src/routes.cpp, src/file.cpp, src/types.cpp): what is read from a request,
--   the responses, and the routes with their catch clauses. boost::json, boost::url, std::regex and
--   the conversions of boost are parameters. Http/Contexts has the routes as requests, with what
--   each writes to the context of the access log, and Http/Serving the histories of requests.
--   Http/Answers and Http/Statuses have the answers to a cancellation and to a question for a
--   stage, and Http/Normalised the paths that are read.
-- - AccessLog (src/access_logger.cpp): the line of a request.
-- - Profiler (src/profiler.hpp, src/profiler.cpp): the trace of a build for profiling. The clock
--   and the number of a thread are arguments, and the macros that place the timers are left out.
-- - Start (src/main.cpp): from the command line and the configuration to the loop of the server.
-- - Tests: runs of the model.
--
-- Time points and sizes are natural numbers: the program only reads the clock, compares and stores.
-- The one number that is read with a bound, the parameter "first", has 64 bits. All loops are
-- structural recursions; the fuel of `decimal` is one more than the number, which has fewer digits.
-- Calls of the service do not overlap, as the program runs them on one thread and one session.
-- Within one request the answers of the storage do not change, except by the attributes that the
-- request sets itself.
--
-- Not modelled: the text of the time in the access log, and the other logging; what creates the
-- tables; the route of the icon; and exceptions for want of memory, such as those of the vector
-- that get_files makes for as many paths as are asked for.
pub mod Prelude
pub mod Model
pub mod Path
pub mod Resolver
pub mod Algorithm
pub mod Database
pub mod Host
pub mod Attributes
pub mod Storage
pub mod Stage
pub mod Service
pub mod Config
pub mod Http
pub mod AccessLog
pub mod Profiler
pub mod Start
mod Tests
