-- ===== src/Lib.antt =====
-- A model of sftfs, a FUSE file system over SFTP, and the theorems that make its parts correct.
--
-- The program mounts a remote directory. `main.c` reads the target, `ssh_cli.c` and `ssh.c` open the
-- session, `core.c` hands the calls of FUSE to an endpoint; the SFTP endpoint turns them into calls of
-- libssh, and the caching endpoint in front of it keeps attributes, links, listings and handles in
-- caches, which stand on a hash table and on a list in order of use.
--
-- Files and code:
--   - Prelude: the shared names and lemmas. `Run` is a computation that may go wrong: `fault` stands
--     for undefined behaviour and failing assertions.
--   - Htable (src/abs/htable.c, include/abs/htable.h): tables as lists of chains, a pointer to a
--     pointer to an entry as a bucket and a position. Htable/Primes: include/abs/htable_primes.h.
--     Htable/Buckets, Valid, Insert, Lookup, Find, Walk, Rehash and Remove hold the proofs.
--   - Str (src/abs/str.c): strings with the bytes of their block. Str/Room and Str/Contents: proofs.
--   - Cache/Lru (src/cache/list.c, include/cache/list.h): the nodes in a store by address.
--     Cache/Lru/Seg relates a store to the list of its addresses, Cache/Lru/Ends and
--     Cache/Lru/Middle hold the proofs, Cache/Lru/Queue compares the list with a queue.
--   - Cache/Core (src/cache/cache.c): the table and the list together, with Cache/Core/Walk on peeking
--     and clearing, Cache/Core/Stands on the entry at an address, Cache/Core/Evict on the eviction and
--     Cache/Core/Take, Alloc and Free on taking, giving back, new entries and invalidating, and
--     Cache/Core/Peek, Clear and Rehash on these three.
--   - Cache/File (src/cache/file.c): files by their paths, with Cache/File/Paths on the comparison.
--     Cache/Attr, Cache/Symlink and Cache/Dir (src/cache/attr.c, symlink.c and dir.c) stand on it;
--     Cache/Dir/Listing on the names.
--   - Endpoint (include/endp.h): the operations of an endpoint as an interface. Cached (src/endp/cached.c)
--     is the caches in front of one, with Cached/Entries and Cached/Readdir on listings, and Cached/Api
--     (include/endp/cached.h) the operations over any endpoint; Cached/Whole makes an endpoint of them.
--     Cached/Slash, Walk, Ascend, Visit, Handles and Parent hold the proofs.
--   - Fuse (src/core.c): what FUSE calls, over any endpoint, with Fuse/Access on access and
--     Fuse/Listing on directories of the SFTP endpoint.
--   - Prompt (src/password_prompt.c, include/password_prompt.h): the prompt for a password over a
--     parameter for the kernel and libssh; Prompt/Cover and Prompt/Restore on the signal handlers.
--   - Sftp (src/endp/sftp.c): the operations as functions on the handle; Sftp/Errno: the error
--     numbers; Sftp/Transfer: the loops; Sftp/Whole (include/endp/sftp.h): the endpoint; Sftp/Paths,
--     Renames, Changes, Queries, Reads, Writes and Listing: proofs.
--   - Sftp/Api: libssh, which is not part of the repository, as a parameter. What a theorem relies on
--     is a named hypothesis (`Serves`, `Accepts`, `HandsOut`), which Tests/Sessions fulfils.
--   - Target and Main (src/main.c): the target, the options, and in Main/Start the start and the end of
--     the program, with Main/Options, Mounts and Ends on what they come to.
--   - Ssh (src/ssh.c): libssh's session as a parameter, and its connection. SshCli (src/ssh_cli.c): the
--     question about the host, and in SshCli/Login the login, with SshCli/Answers, Admitted and
--     Sessions on the attempts, on the sessions that are handed out, and on their number. Prompt/Kept
--     says what a prompt keeps of the state outside.
--   - Logging (src/logging.c, include/logging.h): which messages are printed, and with which heading.
--   - Tests: the theorems applied to concrete data, and runs.
--
-- Numbers: `size_t` and `unsigned long` wrap at 2 ^ 64, an `int` result at 2 ^ 32. The allocator is a
-- parameter that grants or refuses each request. Fuel: the search and removal loops of a bucket get one
-- round more than the chain is long, the reading and writing loops one more than the bytes asked for,
-- since every other round moves on; the question about the host gets a round for each byte of the
-- input; eviction one round more than the list has nodes, and a search through the cache's table one or
-- two more than it has entries; reading a listing one round more than it has bytes. The
-- number of directory entries is the server's choice, so that loop returns nothing when the fuel runs
-- out, which the endpoint makes a fault.
--
-- Not modelled: freeing of memory, tracing and the calls of the log, the texts for the user, FUSE
-- itself and the terminal. libssh, strtol, fuse_opt_parse and the kernel are parameters; a theorem that relies on what
-- they do names it as a hypothesis (`Counts`, `Keeps`, `Apart`, `ParsesArguments`), which Tests/Logins
-- fulfils.
pub mod Prelude
pub mod Htable
pub mod Str
pub mod Cache
pub mod Cached
pub mod Fuse
pub mod Endpoint
pub mod Sftp
pub mod Ssh
pub mod SshCli
pub mod Main
pub mod Prompt
pub mod Logging
pub mod Target
pub mod Tests
