-- ===== src/Lib.antt =====
-- Faster File Copy, the SKSE plugin under Skyrim/: it reads compressed BSA entries once, keeps the
-- decompressed payloads in one cache file per archive (magic BSDC), and serves later reads from a
-- mapping of that file. This library models the parts that decide what is served: the cache file
-- format, the archives, the lock-free counters and cursors, the index and the queues of the cache
-- in memory, how its files are written, mapped, loaded after a crash and made resident, and the
-- pure policies.
-- Files and code:
-- - Prelude, Prelude/Tests, Lists, Bits, Int, Words, Splice: names passed on, Boolean tests, lists
--   over the native numbers, bit operations, little-endian words and wrap-around arithmetic, and
--   the bytes of a file under writes at an offset.
-- - Format/Checksum: Checksum (XXH32 with seed 0) of Skyrim/src/CacheFormat.h. Lanes, Detect,
--   Stripes and Merge under it follow a difference of one byte through the rounds.
-- - Format/Layout: Header, Entry and ValidationResult of CacheFormat.h, read from bytes at the
--   packed offsets. Format/Validate: Validate, one function for each group of tests and one for
--   the loop over the index. Validate/Spec says what a well-formed file is without reference to
--   the code; Distinct, Accepts and Exact compare the two. Format/Encode lays a header and an
--   entry out as bytes.
-- - Policy/Limit, Warm, Progress, Layout, Section: CacheLimitPolicy.h, CacheWarmPolicy.h,
--   CompressedReadPolicy.h, CompressedEntryLayout.h and PESectionSelect.h of Skyrim/src.
-- - Atomic/Machine: threads that run compare-exchange loops over one word, one round at a time, in
--   any order and with spurious failures. Atomic/Budget: AtomicByteBudget.h. Atomic/Cursor:
--   StreamCursor.h, with Tiles for the claimed ranges and Seek for ClampSeek.
-- - Archive/State, Open, Read, Manager: MappedArchive and MemoryMapManager of
--   Skyrim/src/BSAMemoryMap.h and BSAMemoryMap.cpp. Open follows every early return with a count
--   of the kernel objects held; Read has ReadAt, and the declared sizes with their memo; Manager
--   has the scan of the Data folder and the index of names. Of Read, Memo shows that the memo of
--   declared sizes changes no answer, Field what a read of an archive that is mapped whole finds,
--   and Declared which of its bytes are the declared size.
-- - Cache/State, Lookup, Record: DecompCache of Skyrim/src/DecompCache.h and DecompCache.cpp in
--   memory. Lookup has VerifyEntry, Lookup and ReportMappingIoFailure; Record has
--   RecordDecompressed with its admission under the memory and disk caps. Mappings are reached
--   through a store of views, so a cache and its streams share them. The calls run one at a time,
--   as under their locks. Of Lookup, Intact and Corrupt say when a verification succeeds and
--   fails, Served is about answers, Marks about the marks of entries, Classified and Outcome about
--   every branch, and Retired about reported faults.
-- - Cache/Volume, Cache/Commit: the commit protocol of DecompCache.cpp. Volume is what the code
--   relies on of WriteFile, SetEndOfFile, FlushFileBuffers and a restart after a crash: reads see
--   the writes in order; a range that every image agrees on survives a write elsewhere; a flush
--   settles all; a write inside the first 512 bytes is atomic. Commit has PreparePending, WriteAt
--   and the calls of WriteFreshFile and AppendFile, each call with an answer of the environment (a
--   failure, or the cancel flag where the code looks at it); where the answers run out, the system
--   crashes. Plan has what AppendFile and WriteFreshFile decide before they write. Content says
--   what a file represents: an archive and a list of payloads. Ranges, Keeps, Effect, Steps,
--   Durable and Publish carry the proofs, Append, ReadBack, Rollback, Restore, Fresh, Planned,
--   Prepared and Chunks the theorems. Opening, locking and replacing files, and the looks at the
--   cancel flag before the first write, are left out; the calls of a file are taken to be alone on
--   it, as under its lock. WriteAt's fuel is the number of bytes, since a round writes at least
--   one.
-- - Cache/Evict: the part of EnforceSizeLimit in DecompCache.cpp that chooses cold archives, sorts
--   them and removes their files. Chosen has what a candidate is like, Order their order in terms
--   of the times of their files and uses, Needed the theorems. What a round finds under the lock,
--   and whether the removal succeeds, is a parameter, since other threads run in between;
--   std::sort is insertion sort, which fixes the order of equal candidates.
-- - Cache/Flush: FlushToDisk and ReconcileDiskAccounting of DecompCache.cpp, one function for each
--   part that runs under the cache lock at once: taking the queues in two passes, and finishing an
--   archive's work with the result of AppendFile, or giving the payloads back; Upkeep has the
--   retirement of invalid files and the accounting. What AppendFile returns, whether memory for
--   the queue can be had, whether a file could be removed, and the sizes that a scan of the
--   directory finds are parameters. Books has the account of the pending bytes; Change, Finish,
--   Snapshot, Untouched and Calls are about each part's effect on it; Charged is about the charge
--   of each payload; Session has the steps in any order, between calls of recorders and readers,
--   and Memory is about what the payloads take in it; Rollback and Publish are about failed and
--   stale appends.
-- - Cache/Mapped: MapCommittedFile of DecompCache.cpp. Which calls fail, and the address of the
--   mapping, are a parameter; MapCommittedFile takes no lock, and the model assumes that nothing
--   changes the file between its calls, so that its size and the mapping are those of its
--   contents. Serves has what the index holds for a file that Cache/Commit describes, Inside what
--   it can hold for any file, and Served follows such a file through FlushToDisk to the answers of
--   Lookup.
-- - Cache/Load: LoadCacheFile of DecompCache.cpp, with the kernel's answers and the file's
--   contents as parameters; adopt has its assignments to the cache. Contents has what its mapping
--   serves, Recovery puts it behind the crashes of Cache/Commit, and Served behind it the answers
--   of Lookup.
-- - Cache/Warm: TouchMappedPages and the loop of the warm pass over one mapping. Touch has the
--   pages that are read, Pass the loop, which looks for interruptions in every round, and Served
--   what lookups gain from it. The fuel of both loops is the number of bytes that are left, since
--   a round reads at least one.
-- How the parts meet: Format.Validate uses Format.Checksum; Archive.Read uses Policy.Layout;
-- Archive.Manager opens every archive by Archive.Open; Cache.Record asks for the headroom of
-- Policy.Limit, and Cache.Lookup tests a payload by Policy.Warm and Format.Checksum;
-- Cache.Commit.Plan asks Format.Validate what a file holds, and Cache.Commit.ReadBack puts the
-- validator behind the commit protocol; Cache.Evict and Cache.Flush add sizes by Policy.Limit;
-- Cache.Mapped and Cache.Load ask Format.Validate before they map a file, Cache.Flush publishes
-- what Cache.Mapped returns, and Cache.Warm moves the mark that Cache.Lookup reads.
-- Conventions: a machine word is a native number with its wrap-around written out; a buffer is a
-- list of bytes, and a pointer that may be null an Option. What Win32 answers is a parameter
-- (Archive.State.FileSystem), so a definition covers every answer. Loops are structural recursion,
-- or carry fuel that is the length of what is left to read.
-- Not modelled: the rest of the disk side of DecompCache (the names of cache files, the choice and
-- the order of what is warmed, and files that no archive owns), the hooks and the plugin entries
-- (vtable patches in the running game), logging, ini access, locks and memory orders weaker than
-- sequential consistency, scripts and tools, and the Fallout 4 plugin under Fallout4/.
pub mod Prelude
pub mod Format
pub mod Policy
pub mod Atomic
pub mod Archive
pub mod Cache
