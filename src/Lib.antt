-- ===== src/Lib.antt =====
-- Clipman is a daemon that watches the clipboard, keeps a history of its items in a database, and
-- is meant to share them between devices. This library models its parts as functions and proves
-- what makes them correct.
--
-- The program and the files here:
--   * internal/types/clipboard.go and HistoryOptions of internal/config/config.go are Content:
--     an item is its type, its bytes, its time and a flag; a time is an instant and a zone.
--   * pkg/compression/compression.go is Compression: CompressContent and DecompressContent.
--   * internal/storage/boltdb.go is Storage. BoltStorage holds the bucket, as the list of its
--     entries in the order in which a cursor walks it, and the counter cacheSize. Storage has
--     the operations that write (SaveContent, FlushCache, DeleteContents and their helpers),
--     Storage/Reads those that read (GetLatestContent, GetContentSince, GetAllContents,
--     GetHistory), Storage/Cursor the bucket, and Storage/Services what bbolt, JSON, the time
--     format and gzip do, with the laws that the theorems use. A transaction that fails gives
--     back the bucket it began with; the commit of one that does not is taken to succeed.
--   * internal/clipboard is Clipboard: History is the ring of history.go, Detection is
--     content_helpers.go, Processing is content_processing.go, and Monitor is monitor.go, whose
--     loop takes a list of events from the platform, processes each item, saves it through
--     Storage, publishes it and adds it to the ring.
--   * internal/sync is Sync: Pairing is pairing.go (Pairing/Protocol its two ends, Pairing/Code
--     the verification code, Pairing/Service the dispatch and PairingDiscoveryService),
--     Publisher is sync_publisher.go of internal/clipboard, Streams reads and writes as
--     protocols.go does and Protocols is its registry of handlers, Topics is the groups of
--     node.go and sync.go, Node the start, the stop and the peers of node.go (Node/Making is
--     NewNode, Node/Connected the peers that are connected), Manager is the manager of sync.go
--     and External the types that it shows (internal/types/sync.go), Discovery is
--     discovery/manager.go, Discovery/Manual discovery/manual.go and Discovery/Dht
--     discovery/dht.go and mdns.go (Dht/Loop the loop of the DHT as a step relation), Config is
--     config.go with the check of internal/config/config_sync.go, and Config/Loading what is
--     loaded from the program's configuration.
--   * internal/platform/clipboard_linux.go is Platform: Session is what the desktop answers,
--     Reading is Read and the readers under it, Writing is Write and the writers, TypeDetection
--     finds the type of what was read, Uris and Rtf are the formats, Retry is withRetry;
--     Monitoring chooses the monitor and has those that wait for events (Monitoring/Mir the one
--     under Mir, which looks at a file), Polling the adaptive
--     polling, one tick a step; Cache is the content cache and the registry of custom types;
--     Formats is the comparisons, Closing is Close with the temporary files.
--   * internal/platform/clipboard_windows.go is Platform/Windows: Windows reads,
--     Windows/Watching writes and has the window procedure and the monitor, Windows/Image is
--     convertDIBtoPNG.
--   * internal/platform/clipboard_darwin.go is Platform/Darwin; daemon_linux.go is
--     Platform/Daemon, and daemon_darwin.go and daemon_windows.go are Platform/Daemon/Others.
--   * pkg/utils/logger.go is Logger, with the removal of old files in Logger/Rotation.
--   * internal/config/config.go is Config: the defaults, Load, Save and the environment.
--   * internal/cli is Cli: Root is root.go, the flags and the daemon, which puts Config,
--     Storage, Clipboard and Sync together; Run is cmd/run.go, Flush cmd/flush.go, Pair
--     cmd/pair.go, Service cmd/service.go, and History cmd/history.go, with the search for a
--     daemon in History/Running and what is shown of an item in History/Shown; what the last and
--     LogCompleteHistory (Storage/Display) print is a list of lines.
-- Text has the byte-level helpers of the standard library that the code calls (TrimSpace, Ext,
-- Split, and Text/Decimal for %d, with a fuel of 20 digits, enough for 64 bits); Prelude has the
-- lists, integers and maps that all files share; Tests has the theorems at concrete inputs, with a
-- backend that meets the laws of Storage/Services.
--
-- The monitor uses Storage and History directly; Storage and the monitor take what lies outside
-- the repository as the records Backend and Services. In Pairing, what other goroutines do between
-- two locked regions is an argument of the handler; what arrives from the network is an argument,
-- too. In Cli/Run the monitor's goroutine, which nothing waits for, takes events until the database
-- is closed. Each goroutine is modelled by itself: a panic of one ends the process, and with it the
-- others at whatever event they are. What an external program does to the files is an argument.
--
-- Numbers are natural numbers; the hash of Platform/Polling/Hash and the verification code wrap at
-- 2^32 as the code does, and the durations of Platform/Polling at 2^64 with a sign. The counter
-- cacheSize is an unbounded integer: it would have to pass 2^63 bytes to differ. The loops are
-- recursion on lists, and on the width and the height of a bitmap. The digits of a hash are read
-- off with a fuel of 8, enough for 32 bits.
--
-- Not modelled: the messages that are logged, and the registration of the commands. The programs
-- that reach the clipboard, the programs that install a service, and libp2p are parameters.

pub mod Prelude
pub mod Text
pub mod Content
pub mod Compression
pub mod Storage
pub mod Clipboard
pub mod Sync
pub mod Platform
pub mod Logger
pub mod Config
pub mod Cli
pub mod Tests
