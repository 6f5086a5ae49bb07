-- ===== src/Lib.antt =====
-- Verification of the Android logging system: the daemon logd, which keeps the logs, and the types
-- that it shares with the client library liblog.
--
-- logd keeps one log for each log id (main, radio, events, ...). LogBuffer is its interface;
-- SerializedLogBuffer is the default implementation, SimpleLogBuffer and ChattyLogBuffer, which
-- derives from it, are the others. The simple one keeps the elements of all logs in one std::list,
-- with an iterator to the oldest of each log; the chatty one puts a count in place of identical
-- messages, and in place of the messages of a user that logs too much. PruneList has the rules that
-- choose what the chatty one prunes first. In the serialized
-- buffer, a log is a std::list of chunks. Entries are
-- written as packed bytes behind each other into the last chunk; a chunk without room is closed
-- and compressed, and its contents are freed once no reader refers to them. A reader stands in the
-- list of readers with a flush state: for each log, an iterator to a chunk and an offset in it. The
-- chunk in turn knows its readers, and tells them to let go before it is destroyed. What is logged
-- and pruned is reported to LogStatistics.
--
-- Files:
--   Common, Common.*: options as errors, lists, maps by functions and by lists of pairs (Keys),
--     little-endian bytes, characters and decimal numbers (Text), statements that a computation
--     succeeds with a result.
--   Liblog.LogId: the ids of liblog/include/android/log.h and the limit of liblog/include/log/log.h.
--   Liblog.LogTime: struct log_time of liblog/include/log/log_time.h.
--   Liblog.EventList: liblog/log_event_list.cpp: the context and the writer; EventList.Read: the
--     parser. EventList.Memory: the memory of the writer; Elements and Parsing: that of the parser;
--     Truncation: strings that do not fit.
--   Liblog.LogWrite: __android_log_bwrite of liblog/logger_write.cpp, and how LogdWrite
--     (liblog/logd_writer.cpp) and PmsgWrite (liblog/pmsg_writer.cpp) cut the payload. LogWrite.Sent:
--     what they send of an event list.
--   Liblog.LogPrint: the filter rules and setPrintFormat of liblog/logprint.cpp. LogPrint.Levels: what
--     the rules mean; Rules: that the code does it; Splitting: processLogBuffer; Within: messages that
--     are not well-formed; Formats: formatFromString and the letters and colors of priorities;
--     Printable: convertPrintable, where mbrtowc is a parameter; Escapes: reading its text back.
--   Logd.LogSize: logd/LogSize.h and the test of logd/LogSize.cpp.
--   Logd.Statistics: the elements of logd/LogStatistics.h and the calls that the serialized buffer
--     makes. Statistics.Entries and Table: the entries of the tables and LogHashtable; Tables: the
--     state, the constructor, Sizes and ShouldPrune; Calls: Add, Subtract, Drop and Erase of
--     logd/LogStatistics.cpp; Counters: what these make of the counters of a log; Worst: MaxEntries
--     and the worst two; Worst.Greatest: what MaxEntries finds.
--   Logd.PruneList: logd/PruneList.{h,cpp}. PruneList.Loop: the loop of Init; Rules: the rules that it
--     leaves; Words and RoundTrip: reading what Format prints.
--   Logd.Element: logd/LogBufferElement.{h,cpp}.
--   Logd.Simple: GetOldest, Erase, Prune, KickReader, MaybePrune and LogInternal of
--     logd/SimpleLogBuffer.cpp, and NotifyNewLog of logd/LogReaderList.cpp. Simple.Calls: Init, Log,
--     Clear, SetSize; Flush: FlushTo. Oldest: the iterators; Taking, Pruning and Readers: Prune; Counted
--     and Invariant: the counters of the statistics; Clearing: Clear; Sequence: the sequence numbers;
--     Resuming and Sending: FlushTo, called again.
--   Logd.Chatty: Identical and LogInternal of logd/ChattyLogBuffer.cpp, with android::strnstr of
--     logd/LogUtils.h. Chatty.Counting and Saved: the messages logged and saved. Chatty.Buffer: the
--     state, Erase and LogBufferElementLast; Scan: the loop of the first pass of Prune; Prune: its
--     passes; Calls: LogInternal on the buffer. Watermarks and Dropping: the iterators when an element
--     is marked, erased or made a dropped one; Marking, Scanning, Erasing, Offenders and Steps: the
--     loop; Passes and Pruned: the passes.
--   Logd.Serialized.Entry: logd/SerializedLogEntry.h; its bytes are those of the packed class.
--   Logd.Serialized.Chunk: logd/SerializedLogChunk.{h,cpp}, with the sizes that
--     logd/CompressionEngine.cpp checks. Chunk.Contents: which entries a chunk holds;
--     Packing: packing and unpacking them.
--   Logd.Serialized.Nodes: std::list<SerializedLogChunk>; an iterator is the address of a node.
--   Logd.Serialized.FlushState: logd/SerializedFlushToState.{h,cpp}.
--   Logd.Serialized.Buffer: LogToLogBuffer, Prune, MaybePrune, RemoveChunkFromStats, GetSizeUsed and
--     SetSize of logd/SerializedLogBuffer.cpp, and NotifyReadersOfPrune of the chunk. Buffer.Stores
--     (what a list of chunks holds), Append (writing), Readers and Links (the
--     references between chunks and readers), Outline (those references when an entry is written),
--     Front and Pruning (Prune).
--   Logd.Serialized.Clear: ClearLogsByUid, UidClear and Clear. Clear.Opening: a chunk
--     opened and its entries logged again; Users: whose entries stay.
--   Logd.Serialized.Write: ShouldLog and Log. Write.Logs: the invariant of a log; Write.Outcomes:
--     Log and SetSize branch by branch.
--   Logd.ReaderThread: the filters of logd/LogReaderThread.cpp and a round of its thread, over the
--     list of the logs that FlushTo pops. ReaderThread.Filters and Tail: readers with a tail.
--   Liblog.LogPrint.Tests, Liblog.LogWrite.Tests, Liblog.EventList.Tests, Logd.Serialized.Tests,
--     Logd.Statistics.Worst.Tests, Logd.PruneList.Tests, Logd.Simple.Tests, Logd.Chatty.Tests,
--     Logd.Chatty.Runs, Logd.ReaderThread.Tests: the theorems at concrete
--     inputs.
--
-- Correspondence. An operation carries the name of its method, in snake case, and takes its object
-- and gives the changed one back. The result none stands for a failed CHECK, a LOG(FATAL), an access
-- out of bounds or through a null pointer, and an iterator or a reader that is not in its list. An
-- iterator of the simple buffer is the number of elements before its node; in the chatty buffer it is
-- this place, or stale when its node is gone, and a pointer to an element is a place too. To read an
-- element that has been erased is none. An unordered map is a list of pairs, or a function for the
-- watermarks. In LogPrint, none is the result -1 of processLogBuffer, and false is that of
-- addFilterRule and addFilterString.
-- Native numbers stand for the machine's; where a width matters, the wrap-around is written out (16
-- bits for total_len, 32 for the words of a time and for the count of references, 64 for the
-- sequence number). Bytes are numbers, and the contents of a chunk are the list of its bytes.
--
-- Bounds and fuel. entries reads with one round more than write_offset, and every entry takes 30
-- bytes at least. The loops of Prune and ClearLogsByUid run on the number of the chunks, and every
-- round takes one. The loop of PruneList::Init runs on one round more than there are characters, that
-- of addFilterString on two more. The first pass of the chatty Prune runs on one round more than there
-- are rows: each round that does not end it takes a row; the result of this Prune is none for a fault,
-- and some none if that fuel ran out. The theorems say that a result is there, and so that the fuel is
-- enough.
--
-- A string that a client writes to an event list is shorter than 1 GiB in the theorems, so that no
-- 32-bit position wraps.
--
-- Parameters. The Zstd codec is a parameter (Zstd) with hypotheses (ZstdLaws): decompressing gives
-- back what was compressed, and no frame is empty. The tag map and the level test of the properties
-- are the parameter Levels, the names that are read from /proc and from the tag map are Names, the
-- properties that PruneList::Init reads, LIBLOG_LOG_TAG and what other threads do while Clear sleeps
-- are arguments. size_t and unsigned long have 64 bits. The structures of event messages are
-- packed.
--
-- Not modelled: sockets, files, threads and the lock (each operation runs under logd_lock, so the
-- order of calls is the order of steps); the warnings that logd prints; the order in which FlushTo of
-- the serialized buffer pops the logs; the waiting and the release of the reader threads; the
-- reports of LogStatistics; the text that is shown for dropped messages; the kernel and the audit log;
-- the transports but for the cutting of a payload, the formatting of lines and of event lists, the setting of a time zone by a
-- print format, and the tools of liblog and logcat.
pub mod Common
pub mod Liblog
pub mod Logd
