-- ===== src/Lib.antt =====
-- tpmkit: a C++ library over the TPM2 Software Stack (TSS), for the PCRs of a TPM.
--
-- The parts and where they are modelled. A caller uses the port `pcr::provider`
-- (include/tpmkit/pcr/provider.h). Its implementation, `esys_pcr_provider`, checks the arguments,
-- marshals them into the structures of the TSS, calls the TSS through a table of functions,
-- translates a failing return code, reads the answer back into the domain's values, logs, and
-- notifies an observer.
--   Outcome       include/tpmkit/result.h, include/tpmkit/exception.h, src/domain/result.cpp:
--                 `outcome<T>`, with one more end for an exception that leaves the call.
--   Domain/Hash   src/domain/hash_algorithm.cpp. The argument `legacy` is the build switch
--                 `legacy_sha1_pcr_enabled` of src/support/build_options.h.
--   Domain/Index  src/domain/pcr/index.cpp. `std::set<index>` is an ascending list; `insert` is
--                 its `insert`. Index/Sets and Index/Range are the lemmas on these.
--   Domain/Values src/domain/pcr/bank.cpp, digest_value.cpp, selection.cpp, result_types.cpp. A
--                 constructor that may throw is a function into `Throws`.
--   Hex           src/domain/encoding/hex.cpp, with `max_size()` of the containers as arguments.
--   Tss           the structures and constants of the TSS headers, which are not part of the
--                 repository: a parameter, with the facts that are used of it as `IsTss`.
--   Marshalling   src/adapters/tpm2_esys/pcr/pcr_marshalling.cpp. An array of a fixed size is a
--                 list, and a write past its end changes nothing.
--   Validation    src/adapters/tpm2_esys/pcr/pcr_validation.cpp.
--   Translation   src/adapters/tpm2_esys/support/error_translation.cpp. The return codes of the
--                 TSS headers are the parameter `Codes`, the decoder of the TSS is an argument.
--                 Translation/Layout says how a return code is made up, with what the headers
--                 document of the masks and the layers as `HasTssLayout`; Translation/Documented
--                 lists the documented codes by category, and Translation/Expected says what
--                 category a code is expected to have.
--   Logging       include/tpmkit/logging/logger.h and src/adapters/tpm2_esys/support/log_events.h
--                 and log_record.h: the records that a logger is given.
--   Provider      src/adapters/tpm2_esys/pcr/esys_pcr_provider.cpp and pcr_logging.cpp, one
--                 function for each operation. Provider/Session holds what the operations act on:
--                 a list of effects, oldest first (calls of the TSS, log records, notifications,
--                 buffers given back). The TSS is a parameter that answers a call by all the
--                 effects so far, so that it may keep any state and fail at any call. A buffer
--                 that the TSS hands out is counted at the call and given back when the
--                 `unique_ptr` of the code ends, on every path. Provider/Port is the port's list
--                 of requests.
--   EsysTable     src/adapters/tpm2_esys/support/esys_api.cpp: the table of functions by which the
--                 TSS is called, with the functions of the TSS as a parameter. TctiTable is the
--                 same for the TCTI loader (src/adapters/tpm2_esys/context/tcti_loader.cpp).
--   Escape        src/adapters/common/escape_value.h, which the loggers use. A text is the list of
--                 its bytes, here and elsewhere.
--   TctiConfig    the tests of a TCTI configuration string in src/adapters/tpm2_esys/context
--                 (tcti_loader.cpp, tpm_context.cpp) and src/adapters/mock/fake_tpm_context.cpp, with
--                 one `trim` for the three equal copies. `std::isspace` is that of the "C" locale.
--   Context       the rest of src/adapters/tpm2_esys/context: the load of a TCTI, the creation and
--                 the end of a context, as functions on a list of effects (Context/Session), as in
--                 Provider; each `unique_ptr` that may end before it is passed on is a `guarded` run.
--                 Context/Lifetime holds the contexts of a whole program, created, moved and
--                 destroyed. Context/Holdings counts what is held of the TSS: a description of a
--                 TCTI from each `get_info`, whatever its return code, to the `free_info`; a TCTI
--                 context from the allocation of its storage, or from the caller, to its end; the
--                 storage that the loader's finalize leaves, when it does not set the pointer to
--                 null, to the `free`; an ESYS context while its pointer is not null. A text that is handed to the TSS is
--                 all its bytes; the TSS reads a C string up to the first 0.
--   SecretBuffer  src/domain/secret_buffer.cpp: what is locked, unlocked and cleansed. A memory
--                 block is named by the bytes that it holds. `mlock` is an argument.
--   Loggers       src/adapters/logging: Line is the text of the fields; Stdio is stdio_logger.cpp,
--                 with the clock, the environment and the terminals as an argument; Spdlog is
--                 spdlog_logger.cpp as calls of a sink. Threads is `stdio_logger::log` statement by
--                 statement, called by any number of threads on one logger: the mutex, the record
--                 buffer and the streams are a state, and a step is one thread's next statement on
--                 them. A timestamp is given for a year of at most
--                 four digits, for which the text fits the buffer of the code.
--   Testing       src/adapters/mock: FakeContext, FakeTcti (the queue of results as a list),
--                 Recorders (recording_logger.cpp, in_memory_pcr_observer.cpp), MockProvider.
--   Effects       runs on a list of effects, shared by Provider and Context, and what is read off
--                 such a list.
--   Slots         objects by their places, shared by Context/Lifetime and SecretBuffer.
--   Base, Runs    shared notation and lemmas; concrete runs.
-- The files below a part's own hold lemmas and theorems about it, but for Domain/Values,
-- Domain/Index/Named (the constants of the class `index`), Provider/Session, Provider/Port,
-- Context/Session, Context/Lifetime and the children of Loggers
-- and Testing, which hold definitions too.
--
-- Numbers are natural numbers; where the code converts to a smaller width, the conversion is
-- written out (`% 2 ^ 16`, `% 2 ^ 32`, `% 256`). All loops run over lists or over a count of
-- rounds that is the loop's own bound: `scan_bits` takes the 8 bits of a byte,
-- `scan_bytes` as many rounds as the selection has bytes, `insert_range` as many as the range has
-- indices. `to_decimal`, which stands for `std::to_string`, takes one round more than the number's
-- value, which Context/Version shows to be enough. The threads of Loggers/Threads need no bound on
-- their number, and their steps are bounded by those of the calls that they have to make.
--
-- Not modelled: allocation failure, but for the storage of a TCTI context; failures of streams;
-- the mutexes of the spdlog logger, of the test doubles and of the move operations; factories of
-- the fake TCTI that call back; examples, tests and build files.
mod Base
pub mod Outcome
pub mod Effects
pub mod Slots
pub mod Loggers
pub mod SecretBuffer
pub mod Testing
pub mod Domain
pub mod Hex
pub mod Tss
pub mod Marshalling
pub mod Validation
pub mod Logging
pub mod Translation
pub mod Escape
pub mod TctiConfig
pub mod Context
pub mod Provider
pub mod EsysTable
pub mod TctiTable
mod Runs
