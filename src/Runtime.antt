-- ===== src/Runtime.antt =====
-- library/: the run-time library that an instrumented program is linked with. binaryinstrumentation.c
-- writes a binary trace for each thread, textinstrumentation.c writes lines into one file, and
-- nullinstrumentation.c writes nothing.
pub mod Families
pub mod Clock
pub mod Records
pub mod Excluded
pub mod Threads
pub mod Buffers
pub mod Binary
pub mod Calls
pub mod FileNames
pub mod Kept
pub mod Opened
pub mod Buffered
pub mod Flushed
pub mod Inserted
pub mod Closed
pub mod Exited
pub mod Assigned
pub mod Logged
pub mod Filled
pub mod Recorded
pub mod Performed
pub mod WholeRun
pub mod Bounds
pub mod ExitTwice
pub mod ExcludedList
pub mod TextLog
pub mod TextLines
pub mod NoLog
pub mod Unwritten
