-- ===== src/Jobs/Workers.antt =====
-- Workers, the retry scan and the API, interleaved: every transaction of tasks/common/execution.py
-- by any worker, and any other transaction of the program that leaves the rows of existing jobs
-- alone, adds a job under a fresh identifier or deletes a job, in any order.
pub mod Attempts
pub mod Runs
pub mod Exclusion
pub mod Endings
