-- ===== src/Examples.antt =====
-- The claims of the other files at concrete inputs, and tests of the definitions.
mod RateLimits
mod JobCalls
mod TransferCalls
mod Filenames
mod RelativePaths
mod ManifestFiles
mod UploadNames
mod Disks
mod Recoveries
mod Journals
mod Plans
mod Batches
mod Titles
mod Tokens
