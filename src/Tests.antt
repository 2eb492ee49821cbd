-- ===== src/Tests.antt =====
-- Runs of the program's parts on small inputs.
mod Parsing
mod Apis
mod Senders
mod Monitors
mod Contexts
mod Srt
mod Watching
mod Printing
mod Runtimes
mod Schedules
mod Streams
mod Openings
mod Programs
mod Runs
mod Requests
mod Servers
mod Clients
mod Messages
mod SrtStats
