-- ===== src/Cli.antt =====
-- packages/cli/src: the command line client.
pub mod Sse
mod Tests
