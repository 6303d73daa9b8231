-- ===== src/Cli.antt =====
-- The command line, src/cli/cli.cpp: Options has what is set, Parse the loop over the arguments. What is
-- printed of an error is left out. Ranges, Accepted and Rounds prove.
pub mod Options
pub mod Parse
pub mod Ranges
pub mod Accepted
pub mod Rounds
