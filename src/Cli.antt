-- ===== src/Cli.antt =====
-- cli: the generator and the commands of the command line tool.
pub mod Columns
pub mod GoMod
pub mod Names
pub mod Regex
pub mod Upgrade
