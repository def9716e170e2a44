-- ===== src/Cli.antt =====
-- cli.py: the commands of `gate`, and the helpers that they are made of.
pub mod Host
pub mod Commands
pub mod Ports
pub mod Mounts
pub mod Waits
pub mod Templates
pub mod Build
pub mod Provision
pub mod Up
pub mod Down
pub mod Status
pub mod Install
pub mod Parser
pub mod Main
pub mod Ends
pub mod Guards
pub mod Calm
