-- ===== src/Tests.antt =====
-- Runs of the code at small inputs, and each theorem at an input that meets its hypotheses.
mod Data
mod Volume
mod Fs
mod Conn
mod Watchdog
mod Trustee
mod BinderyIo
mod Bindery
mod Sap
mod Link
mod Gasp
mod Ncp
mod Calls
mod Objects
mod Dirs
mod Opening
