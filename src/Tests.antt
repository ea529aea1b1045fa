-- ===== src/Tests.antt =====
-- Runs of the definitions on concrete inputs, and the theorems at such inputs. The libraries that
-- the program calls are small concrete functions here, with proofs that they keep what is assumed
-- of them.
mod Token
mod Table
mod Service
mod Session
mod Reset
mod Logout
mod Stores
mod Guards
mod Accounts
mod Paging
mod Outgoing
mod Http
mod Consumers
mod Remote
mod Subscriptions
mod Tools
mod Notices
mod Records
mod Degraded
mod Routing
