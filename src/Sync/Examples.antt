-- ===== src/Sync/Examples.antt =====
-- Runs of the service on small data: pages, transactions, and requests to sync.
mod Pages
mod Requests
mod Fetches
mod Jobs
mod Tables
mod Whole
