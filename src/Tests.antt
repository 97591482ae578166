-- ===== src/Tests.antt =====
-- The theorems applied to concrete lists, pools and kernels.
mod Machine
mod Lists
mod Pools
mod Calls
mod Opens
mod Busy
mod Processes
mod System
mod Family
mod Exits
