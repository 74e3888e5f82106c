-- ===== src/Proc.antt =====
-- The processes of ass5/final_repo/proc.c, sysproc.c and trap.c.
pub mod Types
pub mod Fork
pub mod Boot
pub mod Exit
pub mod Wait
pub mod Sched
pub mod Still
pub mod Inv
pub mod Evolve
pub mod Find
pub mod Calm
pub mod Running
pub mod System
pub mod Sound
pub mod Steps
pub mod Power
pub mod Orphans
pub mod Births
pub mod Stale
pub mod Reaping
