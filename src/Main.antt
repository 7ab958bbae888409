-- ===== src/Main.antt =====
-- main.cpp: the example program, and what it prints.
pub mod Locally
pub mod Remotely
pub mod Program
pub mod Outputs
pub mod Written
