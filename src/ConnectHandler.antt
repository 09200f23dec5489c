-- ===== src/ConnectHandler.antt =====
-- connect_handler.c: the thread that serves one connection. `World` is the state that the threads
-- share; `Account`, `Messages` and `Location` are the cases of `interpret_packets`, and `Loop` is
-- the switch and the loop around it.
pub mod World
pub mod Account
pub mod Messages
pub mod Location
pub mod Loop
pub mod Delivery
pub mod Login
pub mod Faults
pub mod Places
pub mod Registration
pub mod Frame
pub mod Isolation
pub mod Sound
pub mod System
pub mod Survival
pub mod Relogin
pub mod Race
pub mod Progress
