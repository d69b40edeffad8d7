-- ===== src/Native.antt =====
-- The C view of the library, raknet-c/raknet_types.h: pointers, constants, enumerations and structs.
pub mod Pointer
pub mod Constants
pub mod Enums
pub mod Structs
pub mod Platform
