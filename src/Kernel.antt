-- ===== src/Kernel.antt =====
-- xv6-public: the parts of the kernel.
pub mod Pipe
pub mod Log
pub mod Proc
pub mod Strings
pub mod Fs
