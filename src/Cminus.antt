-- ===== src/Cminus.antt =====
-- The C-Minus compiler of 2018_ELE4029_2013012041/project, and the TM machine.
pub mod Scan
pub mod Symtab
pub mod Tm
