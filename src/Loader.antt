-- ===== src/Loader.antt =====
-- The loader of executables, dev/ZKAKit/src/PEFCodeMgr.cc with dev/ZKAKit/KernelKit/PEF.h, and the two functions
-- rtl_create_process, of that file and of dev/ZKAKit/src/CodeMgr.cc.
pub mod Pef
pub mod Process
