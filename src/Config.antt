-- ===== src/Config.antt =====
-- Files of key=value lines: common/config.cpp, and readConf of the connection pool.
pub mod Text
pub mod File
