-- ===== src/Mysql.antt =====
-- The wrapper of the MySQL client library (MysqlDB.cpp, in chat/src/server and mysql连接池/src).
pub mod Library
pub mod Params
pub mod Connection
pub mod Wrapper
pub mod Arguments
pub mod Closing
pub mod Rows
mod Examples
