-- ===== src/Redis.antt =====
-- redis/redisconnection.cpp, redis/redistrans.cpp and redis/redisclient.cpp, the client of redis.
pub mod Examples
pub mod Request
pub mod Conn
pub mod Trans
pub mod Pool
