-- ===== src/Apis.antt =====
-- apis and the models behind it.
pub mod RobotJoin
pub mod ApplyCode
