-- ===== src/Example.antt =====
-- Libraries and servers that do what the sources rely on, small enough to run: the laws that the
-- model asks of them can hold.
pub mod Json
pub mod Redis
pub mod Mysql
pub mod Store
pub mod Start
pub mod Parts
pub mod Http
pub mod Outage
pub mod Races
pub mod Requests
pub mod Front
pub mod Messages
