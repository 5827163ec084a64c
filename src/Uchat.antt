-- ===== src/Uchat.antt =====
-- The package uchat: the callbacks of the chat platform, and the group pictures.
pub mod HeadImage
pub mod Keyword
pub mod ChatHours
pub mod WorkTemplate
pub mod Tables
pub mod Members
pub mod RoomMembers
pub mod JoinMessage
pub mod MemberJoin
pub mod RoomTemplates
