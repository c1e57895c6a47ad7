-- ===== src/Windows.antt =====
-- src/backend_windows.rs: the backend of Windows. Windows.Api is what it calls, Windows.Objects the
-- objects and how they are made, Windows.Attributes how they are searched and read, Windows.Padding
-- and Windows.Cipher the operations, Windows.Chain and Windows.Listing the objects that are found.
pub mod Api
pub mod Objects
pub mod Attributes
pub mod Padding
pub mod Cipher
pub mod Chain
pub mod Listing
pub mod Supported
pub mod Lengths
pub mod Climb
pub mod Granted
pub mod Findable
pub mod Serial
pub mod Bounds
