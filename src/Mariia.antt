-- ===== src/Mariia.antt =====
-- The server under project/mariia.
pub mod Channel
pub mod State
pub mod Exec
pub mod Words
pub mod Replies
pub mod Commands
pub mod Parse
pub mod Loop
pub mod Safe
pub mod Tables
pub mod Frame
pub mod Calm
pub mod Wf
pub mod Remove
pub mod Turn
pub mod Polls
pub mod Ends
pub mod Send
pub mod Run
pub mod Stream
pub mod Crash
pub mod Access
pub mod Tokens
pub mod Limit
pub mod Password
pub mod Delivery
pub mod Join
pub mod Modes
pub mod Flags
pub mod Sound
pub mod Life
mod Tests
