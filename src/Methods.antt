-- ===== src/Methods.antt =====
-- methods/: the requests that a client can make.
pub mod Field
pub mod Login
pub mod LoginSeed
pub mod SendTo
pub mod Logout
pub mod RecvRespond
pub mod Register
pub mod FriendsAdd
pub mod FriendsList
pub mod Stubs
