-- ===== src/Effects.antt =====
-- Asynchronous code as a tree of service calls. `await service.f(x)` is one node: the call, and
-- what the code does with the reply. A reply of `none` is a rejected promise with an error that no
-- `catch` of the program recognises, such as a lost database connection.
mod Syntax
mod Concurrent
mod Run
mod Safety
mod Pool
pub use Pool.*
pub use Syntax.*
pub use Run.{Services}
unfoldable pub use Run.{run}
pub use Safety.*
unfoldable pub use Concurrent.{all_settled}
pub use Concurrent.Keeps.{all_settled-Safe, Zip, AllSafe}
