-- ===== src/Sh.antt =====
-- The parser of w3/user/sh.c. The text from a position up to its NUL is the list of its bytes, and a
-- word is the list of the bytes from q up to eq. parsecmd's NULs behind the words are not written.
-- Every call and every round of a loop takes one of its fuel.
mod Lex
mod Parse
pub mod Tokens
pub mod Grammar
mod Reads
pub mod Accepts
pub mod Total
pub use Lex.{strchr_has, whitespace, symbols, gettoken, peek, skip_space}
pub use Parse.{Cmd, exec, redir, pipe, list, back, max_args, parsecmd}
mod Tests
