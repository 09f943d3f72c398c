-- ===== src/Js.antt =====
-- The parts of the JavaScript language that the dashboard uses: strings as lists of UTF-16 code
-- units, truthiness, `String(x)`, decimal printing. `Text` has the operations, its children the laws.
pub mod Text
pub mod Trim
pub mod Unknown
pub mod Uri
