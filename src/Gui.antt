-- ===== src/Gui.antt =====
-- internal/gui: the parts of the desktop application that do not depend on the window toolkit.
pub mod Operation
pub mod Controls
pub mod Preview
pub mod Table
