-- ===== src/Factory.antt =====
-- lib/helpers.py: the factories of `screw_param_config` and `module_config` messages. Numbers are in
-- thousandths, decimal as the source writes them.
pub mod Draws
pub mod Screw
pub mod Random
pub mod Module
pub mod Windows
pub mod Steps
pub mod Points
